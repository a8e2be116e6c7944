-- ===== src/Policy/Service.antt =====
-- internal/service/organization_policy_service.go. The memberships (orgUserRepo.GetByOrgAndUser)
-- and the plan codes of the subscriptions (subRepo.GetByOrganizationID, `none` where the plan is
-- not loaded) are arguments, as are the identifier that `uuid.New` draws and the formatted time.
use passwall_server.Base.{
  ℕ, Option, none, some, String, Bool, true, false, List, [], ◌∷◌, M, map_error, translate, Gorm,
  is_not_found, str_eq, ◌==◌, ◌&&◌, ◌||◌, Result, ok, err, Error, ◌>>=◌, ◌>>◌, pure, fail, require,
  lift, query, on_error, if◌then◌else◌, forbidden, message, wrap,
}
use passwall_server.Membership.Record.{OrganizationUser, is_admin}
use passwall_server.Plan.Code.{base_plan, tier_meets_minimum}
use passwall_server.Policy.Catalog.{
  PolicyDefinition, all_policy_definitions, get_policy_tier, get_policy_dependencies,
  is_valid_policy_type, require_two_factor,
}
use passwall_server.Policy.Record.{
  Value, text, number, PolicyData, lookup, insert, OrganizationPolicy, Table, create,
  list_by_organization, list_enabled_by_organization, update,
}

pub record OrganizationPolicyDto : Type 0 where
  pub id : ℕ
  pub uuid : String
  pub organization_id : ℕ
  pub type : String
  pub enabled : Bool
  pub policy_data : PolicyData

pub record UpdateOrganizationPolicyRequest : Type 0 where
  pub enabled : Option Bool
  pub policy_data : Option PolicyData

abbrev pub to_organization_policy_dto : OrganizationPolicy → OrganizationPolicyDto
to_organization_policy_dto p = record {
  id = p.id;
  uuid = p.uuid;
  organization_id = p.organization_id;
  type = p.type;
  enabled = p.enabled;
  policy_data = p.policy_data;
}

-- The policy that is shown where none is stored.
abbrev pub absent : ℕ → String → OrganizationPolicyDto
absent org_id t = record {
  id = 0;
  uuid = "";
  organization_id = org_id;
  type = t;
  enabled = false;
  policy_data = [];
}

abbrev pub is_enabling : Option Bool → Bool
is_enabling (some true) = true
is_enabling _ = false

abbrev pub is_disabling : Option Bool → Bool
is_disabling (some false) = true
is_disabling _ = false

-- The inner loop of findDependents: one of the prerequisites is the type.
unfoldable pub depends_on : String → List String → Bool
depends_on t [] = false
depends_on t (dep ∷ deps) = str_eq dep t || depends_on t deps

-- The outer loop of findDependents.
unfoldable pub dependents : String → List OrganizationPolicy → List String
dependents t [] = []
dependents t (p ∷ ps) =
    let rest = dependents t ps in
    if depends_on t (get_policy_dependencies p.type) then p.type ∷ rest else rest

abbrev pub is_empty {ℓ} : {A : Type ℓ} → List A → Bool
is_empty [] = true
is_empty (x ∷ xs) = false

-- The changes that the request asks of the policy.
unfoldable pub apply_enabled : ℕ → Option Bool → OrganizationPolicy → OrganizationPolicy
apply_enabled user_id none p = p
apply_enabled user_id (some true) p = record p {
  enabled = true;
  last_enabled_by_user_id = some user_id;
}
apply_enabled user_id (some false) p = record p {
  enabled = false;
  last_disabled_by_user_id = some user_id;
}

unfoldable pub apply_data : Option PolicyData → OrganizationPolicy → OrganizationPolicy
apply_data none p = p
apply_data (some d) p = record p { policy_data = d }

abbrev pub insert_if_absent : String → Value → PolicyData → PolicyData
insert_if_absent k v d = elim (lookup k d) [ none ↦ insert k v d | some _ ↦ d ]

-- The start and the grace period of the two-factor policy when it is enabled.
unfoldable pub populate : String → Bool → String → OrganizationPolicy → OrganizationPolicy
populate stamp enabling t p =
    if enabling && str_eq t require_two_factor
    then record p {
      policy_data =
          insert_if_absent "grace_period_days" (number 7)
            (insert_if_absent "enabled_at" (text stamp) p.policy_data);
    }
    else p

unfoldable pub apply_request :
    String → ℕ → String → UpdateOrganizationPolicyRequest → OrganizationPolicy → OrganizationPolicy
unfolding apply_enabled apply_data populate
apply_request stamp user_id t req p =
    populate stamp (is_enabling req.enabled) t
      (apply_data req.policy_data (apply_enabled user_id req.enabled p))

-- A missing policy counts as one that is off.
abbrev pub enabled_answer : Result OrganizationPolicy → Result Bool
enabled_answer (ok p) = ok p.enabled
enabled_answer (err e) = if is_not_found e then ok false else err e

abbrev pub data_answer : Result OrganizationPolicy → Result (Option PolicyData)
data_answer (ok p) = if p.enabled then ok (some p.policy_data) else ok none
data_answer (err e) = if is_not_found e then ok none else err e

-- orgUserRepo's answer, as requireOrgAdmin reads it.
abbrev pub admin_answer : Result OrganizationUser → Result Bool
admin_answer (ok ou) = ok (is_admin ou)
admin_answer (err e) = if is_not_found e then err forbidden else err e

abbrev pub member_error : Error → Error
member_error e = if is_not_found e then forbidden else e

abbrev pub plan_answer : Option String → String
plan_answer none = "free"
plan_answer (some code) = base_plan code

module _ (db : Gorm OrganizationPolicy) (members : ℕ → ℕ → Result OrganizationUser)
    (plan_codes : ℕ → Result (Option String)) where
  unfoldable pub require_org_admin : ℕ → ℕ → M Table (Unit {0})
  require_org_admin org_id user_id = do
    org_user ← on_error member_error (lift (members org_id user_id))
    require (is_admin org_user) forbidden

  unfoldable pub require_org_member : ℕ → ℕ → M Table OrganizationUser
  require_org_member org_id user_id = on_error member_error (lift (members org_id user_id))

  unfoldable pub get_organization_plan : ℕ → M Table String
  get_organization_plan org_id = do
    code ← on_error (wrap "failed to get subscription") (lift (plan_codes org_id))
    pure (plan_answer code)

  unfoldable pub is_policy_enabled : ℕ → String → M Table Bool
  is_policy_enabled org_id t = query λ rows.
      enabled_answer (
        map_error translate (db.first (λ p. (p.organization_id == org_id) && str_eq p.type t) rows))

  unfoldable pub get_policy_data : ℕ → String → M Table (Option PolicyData)
  get_policy_data org_id t = query λ rows.
      data_answer (
        map_error translate (db.first (λ p. (p.organization_id == org_id) && str_eq p.type t) rows))

  -- The loop over the prerequisites when a policy is enabled.
  unfoldable pub check_dependencies : ℕ → List String → M Table (Unit {0})
  check_dependencies org_id [] = pure tt
  check_dependencies org_id (dep ∷ deps) = do
    dep_enabled ← on_error (wrap "failed to check dependency") (is_policy_enabled org_id dep)
    require dep_enabled (message "policy requires its dependency to be enabled first")
    check_dependencies org_id deps

  unfoldable pub find_dependents : ℕ → String → M Table (List String)
  find_dependents org_id t = do
    enabled ← list_enabled_by_organization db org_id
    pure (dependents t enabled)

  unfoldable pub check_dependents : ℕ → String → M Table (Unit {0})
  check_dependents org_id t = do
    found ← on_error (wrap "failed to check dependents") (find_dependents org_id t)
    require (is_empty found) (message "cannot disable: other policies depend on it")

  abbrev pub blank : String → ℕ → String → OrganizationPolicy
  blank uuid org_id t = record {
    id = 0;
    uuid = uuid;
    organization_id = org_id;
    type = t;
    enabled = false;
    policy_data = [];
    last_enabled_by_user_id = none;
    last_disabled_by_user_id = none;
  }

  -- The stored policy, or a new one where the lookup finds none.
  unfoldable pub policy_or_new :
      String → ℕ → String → Result OrganizationPolicy → M Table OrganizationPolicy
  policy_or_new uuid org_id t (ok p) = pure p
  policy_or_new uuid org_id t (err e) =
      if is_not_found e
      then on_error (wrap "failed to create policy") (create db (blank uuid org_id t))
      else fail (wrap "failed to get policy" e)

  unfoldable pub find_or_create : String → ℕ → String → M Table OrganizationPolicy
  unfolding policy_or_new
  find_or_create uuid org_id t rows =
      policy_or_new uuid org_id t
        (map_error translate
          (db.first (λ p. (p.organization_id == org_id) && str_eq p.type t) rows))
        rows

  unfoldable pub update_policy :
      String
      → String
      → ℕ
      → ℕ
      → String
      → UpdateOrganizationPolicyRequest
      → M Table OrganizationPolicyDto
  update_policy uuid stamp org_id user_id t req = do
    require_org_admin org_id user_id
    require (is_valid_policy_type t) (message "unknown policy type")
    org_plan ←
        on_error (wrap "failed to determine organization plan") (get_organization_plan org_id)
    require (tier_meets_minimum org_plan (get_policy_tier t).0)
        (message "policy requires a higher plan")
    if is_enabling req.enabled
        then check_dependencies org_id (get_policy_dependencies t)
        else pure tt
    if is_disabling req.enabled then check_dependents org_id t else pure tt
    policy ← find_or_create uuid org_id t
    let policy' = apply_request stamp user_id t req policy
    on_error (wrap "failed to update policy") (update db policy')
    pure (to_organization_policy_dto policy')

  -- `persistedMap[def.Type]`: of several rows of one type the last.
  unfoldable pub persisted : String → List OrganizationPolicy → Option OrganizationPolicy
  persisted t [] = none
  persisted t (p ∷ ps) = elim (persisted t ps) [
    | some q ↦ some q
    | none ↦ if str_eq p.type t then some p else none
  ]

  abbrev pub shown : ℕ → String → Option OrganizationPolicy → OrganizationPolicyDto
  shown org_id t none = absent org_id t
  shown org_id t (some p) = to_organization_policy_dto p

  unfoldable pub overview :
      String → ℕ → List OrganizationPolicy → List PolicyDefinition → List OrganizationPolicyDto
  overview org_plan org_id ps [] = []
  overview org_plan org_id ps (d ∷ ds) =
      let rest = overview org_plan org_id ps ds in
      if tier_meets_minimum org_plan d.tier
      then shown org_id d.type (persisted d.type ps) ∷ rest
      else rest

  unfoldable pub list_policies : ℕ → ℕ → M Table (List OrganizationPolicyDto)
  list_policies org_id user_id = do
    require_org_admin org_id user_id
    org_plan ←
        on_error (wrap "failed to determine organization plan") (get_organization_plan org_id)
    ps ← on_error (wrap "failed to list policies") (list_by_organization db org_id)
    pure (overview org_plan org_id ps all_policy_definitions)

  abbrev pub by_type_answer : ℕ → String → Result OrganizationPolicy → Result OrganizationPolicyDto
  by_type_answer org_id t (ok p) = ok (to_organization_policy_dto p)
  by_type_answer org_id t (err e) =
      if is_not_found e then ok (absent org_id t) else err (wrap "failed to get policy" e)

  unfoldable pub get_by_type : ℕ → ℕ → String → M Table OrganizationPolicyDto
  get_by_type org_id user_id t = do
    require_org_admin org_id user_id
    require (is_valid_policy_type t) (message "unknown policy type")
    query λ rows. by_type_answer org_id t (
        map_error translate (db.first (λ p. (p.organization_id == org_id) && str_eq p.type t) rows))
