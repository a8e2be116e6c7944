-- ===== src/Enforcement/Refusal.antt =====
-- The checks over the policy table.
use passwall_server.Base.{
  ℕ, Option, String, Bool, true, false, Gorm, IsGorm, Result, ok, err, map_error, translate, ◌≡◌,
  ◌≢◌, refl, sym, ap, ◌∙◌, Memᴰ, ◌⊎◌, inl, inr, ◌==◌, ◌&&◌, str_eq, arith, Error, lift,
  if◌then◌else◌, Bool-cases, eq_iff, and_intro, eq→==, ==→eq, and_left, and_right, ok-injective,
  is_not_found,
}
use passwall_server.Membership.Record.{OrganizationUser, OrganizationRole}
use passwall_server.Policy.Catalog.{
  disable_personal_export, remove_send, disable_personal_vault, disable_external_sharing,
  remove_card_type,
}
use passwall_server.Policy.Record.{OrganizationPolicy, Table, key, rekey}
use passwall_server.Policy.Service.{is_policy_enabled, get_policy_data, enabled_answer}
use passwall_server.Enforcement.Gates.{
  PolicyReads, refuse_if, is_exempt, check_personal_export_allowed, check_send_allowed,
  check_personal_vault_allowed, check_external_sharing_allowed, check_card_type_allowed,
}

-- The policy service on a table.
abbrev pub reads_of :
    Gorm OrganizationPolicy
    → (ℕ → ℕ → Result OrganizationUser)
    → (ℕ → Result (Option String))
    → Table
    → PolicyReads
reads_of db members plan_codes rows = record {
  is_policy_enabled = λ o t. (is_policy_enabled db members plan_codes o t rows).0;
  get_policy_data = λ o t. (get_policy_data db members plan_codes o t rows).0;
}

true_not_false : true ≢ false
true_not_false h = ground arith

refuse_if-off : (refusal : Error) (r : Result Bool) → refuse_if refusal r ≡ ok tt → r ≡ ok false
refuse_if-off refusal (err e) h = cc
refuse_if-off refusal (ok true) h = cc
refuse_if-off refusal (ok false) h = refl

-- The policy of the type is on in the organization, and there is one row of it.
abbrev pub OnePolicy : ℕ → String → Table → OrganizationPolicy → Type 0
OnePolicy o t rows p =
    Memᴰ p rows
    × (p.organization_id ≡ o)
    × (p.type ≡ t)
    × (p.enabled ≡ true)
    × ((q : OrganizationPolicy) → Memᴰ q rows → q.organization_id ≡ o → q.type ≡ t → q ≡ p)

off_answer :
    (r : Result OrganizationPolicy)
    → enabled_answer (map_error translate r) ≡ ok false
    → ((q : OrganizationPolicy) × (r ≡ ok q) × (q.enabled ≡ false))
      ⊎ ((e : Error) × (r ≡ err e) × (is_not_found (translate e) ≡ true))
off_answer (ok q) h = inl (q, refl, ok-injective h)
off_answer (err e) h = elim (Bool-cases (is_not_found (translate e))) [
  | inl t ↦ inr (e, refl, t)
  | inr f ↦ absurd (let k = rw f at h in cc)
]

module _ (db : Gorm OrganizationPolicy) (reliable : IsGorm key rekey db)
    (members : ℕ → ℕ → Result OrganizationUser) (plan_codes : ℕ → Result (Option String)) (o : ℕ)
    (rows : Table) where
  -- An enabled policy is never answered as off.
  never_off :
      (t : String) (p : OrganizationPolicy)
      → OnePolicy o t rows p
      → (is_policy_enabled db members plan_codes o t rows).0 ≢ ok false
  unfolding is_policy_enabled lift
  never_off t p (m, eo, et, on, one) h =
      let found : OrganizationPolicy → Bool = λ q. (q.organization_id == o) && str_eq q.type t in
      elim (off_answer (db.first found rows) h) [
        | inl (q, e, off) ↦
            let (mq, s) = reliable.first_found found rows q e in
            let same =
              one q mq (==→eq _ _ (and_left _ _ s)) ((eq_iff q.type t).0 (and_right _ _ s)) in
            true_not_false (sym on ∙ ap (λ x. x.enabled) (sym same) ∙ off)
        | inr (e, r, n) ↦
            let missing =
              reliable.first_missing found rows (r ∙ ap err (reliable.first_error found rows e r n))
                p m in
            true_not_false (sym (and_intro _ _ (eq→== _ _ eo) ((eq_iff p.type t).1 et)) ∙ missing)
      ]

  refused :
      (refusal : Error) (t : String) (p : OrganizationPolicy)
      → OnePolicy o t rows p
      → refuse_if refusal (is_policy_enabled db members plan_codes o t rows).0 ≢ ok tt
  refused refusal t p one h = never_off t p one (refuse_if-off refusal _ h)

  gate :
      (refusal : Error) (t : String) (p : OrganizationPolicy) (role : OrganizationRole)
      → OnePolicy o t rows p
      → is_exempt role ≡ false
      → (if is_exempt role
          then ok tt
          else refuse_if refusal (is_policy_enabled db members plan_codes o t rows).0)
        ≢ ok tt
  gate refusal t p role one f = rw f (refused refusal t p one)

-- The five checks by role or without it, and the policy that each is about.
pub data Check : Type 0 where
  exports sends personal_vault sharing cards : Check

abbrev pub policy_of : Check → String
policy_of exports = disable_personal_export
policy_of sends = remove_send
policy_of personal_vault = disable_personal_vault
policy_of sharing = disable_external_sharing
policy_of cards = remove_card_type

-- Sharing and cards are forbidden to everybody, the rest to those who are neither owner nor
-- administrator.
abbrev pub spares : Check → OrganizationRole → Bool
spares sharing role = false
spares cards role = false
spares _ role = is_exempt role

unfoldable pub run_check : PolicyReads → Check → ℕ → OrganizationRole → Result (Unit {0})
run_check reads exports o role = check_personal_export_allowed reads o role
run_check reads sends o role = check_send_allowed reads o role
run_check reads personal_vault o role = check_personal_vault_allowed reads o role
run_check reads sharing o role = check_external_sharing_allowed reads o
run_check reads cards o role = check_card_type_allowed reads o

-- Where an organization has one row of the policy that a check is about and that policy is on, the
-- check, run on the policy service over the table, lets nobody pass whom the policy does not spare,
-- also where the database fails.
pub run_check-refuses :
    (db : Gorm OrganizationPolicy) (members : ℕ → ℕ → Result OrganizationUser)
    (plan_codes : ℕ → Result (Option String)) (o : ℕ) (rows : Table) (c : Check)
    (role : OrganizationRole) (p : OrganizationPolicy)
    → IsGorm key rekey db
    → OnePolicy o (policy_of c) rows p
    → spares c role ≡ false
    → run_check (reads_of db members plan_codes rows) c o role ≢ ok tt
unfolding run_check check_personal_export_allowed check_send_allowed check_personal_vault_allowed
    check_external_sharing_allowed check_card_type_allowed
run_check-refuses db members plan_codes o rows exports role p reliable one f =
    gate db reliable members plan_codes o rows _ disable_personal_export p role one f
run_check-refuses db members plan_codes o rows sends role p reliable one f =
    gate db reliable members plan_codes o rows _ remove_send p role one f
run_check-refuses db members plan_codes o rows personal_vault role p reliable one f =
    gate db reliable members plan_codes o rows _ disable_personal_vault p role one f
run_check-refuses db members plan_codes o rows sharing role p reliable one f =
    refused db reliable members plan_codes o rows _ disable_external_sharing p one
run_check-refuses db members plan_codes o rows cards role p reliable one f =
    refused db reliable members plan_codes o rows _ remove_card_type p one
