-- ===== src/Policy/Updates.antt =====
-- The parts of UpdatePolicy: what each leaves of the table and what its success tells.
use passwall_server.Base.{
  ℕ, Option, none, some, String, Bool, true, false, List, [], ◌∷◌, map_error, translate, Gorm,
  IsGorm, is_not_found, str_eq, ◌==◌, ◌&&◌, Result, ok, err, ok-injective, and_left, and_right,
  success_map, eq→==, and_intro, call_error_success, require_success_end, eq_iff, ==→eq, Bool-cases,
  ◌≡◌, refl, sym, ap, ◌∙◌, inl, inr, Memᴰ, mem-cons, lift_step, lift_error_step, require_step,
  same_error_step, OnSuccess, lift_success, lift_error_success, require_success, require-same,
  forbidden,
}
use passwall_server.Membership.Record.{OrganizationUser, is_admin}
use passwall_server.Policy.Catalog.{require_two_factor}
use passwall_server.Policy.Record.{OrganizationPolicy, PolicyData, Table, key, rekey}
use passwall_server.Policy.Service.{
  UpdateOrganizationPolicyRequest, is_empty, is_enabling, require_org_admin, get_organization_plan,
  is_policy_enabled, enabled_answer, check_dependencies, find_dependents, check_dependents,
  apply_request, apply_enabled, apply_data, populate,
}
use passwall_server.Policy.Dependencies.{Enabled, Free, dependents_complete}

-- The columns that the prerequisites rest on, of one row and of another.
abbrev pub SameColumns : OrganizationPolicy → OrganizationPolicy → Bool → Type 0
SameColumns q p on =
    (q.id ≡ p.id) × (q.organization_id ≡ p.organization_id) × (q.type ≡ p.type) × (q.enabled ≡ on)

-- Whether a policy is on after a request.
abbrev pub resulting : Option Bool → Bool → Bool
resulting none on = on
resulting (some b) on = b

populate-SameColumns :
    (stamp : String) (enabling : Bool) (t : String) (p : OrganizationPolicy)
    → SameColumns (populate stamp enabling t p) p p.enabled
unfolding populate
populate-SameColumns stamp enabling t p =
    elim (Bool-cases (enabling && str_eq t require_two_factor)) [
      | inl e ↦ rw e (refl, refl, refl, refl)
      | inr e ↦ rw e (refl, refl, refl, refl)
    ]

apply_data-SameColumns :
    (d : Option PolicyData) (p : OrganizationPolicy) → SameColumns (apply_data d p) p p.enabled
unfolding apply_data
apply_data-SameColumns none p = (refl, refl, refl, refl)
apply_data-SameColumns (some d) p = (refl, refl, refl, refl)

apply_enabled-SameColumns :
    (user_id : ℕ) (b : Option Bool) (p : OrganizationPolicy)
    → SameColumns (apply_enabled user_id b p) p (resulting b p.enabled)
unfolding apply_enabled
apply_enabled-SameColumns user_id none p = (refl, refl, refl, refl)
apply_enabled-SameColumns user_id (some true) p = (refl, refl, refl, refl)
apply_enabled-SameColumns user_id (some false) p = (refl, refl, refl, refl)

pub apply_request-SameColumns :
    (stamp : String) (user_id : ℕ) (t : String) (req : UpdateOrganizationPolicyRequest)
    (p : OrganizationPolicy)
    → SameColumns (apply_request stamp user_id t req p) p (resulting req.enabled p.enabled)
unfolding apply_request
apply_request-SameColumns stamp user_id t req p =
    let p1 = apply_enabled user_id req.enabled p in
    let p2 = apply_data req.policy_data p1 in
    let (a, b, c, d) = populate-SameColumns stamp (is_enabling req.enabled) t p2 in
    let (a', b', c', d') = apply_data-SameColumns req.policy_data p1 in
    let (a'', b'', c'', d'') = apply_enabled-SameColumns user_id req.enabled p in
    (a ∙ a' ∙ a'', b ∙ b' ∙ b'', c ∙ c' ∙ c'', d ∙ d' ∙ d'')

module _ (db : Gorm OrganizationPolicy) (gorm : IsGorm key rekey db)
    (members : ℕ → ℕ → Result OrganizationUser) (plan_codes : ℕ → Result (Option String)) where
  pub require_org_admin-same :
      (o u : ℕ) (rows : Table) → (require_org_admin db members plan_codes o u rows).1 ≡ rows
  unfolding require_org_admin
  require_org_admin-same o u rows =
      lift_error_step (λ s. s ≡ rows) _ _ _ rows refl
        λ ou _. require-same (is_admin ou) forbidden rows

  find_dependents-same :
      (o : ℕ) (t : String) (rows : Table)
      → (find_dependents db members plan_codes o t rows).1 ≡ rows
  unfolding find_dependents
  find_dependents-same o t rows = lift_step (λ s. s ≡ rows) _ _ rows refl λ _ _. refl

  pub check_dependencies-same :
      (o : ℕ) (deps : List String) (rows : Table)
      → (check_dependencies db members plan_codes o deps rows).1 ≡ rows
  unfolding check_dependencies is_policy_enabled
  check_dependencies-same o [] rows = refl
  check_dependencies-same o (d ∷ deps) rows =
      lift_error_step (λ s. s ≡ rows) _ _ _ rows refl
        λ on _.
          require_step (λ s. s ≡ rows) _ _ _ rows refl λ _. check_dependencies-same o deps rows

  pub matching :
      (o : ℕ) (d : String) (rows : Table) (p : OrganizationPolicy)
      → db.first (λ x. (x.organization_id == o) && str_eq x.type d) rows ≡ ok p
      → Memᴰ p rows × (p.organization_id ≡ o) × (p.type ≡ d)
  matching o d rows p e =
      let (m, h) = gorm.first_found _ rows p e in
      (m, ==→eq _ _ (and_left _ _ h), (eq_iff p.type d).0 (and_right _ _ h))

  answered :
      (o : ℕ) (d : String) (rows : Table) (m : Result OrganizationPolicy)
      → db.first (λ x. (x.organization_id == o) && str_eq x.type d) rows ≡ m
      → enabled_answer (map_error translate m) ≡ ok true
      → (q : OrganizationPolicy) × Memᴰ q rows
        × (q.organization_id ≡ o)
        × (q.type ≡ d)
        × (q.enabled ≡ true)
  answered o d rows (ok p) e h =
      let (m, eo, et) = matching o d rows p e in (p, m, eo, et, ok-injective h)
  answered o d rows (err x) e h = elim (Bool-cases (is_not_found (translate x))) [
    | inl y ↦ cc (sym (rw y at h))
    | inr y ↦ absurd (cc (sym (rw y at h)))
  ]

  -- The prerequisites that the loop has passed are enabled.
  pub check_dependencies-Enabled :
      (o : ℕ) (deps : List String) (rows : Table)
      → OnSuccess
          (λ _ _. Enabled rows o deps)
          (check_dependencies db members plan_codes o deps rows)
  unfolding check_dependencies is_policy_enabled
  check_dependencies-Enabled o [] rows = λ d m. elim m [ ]
  check_dependencies-Enabled o (dep ∷ deps) rows =
      lift_error_success (λ _ _. Enabled rows o (dep ∷ deps)) _ _ _ rows
        λ on e.
          require_success (λ _ _. Enabled rows o (dep ∷ deps)) _ _ _ rows
            λ t.
              success_map _ _ (check_dependencies db members plan_codes o deps rows)
                (λ _ _ rest d m. elim (mem-cons m) [
                  | inl same ↦ rw same (answered o dep rows _ refl (e ∙ ap ok t))
                  | inr n ↦ rest d n
                ])
                (check_dependencies-Enabled o deps rows)

  pub check_dependents-same :
      (o : ℕ) (t : String) (rows : Table)
      → (check_dependents db members plan_codes o t rows).1 ≡ rows
  unfolding check_dependents
  check_dependents-same o t rows =
      same_error_step (λ s. s ≡ rows) _ _ _ rows (find_dependents-same o t rows) refl
        λ found _. require-same (is_empty found) _ rows

  pub check_dependents-Free :
      (o : ℕ) (t : String) (rows : Table)
      → OnSuccess (λ _ _. Free rows o t) (check_dependents db members plan_codes o t rows)
  unfolding check_dependents find_dependents
  check_dependents-Free o t rows =
      call_error_success (λ _ _. Free rows o t)
        (λ found s. (s ≡ rows) × (is_empty found ≡ true → Free rows o t)) _ _ _
        (lift_success (λ found s. (s ≡ rows) × (is_empty found ≡ true → Free rows o t)) _ _ rows
          λ ps e. (
            refl,
            λ none_found p m eo on dep.
                dependents_complete t ps none_found p
                  (gorm.find_complete _ rows ps e p m (and_intro _ _ (eq→== _ _ eo) on)) dep,
          ))
        λ found s h. require_success_end (λ _ _. Free rows o t) (is_empty found) _ s (λ b. h.1 b)

  pub get_organization_plan-same :
      (o : ℕ) (rows : Table) → (get_organization_plan db members plan_codes o rows).1 ≡ rows
  unfolding get_organization_plan
  get_organization_plan-same o rows = lift_error_step (λ s. s ≡ rows) _ _ _ rows refl λ _ _. refl
