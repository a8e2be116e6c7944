-- ===== src/Policy/Soundness.antt =====
-- UpdatePolicy keeps the prerequisites of the enabled policies enabled.
use passwall_server.Base.{
  ℕ, Option, none, some, String, Bool, true, false, List, [], ◌∷◌, ◌++◌, M, map_error, translate,
  Gorm, IsGorm, is_not_found, str_eq, ◌==◌, ◌&&◌, Result, ok, err, success_map, mem-append_one,
  mem-append_left, create_step, success_value, pure, mem-append_last, after, if◌then◌else◌,
  Bool-cases, ◌≡◌, refl, sym, ap, ◌∙◌, subst, inl, inr, Memᴰ, Distinct-append, require_step,
  same_step, same_error_step, write_error_step, OnSuccess,
}
use passwall_server.Membership.Record.{OrganizationUser}
use passwall_server.Policy.Catalog.{get_policy_dependencies}
use passwall_server.Policy.Record.{OrganizationPolicy, Table, key, rekey}
use passwall_server.Policy.Service.{
  UpdateOrganizationPolicyRequest, is_enabling, is_disabling, blank, policy_or_new, find_or_create,
  update_policy,
}
use passwall_server.Policy.Dependencies.{Enabled, IsSound, Free, save-IsSound}
use passwall_server.Policy.Updates.{
  SameColumns, resulting, apply_request-SameColumns, matching, require_org_admin-same,
  check_dependencies-same, check_dependencies-Enabled, check_dependents-same, check_dependents-Free,
  get_organization_plan-same,
}

-- A test that runs only under a condition.
module _ (check : M Table (Unit {0})) (rows : Table) where
  when-same : (b : Bool) → (check rows).1 ≡ rows → ((if b then check else pure tt) rows).1 ≡ rows
  when-same true leaves = leaves
  when-same false leaves = refl

  when-success :
      (b : Bool) (Q : Type 0)
      → OnSuccess (λ _ _. Q) (check rows)
      → OnSuccess (λ _ _. b ≡ true → Q) ((if b then check else pure tt) rows)
  when-success true Q h = success_map _ _ (check rows) (λ _ _ q _. q) h
  when-success false Q h = λ e. cc

Enabled-append :
    (rows : Table) (p : OrganizationPolicy) (o : ℕ) (deps : List String)
    → Enabled rows o deps
    → Enabled (rows ++ p ∷ []) o deps
Enabled-append rows p o deps h d m =
    let (q, mq, eo, et, ee) = h d m in (q, mem-append_left q p rows mq, eo, et, ee)

-- What the policy that is found or created comes with.
record Ready (o : ℕ) (t : String) (rows rows' : Table) (p : OrganizationPolicy) : Type 0 where
  sound : IsSound rows'
  there : Memᴰ p rows'
  org : p.organization_id ≡ o
  type : p.type ≡ t
  enabled : Enabled rows o (get_policy_dependencies t) → Enabled rows' o (get_policy_dependencies t)
  free : Free rows o t → Free rows' o t

off : {b : Bool} {A : Type 0} → b ≡ false → b ≡ true → A
off h k = absurd (cc)

module _ (db : Gorm OrganizationPolicy) (gorm : IsGorm key rekey db)
    (members : ℕ → ℕ → Result OrganizationUser) (plan_codes : ℕ → Result (Option String)) where
  created-Ready :
      (uuid : String) (o : ℕ) (t : String) (rows rows' : Table) (p : OrganizationPolicy)
      → IsSound rows
      → db.create (blank db members plan_codes uuid o t) rows ≡ ok (p, rows')
      → Ready o t rows rows' p
  created-Ready uuid o t rows rows' p s e =
      let (e1, e2, fresh) = gorm.create_ok _ rows p rows' e in
      let is_off : p.enabled ≡ false = ap (λ (x : OrganizationPolicy). x.enabled) e1 in
      rw e2 (record {
        sound = record {
          keys = Distinct-append key p rows s.keys fresh;
          prerequisites = λ x m on. elim (mem-append_one x p rows m) [
            | inl h ↦ Enabled-append rows p _ _ (s.prerequisites x h on)
            | inr same ↦ off (ap (λ (x : OrganizationPolicy). x.enabled) same ∙ is_off) on
          ];
        };
        there = mem-append_last p rows;
        org = ap (λ (x : OrganizationPolicy). x.organization_id) e1;
        type = ap (λ (x : OrganizationPolicy). x.type) e1;
        enabled = Enabled-append rows p o (get_policy_dependencies t);
        free = λ f x m eo on dep. elim (mem-append_one x p rows m) [
          | inl h ↦ f x h eo on dep
          | inr same ↦ off (ap (λ (x : OrganizationPolicy). x.enabled) same ∙ is_off) on
        ];
      })

  -- The rest of the request runs on the found policy, on the created one, or not at all.
  find_or_create_step :
      {B : Type 0} (P : Table → Type 0) (uuid : String) (o : ℕ) (t : String) (rows : Table)
      (f : OrganizationPolicy → M Table B)
      → P rows
      → IsSound rows
      → ((p : OrganizationPolicy) (rows' : Table) → Ready o t rows rows' p → P (f p rows').1)
      → P (after (find_or_create db members plan_codes uuid o t rows) f).1
  unfolding find_or_create
  find_or_create_step P uuid o t rows f h s k =
      go (db.first (λ p. (p.organization_id == o) && str_eq p.type t) rows) refl
    where
      go :
          (m : Result OrganizationPolicy)
          → db.first (λ p. (p.organization_id == o) && str_eq p.type t) rows ≡ m
          → P
              (after
                (policy_or_new db members plan_codes uuid o t (map_error translate m) rows)
                f).1
      go (ok p) e =
          let (m, eo, et) = matching db gorm members plan_codes o t rows p e in
          unfold policy_or_new after in
          k p rows
            (record { sound = s; there = m; org = eo; type = et; enabled = λ x. x; free = λ x. x })
      go (err x) e = elim (Bool-cases (is_not_found (translate x))) [
        | inl y ↦
            unfold policy_or_new in
            rw y (
              create_step P _ _ f rows h
                λ p rows' e'. k p rows' (created-Ready uuid o t rows rows' p s e'))
        | inr y ↦ unfold policy_or_new after in rw y h
      ]

  saved-IsSound :
      (o : ℕ) (t : String) (rows rows' rows'' : Table) (p : OrganizationPolicy) (b : Option Bool)
      (new : OrganizationPolicy)
      → IsSound rows
      → Ready o t rows rows' p
      → (is_enabling b ≡ true → Enabled rows o (get_policy_dependencies t))
      → (is_disabling b ≡ true → Free rows o t)
      → SameColumns new p (resulting b p.enabled)
      → db.save new rows' ≡ ok rows''
      → IsSound rows''
  saved-IsSound o t rows rows' rows'' p b new s r en dis (ei, eo, et, ee) h =
      rw (gorm.save_ok new rows' rows'' h)
        (save-IsSound rows' r.sound p new r.there ei eo et (own b en ee) (others b dis ee))
    where
      own :
          (c : Option Bool)
          → (is_enabling c ≡ true → Enabled rows o (get_policy_dependencies t))
          → new.enabled ≡ resulting c p.enabled
          → new.enabled ≡ true
          → Enabled rows' p.organization_id (get_policy_dependencies p.type)
      own none k e on = r.sound.prerequisites p r.there (sym e ∙ on)
      own (some true) k e on = rw (r.org, r.type) (r.enabled (k refl))
      own (some false) k e on = off e on

      others :
          (c : Option Bool)
          → (is_disabling c ≡ true → Free rows o t)
          → new.enabled ≡ resulting c p.enabled
          → (x : OrganizationPolicy) → Memᴰ x rows'
          → x.organization_id ≡ p.organization_id
          → x.enabled ≡ true
          → Memᴰ p.type (get_policy_dependencies x.type)
          → p.enabled ≡ true
          → new.enabled ≡ true
      others none k e x m eo on dep pon = e ∙ pon
      others (some true) k e x m eo on dep pon = e
      others (some false) k e x m eo on dep pon = absurd (
          r.free (k refl) x m (eo ∙ r.org) on
            (subst (λ z. Memᴰ z (get_policy_dependencies x.type)) r.type dep))

  -- UpdatePolicy keeps every enabled policy's prerequisites enabled, whatever it answers.
  pub update_policy-IsSound :
      (uuid stamp : String) (o user_id : ℕ) (t : String) (req : UpdateOrganizationPolicyRequest)
      (rows : Table)
      → IsSound rows
      → IsSound (update_policy db members plan_codes uuid stamp o user_id t req rows).1
  unfolding update_policy
  update_policy-IsSound uuid stamp o user_id t req rows s =
      same_step IsSound _ _ rows (require_org_admin-same db gorm members plan_codes o user_id rows)
        s
        λ _ _. require_step IsSound _ _ _ rows s λ _.
          same_error_step IsSound _ _ _ rows
            (get_organization_plan-same db gorm members plan_codes o rows) s
            λ _ _. require_step IsSound _ _ _ rows s λ _.
              same_step IsSound _ _ rows
                (when-same _ rows (is_enabling req.enabled)
                  (check_dependencies-same db gorm members plan_codes o _ rows))
                s
                λ _ e1.
                  same_step IsSound _ _ rows
                    (when-same _ rows (is_disabling req.enabled)
                      (check_dependents-same db gorm members plan_codes o t rows))
                    s
                    λ _ e2. find_or_create_step IsSound uuid o t rows _ s s λ p rows' r.
                      write_error_step IsSound _ _ _ rows' r.sound λ rows'' h.
                        saved-IsSound o t rows rows' rows'' p req.enabled _ s r
                          (success_value _ _ _
                            (when-success _ rows (is_enabling req.enabled)
                              (Enabled rows o (get_policy_dependencies t))
                              (check_dependencies-Enabled db gorm members plan_codes o _ rows))
                            e1)
                          (success_value _ _ _
                            (when-success _ rows (is_disabling req.enabled) (Free rows o t)
                              (check_dependents-Free db gorm members plan_codes o t rows))
                            e2)
                          (apply_request-SameColumns stamp user_id t req p) h
