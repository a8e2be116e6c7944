-- ===== src/Policy/Dependencies.antt =====
-- An enabled policy has its prerequisites enabled, whatever requests are served and whatever the
-- database answers.
use passwall_server.Base.{
  ℕ, String, true, false, List, [], ◌∷◌, str_eq, ◌||◌, eq_iff, Bool-cases, ◌≡◌, refl, sym, ap, ◌∙◌,
  subst, inl, inr, Memᴰ, mem-cons, arith, upsert, Distinct, Distinct-upsert, Distinct-eq,
  mem-upsert, upsert-mem_self, upsert-mem, ℕ_discrete,
}
use passwall_server.Policy.Catalog.{get_policy_dependencies}
use passwall_server.Policy.Record.{OrganizationPolicy, Table, key}
use passwall_server.Policy.Service.{depends_on, dependents, is_empty}

-- The prerequisites `deps` are enabled in the organization.
abbrev pub Enabled : Table → ℕ → List String → Type 0
Enabled rows org_id deps =
    (d : String)
    → Memᴰ d deps
    → (q : OrganizationPolicy) × Memᴰ q rows
      × (q.organization_id ≡ org_id)
      × (q.type ≡ d)
      × (q.enabled ≡ true)

pub record IsSound (rows : Table) : Type 0 where
  pub keys : Distinct key rows
  pub prerequisites :
      (p : OrganizationPolicy)
      → Memᴰ p rows
      → p.enabled ≡ true
      → Enabled rows p.organization_id (get_policy_dependencies p.type)

-- No enabled policy of the organization depends on the type.
abbrev pub Free : Table → ℕ → String → Type 0
Free rows org_id t =
    (p : OrganizationPolicy)
    → Memᴰ p rows
    → p.organization_id ≡ org_id
    → p.enabled ≡ true
    → ¬ Memᴰ t (get_policy_dependencies p.type)

depends_on_complete : (t : String) (deps : List String) → depends_on t deps ≡ false → ¬ Memᴰ t deps
unfolding depends_on
depends_on_complete t [] h m = elim m [ ]
depends_on_complete t (d ∷ deps) h m = elim (mem-cons m) [
  | inl e ↦ cc (sym ((eq_iff d t).1 (sym e)), or_false h)
  | inr n ↦ depends_on_complete t deps (ground arith) n
]
  where
    or_false : (str_eq d t || depends_on t deps) ≡ false → str_eq d t ≡ false
    or_false k = ground arith

pub dependents_complete :
    (t : String) (ps : Table)
    → is_empty (dependents t ps) ≡ true
    → (p : OrganizationPolicy) → Memᴰ p ps
    → ¬ Memᴰ t (get_policy_dependencies p.type)
unfolding dependents
dependents_complete t [] h p m = elim m [ ]
dependents_complete t (q ∷ ps) h p m =
    elim (Bool-cases (depends_on t (get_policy_dependencies q.type))) [
      | inl e ↦ absurd (ground arith)
      | inr e ↦ elim (mem-cons m) [
        | inl same ↦ rw same (depends_on_complete t _ e)
        | inr n ↦ dependents_complete t ps (rw e at h) p n
      ]
    ]

-- Saving a policy over the row that it comes from.
module _ (rows : Table) (sound : IsSound rows) (old new : OrganizationPolicy)
    (there : Memᴰ old rows) (same_id : new.id ≡ old.id)
    (same_org : new.organization_id ≡ old.organization_id) (same_type : new.type ≡ old.type)
    (own : new.enabled ≡ true → Enabled rows old.organization_id (get_policy_dependencies old.type))
    (others : (x : OrganizationPolicy)
      → Memᴰ x rows
      → x.organization_id ≡ old.organization_id
      → x.enabled ≡ true
      → Memᴰ old.type (get_policy_dependencies x.type)
      → old.enabled ≡ true
      → new.enabled ≡ true) where
  -- An enabled row stays, or is the one that is saved and stays enabled.
  stays :
      (q : OrganizationPolicy)
      → Memᴰ q rows
      → q.enabled ≡ true
      → (q ≡ old → new.enabled ≡ true)
      → (q' : OrganizationPolicy) × Memᴰ q' (upsert key new rows)
        × (q'.organization_id ≡ q.organization_id)
        × (q'.type ≡ q.type)
        × (q'.enabled ≡ true)
  stays q m e on = elim (ℕ_discrete q.id old.id) [
    | yes s ↦
        let same : q ≡ old = Distinct-eq key rows sound.keys q old m there s in
        (new, upsert-mem_self key new rows, rw same same_org, rw same same_type, on same)
    | no n ↦ (q, upsert-mem key new q rows m (λ s. n (s ∙ same_id)), refl, refl, e)
  ]

  pub save-IsSound : IsSound (upsert key new rows)
  save-IsSound = record { keys = Distinct-upsert key new rows sound.keys; prerequisites = met }
    where
      saved :
          (d : String)
          → Memᴰ d (get_policy_dependencies old.type)
          → new.enabled ≡ true
          → (q : OrganizationPolicy) × Memᴰ q (upsert key new rows)
            × (q.organization_id ≡ old.organization_id)
            × (q.type ≡ d)
            × (q.enabled ≡ true)
      saved d m on =
          let (q, mq, eo, et, ee) = own on d m in
          let (q', mq', eo', et', ee') = stays q mq ee (λ _. on) in
          (q', mq', eo' ∙ eo, et' ∙ et, ee')

      kept :
          (p : OrganizationPolicy)
          → Memᴰ p rows
          → p.enabled ≡ true
          → (d : String) → Memᴰ d (get_policy_dependencies p.type)
          → (q : OrganizationPolicy) × Memᴰ q (upsert key new rows)
            × (q.organization_id ≡ p.organization_id)
            × (q.type ≡ d)
            × (q.enabled ≡ true)
      kept p mp on d m =
          let (q, mq, eo, et, ee) = sound.prerequisites p mp on d m in
          let (q', mq', eo', et', ee') = stays q mq ee (λ same.
            others p mp (sym eo ∙ ap (λ (x : OrganizationPolicy). x.organization_id) same) on
              (subst (λ z. Memᴰ z (get_policy_dependencies p.type))
                (sym et ∙ ap (λ (x : OrganizationPolicy). x.type) same) m)
              (subst (λ (x : OrganizationPolicy). x.enabled ≡ true) same ee)) in
          (q', mq', eo' ∙ eo, et' ∙ et, ee')

      met :
          (p : OrganizationPolicy)
          → Memᴰ p (upsert key new rows)
          → p.enabled ≡ true
          → Enabled (upsert key new rows) p.organization_id (get_policy_dependencies p.type)
      met p m on d md = elim (mem-upsert key new p rows sound.keys m) [
        | inl same ↦
            let t : p.type ≡ old.type = ap (λ (x : OrganizationPolicy). x.type) same ∙ same_type in
            let o : p.organization_id ≡ old.organization_id =
              ap (λ (x : OrganizationPolicy). x.organization_id) same ∙ same_org in
            let (q, mq, eo, et, ee) =
              saved d (subst (λ z. Memᴰ d (get_policy_dependencies z)) t md)
                (subst (λ (x : OrganizationPolicy). x.enabled ≡ true) same on) in
            (q, mq, eo ∙ sym o, et, ee)
        | inr (mp, _) ↦ kept p mp on d md
      ]
