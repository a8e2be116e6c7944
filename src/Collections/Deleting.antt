-- ===== src/Collections/Deleting.antt =====
-- What deleting a collection leaves.
use passwall_server.Base.{
  ℕ, true, false, not, some, ok, ◌==◌, if◌then◌else◌, ◌≡◌, ◌≢◌, refl, sym, ap, subst, ◌∙◌, Memᴰ,
  OnSuccess, on_success, lift_error_success, require_success, write_error_success,
  commit_error_success, map_result_ok, map_error_ok, translate, mem-map, map-mem, map, List,
  Distinct, Distinct-eq, Bool-cases, inl, inr, wrap, message, forbidden, ==→eq, eq→==, and_left,
  and_right, arith,
}
use passwall_server.Membership.Record.{OrganizationUser, is_admin}
use passwall_server.Collections.Record.{
  Collection, OrganizationItem, Store, Engines, IsReliable, collection_key, is_live, lies_in,
}
use passwall_server.Collections.Folders.{delete}
use passwall_server.Collections.Granting.{collection_found}

-- The two updates of rows that a deletion makes.
abbrev moved : ℕ → ℕ → OrganizationItem → OrganizationItem
moved from to i = if lies_in from i then record i { collection_id = some to } else i

abbrev marked : ℕ → ℕ → Collection → Collection
marked now id c = if c.id == id then record c { deleted_at = some now } else c

unequal : (a b : ℕ) → a ≢ b → (a == b) ≡ false
unequal a b h = ground arith

moved-lies_in :
    (from to : ℕ) (i : OrganizationItem) → to ≢ from → lies_in from (moved from to i) ≡ false
moved-lies_in from to i ne = elim (Bool-cases (lies_in from i)) [
  | inl e ↦ rw e (rw (unequal to from ne) refl)
  | inr e ↦ rw e e
]

moved_here :
    (from to : ℕ) (i : OrganizationItem)
    → lies_in from i ≡ true
    → moved from to i ≡ record i { collection_id = some to }
moved_here from to i e = rw e refl

marked-is_live :
    (now id : ℕ) (c : Collection) → (marked now id c).id ≡ id → is_live (marked now id c) ≡ false
marked-is_live now id c h = elim (Bool-cases (c.id == id)) [
  | inl e ↦ rw e refl
  | inr e ↦ cc (eq→== c.id id (rw e at h), e)
]

marked_other : (now id : ℕ) (c : Collection) → c.id ≢ id → marked now id c ≡ c
marked_other now id c ne = rw (unequal c.id id ne) refl

-- A collection of the number that is not the default one, deleted by an administrator of its
-- organization: its items lie in the default collection.
abbrev pub Emptied : ℕ → ℕ → Store → Store → Type 0
Emptied id user_id s s' =
    (c : Collection) × (def : Collection) × (ou : OrganizationUser) × Memᴰ c s.collections
    × (c.id ≡ id)
    × (c.is_default ≡ false)
    × Memᴰ ou s.members
    × (ou.organization_id ≡ c.organization_id)
    × (ou.user_id ≡ user_id)
    × (is_admin ou ≡ true)
    × Memᴰ def s'.collections
    × (def.organization_id ≡ c.organization_id)
    × (def.is_default ≡ true)
    × (is_live def ≡ true)
    × ((x : Collection) → Memᴰ x s'.collections → x.id ≡ id → is_live x ≡ false)
    × ((i : OrganizationItem) → Memᴰ i s'.items → lies_in id i ≡ false)
    × ((i : OrganizationItem)
        → Memᴰ i s.items
        → lies_in id i ≡ true
        → Memᴰ (record i { collection_id = some def.id }) s'.items)

-- The parts of Emptied that the two updates give.
abbrev Left : ℕ → Collection → Store → Store → Type 0
Left id def s s' =
    Memᴰ def s'.collections
    × ((x : Collection) → Memᴰ x s'.collections → x.id ≡ id → is_live x ≡ false)
    × ((i : OrganizationItem) → Memᴰ i s'.items → lies_in id i ≡ false)
    × ((i : OrganizationItem)
        → Memᴰ i s.items
        → lies_in id i ≡ true
        → Memᴰ (record i { collection_id = some def.id }) s'.items)

updates-Left :
    (now id : ℕ) (def : Collection) (s s' : Store)
    → def.id ≢ id
    → Memᴰ def s.collections
    → s'.collections ≡ map (marked now id) s.collections
    → s'.items ≡ map (moved id def.id) s.items
    → Left id def s s'
updates-Left now id def s s' ne m collections items = (
  subst (Memᴰ def) (sym collections) (
      subst (λ x. Memᴰ x (map (marked now id) s.collections)) (marked_other now id def ne)
        (mem-map (marked now id) def s.collections m)),
  λ x mx e.
      let (y, my, h) = map-mem (marked now id) x s.collections (subst (Memᴰ x) collections mx) in
      ap is_live h ∙ marked-is_live now id y (ap (λ z. z.id) (sym h) ∙ e),
  λ i mi.
      let (j, mj, h) = map-mem (moved id def.id) i s.items (subst (Memᴰ i) items mi) in
      ap (lies_in id) h ∙ moved-lies_in id def.id j ne,
  λ i mi e. subst (Memᴰ (record i { collection_id = some def.id })) (sym items) (
      subst (λ x. Memᴰ x (map (moved id def.id) s.items)) (moved_here id def.id i e)
        (mem-map (moved id def.id) i s.items mi)),
)

apart_from_default :
    (c def : Collection) (id : ℕ) (rows : List Collection)
    → Distinct collection_key rows
    → Memᴰ c rows
    → Memᴰ def rows
    → c.id ≡ id
    → not c.is_default ≡ true
    → def.is_default ≡ true
    → def.id ≢ id
apart_from_default c def id rows d mc md ei plain default h =
    let e : def ≡ c = Distinct-eq collection_key rows d def c md mc (h ∙ sym ei) in
    let t : c.is_default ≡ true = subst (λ x. x.is_default ≡ true) e default in cc (plain, t)

module _ (db : Engines) (reliable : IsReliable db) (now id u : ℕ) (s : Store) where
  delete_success :
      Distinct collection_key s.collections
      → OnSuccess (λ _ s'. Emptied id u s s') (delete db now id u s)
  unfolding delete
  delete_success d = lift_error_success _ (wrap "collection not found") _ _ s λ c f.
      let (m, ei, live) = collection_found db reliable id s c f in
      require_success _ (not c.is_default) (message "cannot delete default collection") _ s λ plain.
        lift_error_success _ (λ _. forbidden) _ _ s
          λ ou fo.
            let (mo, qo) =
              reliable.members.first_found _ s.members ou (map_error_ok translate _ fo) in
            require_success _ (is_admin ou) forbidden _ s λ admins.
              lift_error_success _ (λ _. message "default collection not found") _ _ s
                λ def fd.
                  let (md, qd) =
                    reliable.collections.first_found _ s.collections def
                      (map_error_ok translate _ fd) in
                  write_error_success _ (wrap "failed to move items to default collection") _ _ s
                    λ s1 h1.
                      commit_error_success _ (wrap "failed to delete collection") _ s1 λ s2 h2.
                        let (items, r1, e1) = map_result_ok _ _ s1 h1 in
                        let (rows, r2, e2) = map_result_ok _ _ s2 h2 in
                        let default =
                          and_left _ _
                            (and_right (def.organization_id == c.organization_id) _ qd) in
                        let left =
                          updates-Left now id def s s2
                            (apart_from_default c def id s.collections d m md ei plain default) md
                            (ap (λ z. z.collections) e2
                              ∙ reliable.collections.update_ok _ _ s1.collections rows r2
                              ∙ ap (λ z. map (marked now id) z.collections) e1)
                            (ap (λ z. z.items) e2
                              ∙ ap (λ z. z.items) e1
                              ∙ reliable.items.update_ok _ _ s.items items r1) in
                        (
                          c,
                          def,
                          ou,
                          m,
                          ei,
                          ground arith,
                          mo,
                          ==→eq _ _ (and_left _ _ qo),
                          ==→eq _ _ (and_right _ _ qo),
                          admins,
                          left.0,
                          ==→eq _ _ (and_left _ _ qd),
                          default,
                          and_right def.is_default _
                              (and_right (def.organization_id == c.organization_id) _ qd),
                          left.1,
                          left.2,
                          left.3,
                        )

-- A deletion of a collection that succeeds is made by an administrator of its organization, and is
-- not of the default collection. Afterwards no item that is not deleted lies in the collection:
-- they lie in the default collection of the organization, which is not deleted, and the collection
-- is. It is supposed that the collections have different numbers.
pub delete-Emptied :
    (db : Engines) (now id user_id : ℕ) (s s' : Store)
    → IsReliable db
    → Distinct collection_key s.collections
    → delete db now id user_id s ≡ (ok tt, s')
    → Emptied id user_id s s'
delete-Emptied db now id u s s' reliable d h =
    on_success (λ _. Emptied id u s) (delete db now id u s) tt s'
      (delete_success db reliable now id u s d) h
