-- ===== src/Collections/Granting.antt =====
-- Who grants and revokes access to a collection, and what is stored.
use passwall_server.Base.{
  ℕ, true, false, map_error, List, Option, none, some, Result, ok-injective, ok, err, ◌==◌, ◌≡◌,
  refl, sym, ap, subst, ◌∙◌, ◌⊎◌, inl, inr, Memᴰ, OnSuccess, on_success, lift_error_success,
  lift_success, require_success, call_known_success, commit_error_success, into_ok, map_result_ok,
  map_error_ok, mem-append_last, upsert-mem_self, and_left, and_right, keep, not, success_map,
  translate, create_success, Error, wrap, message, forbidden, not_found, invalid_input,
  record_not_found, failure, ◌≢◌, ==→eq,
}
use passwall_server.Membership.Record.{OrganizationUser}
use passwall_server.Membership.Tables.{CollectionUser, collection_user_key}
use passwall_server.Authz.Collections.{CollectionAccess}
use passwall_server.Collections.Record.{
  Collection, Store, Engines, IsReliable, get_collection, is_live, of_pair,
}
use passwall_server.Collections.Service.{
  GrantCollectionAccessRequest, access_of, check_collection_manage_permission, store_user_grant,
  grant_user_access, revoke_user_access, changed_user, existing_grant,
}

-- A member of the collection's organization, for the user, whose access administers the collection.
abbrev pub Managed : Engines → Collection → ℕ → Store → Type 0
Managed db c user_id s =
    (ou : OrganizationUser) × (access : CollectionAccess) × Memᴰ ou s.members
    × (ou.organization_id ≡ c.organization_id)
    × (ou.user_id ≡ user_id)
    × (access_of db ou c.id s ≡ ok access)
    × (access.can_admin ≡ true)

-- A grant of the table before, for the two, whose row is changed: it reads as asked for.
abbrev pub Regranted :
    ℕ → ℕ → GrantCollectionAccessRequest → List CollectionUser → CollectionUser → Type 0
Regranted collection_id org_user_id req rows x =
    (y : CollectionUser) × Memᴰ y rows
    × (y.collection_id ≡ collection_id)
    × (y.organization_user_id ≡ org_user_id)
    × (x.id ≡ y.id)
    × (x.can_read ≡ req.can_read)

-- The table has no grant for the two, or the statement that looks for one fails.
abbrev pub NoneFound : Engines → ℕ → ℕ → List CollectionUser → Type 0
NoneFound db collection_id org_user_id rows =
    ((y : CollectionUser) → Memᴰ y rows → of_pair collection_id org_user_id y ≡ false)
    ⊎ ((e : Error) × (db.collection_users.first (of_pair collection_id org_user_id) rows ≡ err e)
        × (e ≢ record_not_found))

-- A new row, where none is found: it reads in any case.
abbrev pub Issued : Engines → ℕ → ℕ → List CollectionUser → CollectionUser → Type 0
Issued db collection_id org_user_id rows x =
    NoneFound db collection_id org_user_id rows
    × ((y : CollectionUser) → Memᴰ y rows → y.id ≢ x.id)
    × (x.can_read ≡ true)

-- A grant of the collection to the member in the table after, with the flags that were asked for.
abbrev pub Stored : Engines → ℕ → ℕ → GrantCollectionAccessRequest → Store → Store → Type 0
Stored db collection_id org_user_id req s s' =
    (x : CollectionUser) × Memᴰ x s'.collection_users
    × (x.collection_id ≡ collection_id)
    × (x.organization_user_id ≡ org_user_id)
    × (x.can_write ≡ req.can_write)
    × (x.can_admin ≡ req.can_admin)
    × (x.hide_passwords ≡ req.hide_passwords)
    × (Regranted collection_id org_user_id req s.collection_users x
        ⊎ Issued db collection_id org_user_id s.collection_users x)

-- A live collection that the user manages, and the grant to a member of its organization.
abbrev pub GrantedBy : Engines → ℕ → ℕ → ℕ → GrantCollectionAccessRequest → Store → Store → Type 0
GrantedBy db id org_user_id user_id req s s' =
    (c : Collection) × (target : OrganizationUser) × Memᴰ c s.collections
    × (c.id ≡ id)
    × (is_live c ≡ true)
    × Managed db c user_id s
    × Memᴰ target s.members
    × (target.id ≡ org_user_id)
    × (target.organization_id ≡ c.organization_id)
    × Stored db id org_user_id req s s'

abbrev pub put_users : List CollectionUser → Store → Store
put_users rows s = record s { collection_users = rows }

-- A live collection that the user manages, without its grants to the member.
abbrev pub RevokedBy : Engines → ℕ → ℕ → ℕ → Store → Store → Type 0
RevokedBy db id org_user_id user_id s s' =
    (c : Collection) × Memᴰ c s.collections
    × (c.id ≡ id)
    × (is_live c ≡ true)
    × Managed db c user_id s
    × (s'.collection_users ≡ keep (λ x. not (of_pair id org_user_id x)) s.collection_users)
    × (s' ≡ put_users s'.collection_users s)

module _ (db : Engines) (reliable : IsReliable db) where
  -- What the search for a grant tells, of the rows.
  none_found :
      (c o : ℕ) (s : Store) (e : Error)
      → db.collection_users.first (of_pair c o) s.collection_users ≡ err e
      → NoneFound db c o s.collection_users
  none_found c o s record_not_found h =
      inl (reliable.collection_users.first_missing (of_pair c o) s.collection_users h)
  none_found c o s not_found h = inr (not_found, h, λ q. cc)
  none_found c o s forbidden h = inr (forbidden, h, λ q. cc)
  none_found c o s invalid_input h = inr (invalid_input, h, λ q. cc)
  none_found c o s failure h = inr (failure, h, λ q. cc)
  none_found c o s (message m) h = inr (message m, h, λ q. cc)
  none_found c o s (wrap m e) h = inr (wrap m e, h, λ q. cc)

  Search : ℕ → ℕ → Store → Option CollectionUser → Type 0
  Search c o s none = NoneFound db c o s.collection_users
  Search c o s (some y) =
      Memᴰ y s.collection_users × (y.collection_id ≡ c) × (y.organization_user_id ≡ o)

  search_lem :
      (c o : ℕ) (s : Store) (r : Result CollectionUser)
      → db.collection_users.first (of_pair c o) s.collection_users ≡ r
      → Search c o s (existing_grant (map_error translate r))
  unfolding Search
  search_lem c o s (err e) h = none_found c o s e h
  search_lem c o s (ok x) h =
      let (m, q) = reliable.collection_users.first_found _ s.collection_users x h in
      (m, ==→eq _ _ (and_left _ _ q), ==→eq _ _ (and_right (x.collection_id == c) _ q))

  store_user_success :
      (c o : ℕ) (req : GrantCollectionAccessRequest) (s : Store) (x : Option CollectionUser)
      → Search c o s x
      → OnSuccess (λ _ s'. Stored db c o req s s') (store_user_grant db c o req x s)
  unfolding store_user_grant Search
  store_user_success c o req s (some x) (m, ec, eo) =
      commit_error_success _ (wrap "failed to update access") _ s λ s' h.
        let (rows, r, e) = map_result_ok _ _ s' h in
        (
          changed_user req x,
          subst (Memᴰ (changed_user req x))
              (sym (
                ap (λ z. z.collection_users) e
                ∙ reliable.collection_users.save_ok (changed_user req x) s.collection_users rows r))
              (upsert-mem_self collection_user_key (changed_user req x) s.collection_users),
          ec,
          eo,
          refl,
          refl,
          refl,
          inl (x, m, ec, eo, refl, refl),
        )
  store_user_success c o req s none f =
      create_success _ (wrap "failed to grant access") _ _ s λ y s' h.
        let (rows, r, e) = into_ok _ _ y s' h in
        let (row, added, other) =
          reliable.collection_users.create_ok _ s.collection_users y rows r in
        (
          y,
          subst (Memᴰ y) (sym (ap (λ z. z.collection_users) e ∙ added))
              (mem-append_last y s.collection_users),
          ap (λ z. z.collection_id) row,
          ap (λ z. z.organization_user_id) row,
          ap (λ z. z.can_write) row,
          ap (λ z. z.can_admin) row,
          ap (λ z. z.hide_passwords) row,
          inr (f, other, ap (λ z. z.can_read) row),
        )

  manage_success :
      (c : Collection) (o id u : ℕ) (s : Store)
      → c.organization_id ≡ o
      → c.id ≡ id
      → OnSuccess
          (λ b s'. (s' ≡ s) × (b ≡ true → Managed db c u s))
          (check_collection_manage_permission db o id u s)
  unfolding check_collection_manage_permission
  manage_success c o id u s eo ei =
      lift_error_success _ (λ _. forbidden) _ _ s
        λ ou f. lift_success _ _ _ s λ a h. (
          refl,
          λ t.
              let (m, q) =
                reliable.members.first_found _ s.members ou (map_error_ok translate _ f) in
              (
                ou,
                a,
                m,
                ==→eq _ _ (and_left _ _ q) ∙ sym eo,
                ==→eq _ _ (and_right _ _ q),
                ap (λ i. access_of db ou i s) ei ∙ h,
                t,
              ),
        )

  pub collection_found :
      (id : ℕ) (s : Store) (c : Collection)
      → get_collection db id s ≡ ok c
      → Memᴰ c s.collections × (c.id ≡ id) × (is_live c ≡ true)
  collection_found id s c h =
      let (m, q) =
        reliable.collections.first_found _ s.collections c (map_error_ok translate _ h) in
      (m, ==→eq _ _ (and_left _ _ q), and_right (c.id == id) _ q)

  grant_success :
      (id o u : ℕ) (req : GrantCollectionAccessRequest) (s : Store)
      → OnSuccess (λ _ s'. GrantedBy db id o u req s s') (grant_user_access db id o u req s)
  unfolding grant_user_access
  grant_success id o u req s = lift_error_success _ (wrap "collection not found") _ _ s λ c f.
      let (m, ei, live) = collection_found id s c f in
      call_known_success _ _ _ _ (manage_success c c.organization_id id u s refl ei) λ b s1 k.
        require_success _ b forbidden _ s1 λ t.
          lift_error_success _ (wrap "organization user not found") _ _ s1 λ target ft.
            require_success _ _ (message "user is not a member of this organization") _ s1 λ same.
              lift_success _ _ _ s1 λ x fx.
                success_map _ _ (store_user_grant db id o req x s1)
                  (λ _ s' st.
                    let (mt, qt) =
                      reliable.members.first_found _ s1.members target
                        (map_error_ok translate _ ft) in
                    (
                      c,
                      target,
                      m,
                      ei,
                      live,
                      k.1 t,
                      subst (λ z. Memᴰ target z.members) k.0 mt,
                      ==→eq _ _ qt,
                      ==→eq _ _ same,
                      subst (λ z. Stored db id o req z s') k.0 st,
                    ))
                  (store_user_success id o req s1 x
                    (subst (Search id o s1) (ok-injective fx) (search_lem id o s1 _ refl)))

  revoke_success :
      (id o u : ℕ) (s : Store)
      → OnSuccess (λ _ s'. RevokedBy db id o u s s') (revoke_user_access db id o u s)
  unfolding revoke_user_access
  revoke_success id o u s = lift_error_success _ (wrap "collection not found") _ _ s λ c f.
      let (m, ei, live) = collection_found id s c f in
      call_known_success _ _ _ _ (manage_success c c.organization_id id u s refl ei) λ b s1 k.
        require_success _ b forbidden _ s1 λ t.
          create_success _ (wrap "failed to revoke access") _ _ s1 λ n s' h.
            let (rows, r, e) = into_ok _ _ n s' h in
            let (number, left) =
              reliable.collection_users.delete_where_ok _ n s1.collection_users rows r in
            (
              c,
              m,
              ei,
              live,
              k.1 t,
              ap (λ z. z.collection_users) e
                  ∙ left
                  ∙ ap (λ z. keep (λ x. not (of_pair id o x)) z.collection_users) k.0,
              e
                  ∙ ap (put_users rows) k.0
                  ∙ ap (λ z. put_users z s) (sym (ap (λ z. z.collection_users) e)),
            )

-- A grant of access to a member that succeeds was made by somebody who administers the collection,
-- by the grants and the teams of before or as an administrator of its organization. The collection
-- is not deleted and the member is of its organization. The grant is stored for the two with the
-- flags of the request: where there was one, its row is changed and reads as asked for; a new row,
-- which reads in any case, comes in only where the table has no grant for the two or the search for
-- one fails.
pub grant_user_access-GrantedBy :
    (db : Engines) (id org_user_id user_id : ℕ) (req : GrantCollectionAccessRequest) (s s' : Store)
    → IsReliable db
    → grant_user_access db id org_user_id user_id req s ≡ (ok tt, s')
    → GrantedBy db id org_user_id user_id req s s'
grant_user_access-GrantedBy db id o u req s s' reliable h =
    on_success (λ _. GrantedBy db id o u req s) (grant_user_access db id o u req s) tt s'
      (grant_success db reliable id o u req s) h

-- A revocation that succeeds was made by somebody who administers the collection. It takes away
-- every grant of the collection to the member, and changes nothing else.
pub revoke_user_access-RevokedBy :
    (db : Engines) (id org_user_id user_id : ℕ) (s s' : Store)
    → IsReliable db
    → revoke_user_access db id org_user_id user_id s ≡ (ok tt, s')
    → RevokedBy db id org_user_id user_id s s'
revoke_user_access-RevokedBy db id o u s s' reliable h =
    on_success (λ _. RevokedBy db id o u s) (revoke_user_access db id o u s) tt s'
      (revoke_success db reliable id o u s) h
