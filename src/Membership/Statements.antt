-- ===== src/Membership/Statements.antt =====
-- What the statements on the three tables of the organization service do.
use passwall_server.Base.{
  ℕ, Bool, true, not, List, [], ◌∷◌, IsGorm, ◌==◌, ◌&&◌, Result, ok, err, map_error, translate, ◌≡◌,
  ◌≢◌, refl, ap, ◌∙◌, subst, inl, inr, Memᴰ, mem-cons, keep_sound, ==→eq, arith, map_error_ok,
  OnSuccess, success_map, lift_error_step, require-same, lift_error_success, require_success_end,
  write_error_success, write_error_step, and_left, and_right,
}
use passwall_server.Membership.Record.{OrganizationUser, key, rekey, is_admin}
use passwall_server.Membership.Tables.{
  TeamUser, CollectionUser, Store, Engines, with_members, with_team_users, with_collection_users,
  team_user_key, team_user_rekey, collection_user_key, collection_user_rekey,
}
use passwall_server.Membership.Service.{
  check_permission, delete_team_users, delete_collection_users,
}

-- The three engines behave as gorm is relied on to.
pub record IsReliable (db : Engines) : Type 0 where
  pub members : IsGorm key rekey db.members
  pub team_users : IsGorm team_user_key team_user_rekey db.team_users
  pub collection_users : IsGorm collection_user_key collection_user_rekey db.collection_users

pub with_members_ok :
    (s s' : Store) (r : Result (List OrganizationUser))
    → with_members s r ≡ ok s'
    → (t : List OrganizationUser) × (r ≡ ok t) × (s' ≡ record s { members = t })
unfolding with_members
with_members_ok s s' (ok t) h = (t, refl, cc)
with_members_ok s s' (err e) h = cc

with_team_users_ok :
    (s s' : Store) (r : Result (List TeamUser))
    → with_team_users s r ≡ ok s'
    → (t : List TeamUser) × (r ≡ ok t) × (s' ≡ record s { team_users = t })
unfolding with_team_users
with_team_users_ok s s' (ok t) h = (t, refl, cc)
with_team_users_ok s s' (err e) h = cc

with_collection_users_ok :
    (s s' : Store) (r : Result (List CollectionUser))
    → with_collection_users s r ≡ ok s'
    → (t : List CollectionUser) × (r ≡ ok t) × (s' ≡ record s { collection_users = t })
unfolding with_collection_users
with_collection_users_ok s s' (ok t) h = (t, refl, cc)
with_collection_users_ok s s' (err e) h = cc

-- An administrator of the organization among the members.
abbrev pub Administered : ℕ → ℕ → Store → Type 0
Administered o u s =
    (r : OrganizationUser) × Memᴰ r s.members
    × (r.organization_id ≡ o)
    × (r.user_id ≡ u)
    × (is_admin r ≡ true)

-- What is left where a loop ends well: rows of before that are none of the listed ones.
abbrev pub TeamsLeft : List TeamUser → Store → Store → Type 0
TeamsLeft ts s s' =
    (s'.members ≡ s.members)
    × (s'.collection_users ≡ s.collection_users)
    × ((t : TeamUser)
        → Memᴰ t s'.team_users
        → Memᴰ t s.team_users × ((y : TeamUser) → Memᴰ y ts → t.id ≢ y.id))

abbrev pub CollectionsLeft : List CollectionUser → Store → Store → Type 0
CollectionsLeft cs s s' =
    (s'.members ≡ s.members)
    × (s'.team_users ≡ s.team_users)
    × ((c : CollectionUser)
        → Memᴰ c s'.collection_users
        → Memᴰ c s.collection_users × ((y : CollectionUser) → Memᴰ y cs → c.id ≢ y.id))

apart : (a k : ℕ) → not (a == k) ≡ true → a ≢ k
apart a k h e = ground arith

module _ (db : Engines) (reliable : IsReliable db) where
  pub member_found :
      (id : ℕ) (s : Store) (ou : OrganizationUser)
      → map_error translate (db.members.first (λ x. x.id == id) s.members) ≡ ok ou
      → Memᴰ ou s.members × (ou.id ≡ id)
  member_found id s ou h =
      let (m, e) = reliable.members.first_found _ s.members ou (map_error_ok translate _ h) in
      (m, ==→eq _ _ e)

  pub membership_found :
      (o u : ℕ) (s : Store) (ou : OrganizationUser)
      → map_error translate
          (db.members.first (λ x. (x.organization_id == o) && (x.user_id == u)) s.members)
        ≡ ok ou
      → Memᴰ ou s.members × (ou.organization_id ≡ o) × (ou.user_id ≡ u)
  membership_found o u s ou h =
      let (m, e) = reliable.members.first_found _ s.members ou (map_error_ok translate _ h) in
      (m, ==→eq _ _ (and_left _ _ e), ==→eq _ _ (and_right _ _ e))

  pub check_permission-same : (o u : ℕ) (b : Bool) (s : Store) → (check_permission db o u b s).1 ≡ s
  unfolding check_permission
  check_permission-same o u b s =
      lift_error_step (λ x. x ≡ s) _ _ _ s refl λ ou _. require-same _ _ s

  pub check_permission-Administered :
      (o u : ℕ) (s : Store)
      → OnSuccess (λ _ s'. (s' ≡ s) × Administered o u s) (check_permission db o u true s)
  unfolding check_permission
  check_permission-Administered o u s =
      lift_error_success (λ _ s'. (s' ≡ s) × Administered o u s) _ _ _ s
        λ ou e.
          let (m, eo, eu) = membership_found o u s ou e in
          require_success_end (λ _ s'. (s' ≡ s) × Administered o u s) _ _ s
            λ t. (refl, (ou, m, eo, eu, sure (is_admin ou) t))
    where
      sure : (b : Bool) → not (true && not b) ≡ true → b ≡ true
      sure b h = ground arith

  -- The loops leave the memberships alone, whatever fails.
  pub delete_team_users-members :
      (ts : List TeamUser) (s : Store) → (delete_team_users db ts s).1.members ≡ s.members
  unfolding delete_team_users
  delete_team_users-members [] s = refl
  delete_team_users-members (t ∷ ts) s =
      write_error_step (λ x. x.members ≡ s.members) _ _ _ s refl
        λ s' h.
          let (rows, _, e) = with_team_users_ok s s' _ h in
          delete_team_users-members ts s' ∙ ap (λ (x : Store). x.members) e

  pub delete_collection_users-members :
      (cs : List CollectionUser) (s : Store)
      → (delete_collection_users db cs s).1.members ≡ s.members
  unfolding delete_collection_users
  delete_collection_users-members [] s = refl
  delete_collection_users-members (c ∷ cs) s =
      write_error_step (λ x. x.members ≡ s.members) _ _ _ s refl
        λ s' h.
          let (rows, _, e) = with_collection_users_ok s s' _ h in
          delete_collection_users-members cs s' ∙ ap (λ (x : Store). x.members) e

  pub delete_team_users-Left :
      (ts : List TeamUser) (s : Store)
      → OnSuccess (λ _ s'. TeamsLeft ts s s') (delete_team_users db ts s)
  unfolding delete_team_users
  delete_team_users-Left [] s = (refl, refl, λ t m. (m, λ y n. elim n [ ]))
  delete_team_users-Left (t ∷ ts) s =
      write_error_success (λ _ s'. TeamsLeft (t ∷ ts) s s') _ _ _ s
        λ s1 h.
          let (rows, er, e) = with_team_users_ok s s1 _ h in
          let gone = reliable.team_users.delete_ok t.id s.team_users rows er in
          success_map (λ _ s'. TeamsLeft ts s1 s') (λ _ s'. TeamsLeft (t ∷ ts) s s') _
            (λ _ s' (em, ec, left). (
              em ∙ ap (λ (x : Store). x.members) e,
              ec ∙ ap (λ (x : Store). x.collection_users) e,
              λ x m.
                  let (m1, others) = left x m in
                  let (m0, ne) =
                    keep_sound _ s.team_users x
                      (subst (λ r. Memᴰ x r) (ap (λ (z : Store). z.team_users) e ∙ gone) m1) in
                  (
                    m0,
                    λ y n. elim (mem-cons n) [
                      | inl same ↦ λ k. apart x.id t.id ne (k ∙ ap (λ (z : TeamUser). z.id) same)
                      | inr n' ↦ others y n'
                    ],
                  ),
            ))
            (delete_team_users-Left ts s1)

  pub delete_collection_users-Left :
      (cs : List CollectionUser) (s : Store)
      → OnSuccess (λ _ s'. CollectionsLeft cs s s') (delete_collection_users db cs s)
  unfolding delete_collection_users
  delete_collection_users-Left [] s = (refl, refl, λ t m. (m, λ y n. elim n [ ]))
  delete_collection_users-Left (c ∷ cs) s =
      write_error_success (λ _ s'. CollectionsLeft (c ∷ cs) s s') _ _ _ s
        λ s1 h.
          let (rows, er, e) = with_collection_users_ok s s1 _ h in
          let gone = reliable.collection_users.delete_ok c.id s.collection_users rows er in
          success_map (λ _ s'. CollectionsLeft cs s1 s') (λ _ s'. CollectionsLeft (c ∷ cs) s s') _
            (λ _ s' (em, et, left). (
              em ∙ ap (λ (x : Store). x.members) e,
              et ∙ ap (λ (x : Store). x.team_users) e,
              λ x m.
                  let (m1, others) = left x m in
                  let (m0, ne) =
                    keep_sound _ s.collection_users x (
                      subst (λ r. Memᴰ x r) (ap (λ (z : Store). z.collection_users) e ∙ gone) m1) in
                  (
                    m0,
                    λ y n. elim (mem-cons n) [
                      | inl same ↦
                          λ k. apart x.id c.id ne (k ∙ ap (λ (z : CollectionUser). z.id) same)
                      | inr n' ↦ others y n'
                    ],
                  ),
            ))
            (delete_collection_users-Left cs s1)
