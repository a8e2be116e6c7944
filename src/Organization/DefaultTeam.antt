-- ===== src/Organization/DefaultTeam.antt =====
-- The default team: it is found or made, memberships stay, and the member is in it.
use passwall_server.Base.{
  into_ok, ℕ, true, false, M, Result, ok, err, ◌≡◌, refl, sym, ap, subst, ◌∙◌, Memᴰ, inl, inr,
  is_not_found, map_error, map_error_ok, translate, into, commit_value, OnSuccess,
  call_known_success, success_map, call_step, commit_value_success, mem-append_last, and_left,
  and_right, ==→eq, Bool-cases,
}
use passwall_server.Membership.Tables.{TeamUser}
use passwall_server.Organization.Tables.{
  Team, Store, Engines, create_team, create_team_user, create_collection,
}
use passwall_server.Organization.Defaults.{
  default_team, default_collection, found_or, ensure_default_team, ensure_default_collection,
  ensure_default_collection_team_access, ensure_team_user, ensure_org_user_in_default_team,
}
use passwall_server.Organization.Lookups.{IsReliable}

abbrev pub SameMembers : Store → Store → Type 0
SameMembers s s' = s'.memberships.members ≡ s.memberships.members

found_or_step {κ} :
    {A : Type 0} (P : Store → Type κ) (r : Result A) (make : M Store A) (s : Store)
    → P s
    → P (make s).1
    → P (found_or r make s).1
unfolding found_or
found_or_step P (ok a) make s h k = h
found_or_step P (err e) make s h k = elim (Bool-cases (is_not_found e)) [
  | inl t ↦ rw t k
  | inr f ↦ rw f h
]

found_or_success {κ} :
    {A : Type 0} (Q : A → Store → Type κ) (r : Result A) (make : M Store A) (s : Store)
    → ((a : A) → r ≡ ok a → Q a s)
    → OnSuccess Q (make s)
    → OnSuccess Q (found_or r make s)
unfolding found_or
found_or_success Q (ok a) make s h k = h a refl
found_or_success Q (err e) make s h k = elim (Bool-cases (is_not_found e)) [
  | inl t ↦ rw t k
  | inr f ↦ rw f tt
]

-- Adding a row to a table that is not that of the members.
added-SameMembers :
    {A R : Type 0} (put : R → Store) (r : Result (A × R)) (s : Store)
    → ((x : R) → SameMembers s (put x))
    → SameMembers s (commit_value (into put r) s).1
unfolding commit_value into
added-SameMembers put (ok (a, x)) s h = h x
added-SameMembers put (err e) s h = refl

module _ (db : Engines) where
  pub ensure_default_team-SameMembers :
      (o : ℕ) (s : Store) → SameMembers s (ensure_default_team db o s).1
  unfolding ensure_default_team
  ensure_default_team-SameMembers o s =
      found_or_step (SameMembers s) _ (create_team db (default_team o)) s refl
        (added-SameMembers _ (db.teams.create (default_team o) s.teams) s λ x. refl)

  pub ensure_default_collection-SameMembers :
      (o : ℕ) (s : Store) → SameMembers s (ensure_default_collection db o s).1
  unfolding ensure_default_collection
  ensure_default_collection-SameMembers o s =
      found_or_step (SameMembers s) _ (create_collection db (default_collection o)) s refl (
        added-SameMembers _ (db.collections.create (default_collection o) s.collections) s
          λ x. refl)

  pub ensure_access-SameMembers :
      (c t : ℕ) (s : Store) → SameMembers s (ensure_default_collection_team_access db c t s).1
  unfolding ensure_default_collection_team_access
  ensure_access-SameMembers c t s =
      found_or_step (SameMembers s) _ _ s refl
        (added-SameMembers _ (db.collection_teams.create _ s.collection_teams) s λ x. refl)

  ensure_team_user-SameMembers : (t u : ℕ) (s : Store) → SameMembers s (ensure_team_user db t u s).1
  unfolding ensure_team_user
  ensure_team_user-SameMembers t u s = found_or_step (SameMembers s) _ _ s refl (
      added-SameMembers _ (db.memberships.team_users.create _ s.memberships.team_users) s λ x. refl)

  pub ensure_in_team-SameMembers :
      (o u : ℕ) (s : Store) → SameMembers s (ensure_org_user_in_default_team db o u s).1
  unfolding ensure_org_user_in_default_team
  ensure_in_team-SameMembers o u s =
      call_step (SameMembers s) (ensure_default_team db o s) _ (ensure_default_team-SameMembers o s)
        λ t h. ensure_team_user-SameMembers t.id u _ ∙ ensure_default_team-SameMembers o s

-- The member of the number is in the default team of the organization.
abbrev pub InDefaultTeam : ℕ → ℕ → Store → Type 0
InDefaultTeam o u s =
    (t : Team) × (tu : TeamUser) × Memᴰ t s.teams
    × (t.organization_id ≡ o)
    × (t.is_default ≡ true)
    × Memᴰ tu s.memberships.team_users
    × (tu.team_id ≡ t.id)
    × (tu.organization_user_id ≡ u)

module _ (db : Engines) (reliable : IsReliable db) where
  team_success :
      (o : ℕ) (s : Store)
      → OnSuccess
          (λ t s'. Memᴰ t s'.teams × (t.organization_id ≡ o) × (t.is_default ≡ true))
          (ensure_default_team db o s)
  unfolding ensure_default_team
  team_success o s =
      found_or_success _ (map_error translate (db.teams.first _ s.teams))
        (create_team db (default_team o)) s
        (λ t h.
          let (m, e) = reliable.teams.first_found _ s.teams t (map_error_ok translate _ h) in
          (m, ==→eq _ _ (and_left _ _ e), and_right _ _ e))
        (commit_value_success _
          (into (λ ts. record s { teams = ts }) (db.teams.create (default_team o) s.teams)) s
          λ t s' h.
            let (x, r, e) = into_ok _ _ t s' h in
            let (row, added, other) = reliable.teams.create_ok (default_team o) s.teams t x r in
            (
              subst (Memᴰ t) (sym (ap (λ z. z.teams) e ∙ added)) (mem-append_last t s.teams),
              ap (λ z. z.organization_id) row,
              ap (λ z. z.is_default) row,
            ))

  user_success :
      (t u : ℕ) (s : Store)
      → OnSuccess
          (λ tu s'.
            Memᴰ tu s'.memberships.team_users
            × (tu.team_id ≡ t)
            × (tu.organization_user_id ≡ u)
            × (s'.teams ≡ s.teams))
          (ensure_team_user db t u s)
  unfolding ensure_team_user
  user_success t u s =
      let fresh : TeamUser = record {
        id = 0;
        team_id = t;
        organization_user_id = u;
        is_manager = false;
      } in
      found_or_success _
        (map_error translate (db.memberships.team_users.first _ s.memberships.team_users))
        (create_team_user db fresh) s
        (λ tu h.
          let (m, e) =
            reliable.memberships.team_users.first_found _ s.memberships.team_users tu
              (map_error_ok translate _ h) in
          (m, ==→eq _ _ (and_left _ _ e), ==→eq _ _ (and_right _ _ e), refl))
        (commit_value_success _
          (into (λ ts. record s { memberships = record s.memberships { team_users = ts } })
            (db.memberships.team_users.create fresh s.memberships.team_users))
          s
          λ tu s' h.
            let (x, r, e) = into_ok _ _ tu s' h in
            let (row, added, other) =
              reliable.memberships.team_users.create_ok fresh s.memberships.team_users tu x r in
            (
              subst (Memᴰ tu) (sym (ap (λ z. z.memberships.team_users) e ∙ added))
                  (mem-append_last tu s.memberships.team_users),
              ap (λ z. z.team_id) row,
              ap (λ z. z.organization_user_id) row,
              ap (λ z. z.teams) e,
            ))

  -- Where the member is made part of the default team without an error, the organization has a
  -- default team, found or made, and the member is in it.
  pub ensure_in_team-InDefaultTeam :
      (o u : ℕ) (s : Store)
      → OnSuccess (λ tu s'. InDefaultTeam o u s') (ensure_org_user_in_default_team db o u s)
  unfolding ensure_org_user_in_default_team
  ensure_in_team-InDefaultTeam o u s =
      call_known_success _
        (λ t s1. Memᴰ t s1.teams × (t.organization_id ≡ o) × (t.is_default ≡ true))
        (ensure_default_team db o s) _ (team_success o s)
        λ t s1 k.
          success_map _ _ (ensure_team_user db t.id u s1)
            (λ tu s2 q. (t, tu, subst (Memᴰ t) (sym q.3) k.0, k.1, k.2, q.0, q.1, q.2))
            (user_success t.id u s1)
