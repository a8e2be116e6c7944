-- ===== src/Authz/Collections.antt =====
-- internal/authz/collection_access.go. The three readers are arguments, as in the source. An access
-- is the four flags that a direct membership, a team's grant and the answer all have.
use passwall_server.Base.{
  ℕ, Option, none, some, Bool, true, false, ◌||◌, List, [], ◌∷◌, ◌==◌, Result, ok, err, wrap,
  forbidden, eq_not_found, if◌then◌else◌, ◌≡◌, refl, sym, ◌⊎◌, inl, inr, Memᴰ, mem-cons, arith,
  Bool-cases, ==→eq, eq→==, or_inl, or_inr,
}
use passwall_server.Membership.Record.{OrganizationUser, is_admin}

pub record CollectionAccess : Type 0 where
  pub can_read : Bool
  pub can_write : Bool
  pub can_admin : Bool
  pub hide_passwords : Bool

pub record CollectionTeam : Type 0 where
  pub team_id : ℕ
  pub access : CollectionAccess

abbrev pub no_access : CollectionAccess
no_access = record {
  can_read = false;
  can_write = false;
  can_admin = false;
  hide_passwords = false;
}

unfoldable pub join : CollectionAccess → CollectionAccess → CollectionAccess
join a b = record {
  can_read = a.can_read || b.can_read;
  can_write = a.can_write || b.can_write;
  can_admin = a.can_admin || b.can_admin;
  hide_passwords = a.hide_passwords || b.hide_passwords;
}

-- The set `teamIDs`, asked for one team. `team_users` holds the team of each team membership.
unfoldable pub in_team : ℕ → List ℕ → Bool
in_team t [] = false
in_team t (u ∷ team_users) = (u == t) || in_team t team_users

-- The loop over the grants to teams.
unfoldable pub add_team_access : List ℕ → CollectionAccess → List CollectionTeam → CollectionAccess
unfolding join in_team
add_team_access team_users result [] = result
add_team_access team_users result (ta ∷ grants) =
    add_team_access team_users
      (if in_team ta.team_id team_users then join result ta.access else result) grants

abbrev pub is_empty : List ℕ → Bool
is_empty [] = true
is_empty (x ∷ xs) = false

abbrev pub full_access : CollectionAccess
full_access = record { can_read = true; can_write = true; can_admin = true; hide_passwords = false }

abbrev team_part :
    Result (List CollectionTeam) → List ℕ → CollectionAccess → Result CollectionAccess
team_part (ok grants) team_users result = ok (add_team_access team_users result grants)
team_part (err e) team_users result = err (wrap "failed to load team collection access" e)

abbrev pub with_teams :
    Result (List CollectionTeam) → Result (List ℕ) → CollectionAccess → Result CollectionAccess
with_teams team_access (ok team_users) result =
    if is_empty team_users then ok result else team_part team_access team_users result
with_teams team_access (err e) result = err (wrap "failed to load team membership" e)

abbrev pub direct_part :
    Result (List CollectionTeam)
    → Result (List ℕ)
    → Result (Option CollectionAccess)
    → Result CollectionAccess
direct_part team_access team_users (ok (some direct)) =
    with_teams team_access team_users (join no_access direct)
direct_part team_access team_users (ok none) = with_teams team_access team_users no_access
direct_part team_access team_users (err e) =
    if eq_not_found e
    then with_teams team_access team_users no_access
    else err (wrap "failed to load direct collection access" e)

unfoldable pub compute_collection_access :
    Option OrganizationUser
    → ℕ
    → (ℕ → ℕ → Result (Option CollectionAccess))
    → (ℕ → Result (List CollectionTeam))
    → (ℕ → Result (List ℕ))
    → Result CollectionAccess
unfolding add_team_access is_admin
compute_collection_access none collection_id direct team_access team_users = err forbidden
compute_collection_access (some ou) collection_id direct team_access team_users =
    if is_admin ou || ou.access_all
    then ok full_access
    else direct_part (team_access collection_id) (team_users ou.id) (direct collection_id ou.id)

-- One of the four flags.
pub data Flag : Type 0 where
  reads writes administers hides : Flag

abbrev pub has : Flag → CollectionAccess → Bool
has reads a = a.can_read
has writes a = a.can_write
has administers a = a.can_admin
has hides a = a.hide_passwords

-- A flag is granted by the direct membership or by a grant to a team of the member.
abbrev pub Granted : Flag → Option CollectionAccess → List ℕ → List CollectionTeam → Type 0
Granted f direct team_users grants =
    ((d : CollectionAccess) × (direct ≡ some d) × (has f d ≡ true))
    ⊎ ((ta : CollectionTeam) × Memᴰ ta grants
        × Memᴰ ta.team_id team_users
        × (has f ta.access ≡ true))

pub has-join : (f : Flag) (a b : CollectionAccess) → has f (join a b) ≡ (has f a || has f b)
unfolding join
has-join reads a b = refl
has-join writes a b = refl
has-join administers a b = refl
has-join hides a b = refl

pub in_team-mem : (t : ℕ) (us : List ℕ) → in_team t us ≡ true → Memᴰ t us
unfolding in_team
in_team-mem t [] h = cc
in_team-mem t (u ∷ us) h = elim (Bool-cases (u == t)) [
  | inl e ↦ Memᴰ.head (sym (==→eq u t e))
  | inr e ↦ Memᴰ.tail (in_team-mem t us (ground arith))
]

pub mem-in_team : (t : ℕ) (us : List ℕ) → Memᴰ t us → in_team t us ≡ true
unfolding in_team
mem-in_team t [] m = elim m [ ]
mem-in_team t (u ∷ us) m = elim (mem-cons m) [
  | inl e ↦ or_inl _ _ (eq→== u t (sym e))
  | inr n ↦ or_inr (u == t) _ (mem-in_team t us n)
]
