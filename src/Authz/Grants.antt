-- ===== src/Authz/Grants.antt =====
-- The access to a collection against the grants that it is computed from.
use passwall_server.Base.{
  ℕ, Option, none, some, true, false, ◌||◌, List, [], ◌∷◌, Result, ok, err, eq_not_found,
  if◌then◌else◌, ◌≡◌, refl, sym, ap, ◌∙◌, ◌⊎◌, inl, inr, ◌↔◌, Memᴰ, mem-cons, arith, Bool-cases,
  ok-injective, or_inl, or_inr, or_cases,
}
use passwall_server.Membership.Record.{OrganizationUser, is_admin}
use passwall_server.Authz.Collections.{
  CollectionAccess, CollectionTeam, Flag, has, Granted, join, in_team, add_team_access,
  compute_collection_access, has-join, in_team-mem, mem-in_team, no_access, with_teams, direct_part,
  reads, writes, administers, hides,
}

-- A flag that the loop's answer has comes from the start or from a grant to one of the teams.
abbrev TeamGrant : Flag → List ℕ → List CollectionTeam → Type 0
TeamGrant f us grants =
    (ta : CollectionTeam) × Memᴰ ta grants × Memᴰ ta.team_id us × (has f ta.access ≡ true)

added :
    (f : Flag) (us : List ℕ) (a : CollectionAccess) (grants : List CollectionTeam)
    → has f (add_team_access us a grants) ≡ true
    → (has f a ≡ true) ⊎ TeamGrant f us grants
unfolding add_team_access
added f us a [] h = inl h
added f us a (ta ∷ grants) h = elim (Bool-cases (in_team ta.team_id us)) [
  | inl e ↦ elim (added f us (join a ta.access) grants (rw e at h)) [
    | inl j ↦ elim (or_cases _ _ (sym (has-join f a ta.access) ∙ j)) [
      | inl x ↦ inl x
      | inr x ↦ inr (ta, Memᴰ.head refl, in_team-mem _ us e, x)
    ]
    | inr (g, m, r, x) ↦ inr (g, Memᴰ.tail m, r, x)
  ]
  | inr e ↦ elim (added f us a grants (rw e at h)) [
    | inl j ↦ inl j
    | inr (g, m, r, x) ↦ inr (g, Memᴰ.tail m, r, x)
  ]
]

keeps :
    (f : Flag) (us : List ℕ) (a : CollectionAccess) (grants : List CollectionTeam)
    → has f a ≡ true
    → has f (add_team_access us a grants) ≡ true
unfolding add_team_access
keeps f us a [] h = h
keeps f us a (ta ∷ grants) h = elim (Bool-cases (in_team ta.team_id us)) [
  | inl e ↦ rw e (keeps f us (join a ta.access) grants (has-join f a ta.access ∙ or_inl _ _ h))
  | inr e ↦ rw e (keeps f us a grants h)
]

gains :
    (f : Flag) (us : List ℕ) (a : CollectionAccess) (grants : List CollectionTeam)
    (ta : CollectionTeam)
    → Memᴰ ta grants
    → Memᴰ ta.team_id us
    → has f ta.access ≡ true
    → has f (add_team_access us a grants) ≡ true
unfolding add_team_access
gains f us a [] ta m n h = elim m [ ]
gains f us a (x ∷ grants) ta m n h = elim (mem-cons m) [
  | inl same ↦
      rw
        (ap (λ (y : CollectionTeam). in_team y.team_id us) (sym same) ∙ mem-in_team ta.team_id us n)
        (keeps f us (join a x.access) grants (
          has-join f a x.access
          ∙ or_inr (has f a) _ (ap (λ (y : CollectionTeam). has f y.access) (sym same) ∙ h)))
  | inr k ↦ gains f us (if in_team x.team_id us then join a x.access else a) grants ta k n h
]

-- The direct membership that counts: a missing one is none.
abbrev pub direct_of : Result (Option CollectionAccess) → Option CollectionAccess
direct_of (ok d) = d
direct_of (err e) = none

abbrev start : Option CollectionAccess → CollectionAccess
start none = no_access
start (some d) = join no_access d

start-has : (f : Flag) (d : CollectionAccess) → has f (join no_access d) ≡ has f d
unfolding join
start-has reads d = refl
start-has writes d = refl
start-has administers d = refl
start-has hides d = refl

none-has : (f : Flag) → has f no_access ≡ false
none-has reads = refl
none-has writes = refl
none-has administers = refl
none-has hides = refl

module _ (f : Flag) (us : List ℕ) (grants : List CollectionTeam) where
  folded :
      (o : Option CollectionAccess)
      → (has f (add_team_access us (start o) grants) ≡ true) ↔ Granted f o us grants
  folded none = (
    (λ h. elim (added f us no_access grants h) [ inl x ↦ cc (none-has f) | inr g ↦ inr g ]),
    (λ g. elim g [ inl (d, e, _) ↦ cc | inr (ta, m, n, h) ↦ gains f us no_access grants ta m n h ]),
  )
  folded (some d) = (
    (λ h. elim (added f us (join no_access d) grants h) [
      | inl x ↦ inl (d, refl, sym (start-has f d) ∙ x)
      | inr g ↦ inr g
    ]),
    (λ g. elim g [
      | inl (d', e, h) ↦ keeps f us (join no_access d) grants (start-has f d ∙ ground arith)
      | inr (ta, m, n, h) ↦ gains f us (join no_access d) grants ta m n h
    ]),
  )

add_no_team :
    (a : CollectionAccess) (grants : List CollectionTeam) → add_team_access [] a grants ≡ a
unfolding add_team_access in_team
add_no_team a [] = refl
add_no_team a (x ∷ grants) = add_no_team a grants

with_teams_lem :
    (us : List ℕ) (grants : List CollectionTeam) (a : CollectionAccess)
    → with_teams (ok grants) (ok us) a ≡ ok (add_team_access us a grants)
with_teams_lem [] grants a = ap ok (sym (add_no_team a grants))
with_teams_lem (u ∷ us) grants a = refl

direct_part_lem :
    (us : List ℕ) (grants : List CollectionTeam) (r : Result (Option CollectionAccess))
    (a : CollectionAccess)
    → direct_part (ok grants) (ok us) r ≡ ok a
    → a ≡ add_team_access us (start (direct_of r)) grants
direct_part_lem us grants (ok none) a h = ok-injective (sym h ∙ with_teams_lem us grants no_access)
direct_part_lem us grants (ok (some d)) a h =
    ok-injective (sym h ∙ with_teams_lem us grants (join no_access d))
direct_part_lem us grants (err e) a h = elim (Bool-cases (eq_not_found e)) [
  | inl t ↦ ok-injective (sym (rw t at h) ∙ with_teams_lem us grants no_access)
  | inr t ↦ cc (rw t at h)
]

-- For a member who is no administrator and has no access to all, a computed access has a flag
-- exactly if the direct membership or a grant to one of the member's teams has it.
pub compute_collection_access-Granted :
    (ou : OrganizationUser) (collection_id : ℕ) (direct : ℕ → ℕ → Result (Option CollectionAccess))
    (team_access : ℕ → Result (List CollectionTeam)) (team_users : ℕ → Result (List ℕ))
    (us : List ℕ) (grants : List CollectionTeam) (a : CollectionAccess) (f : Flag)
    → (is_admin ou || ou.access_all) ≡ false
    → team_users ou.id ≡ ok us
    → team_access collection_id ≡ ok grants
    → compute_collection_access (some ou) collection_id direct team_access team_users ≡ ok a
    → (has f a ≡ true) ↔ Granted f (direct_of (direct collection_id ou.id)) us grants
unfolding compute_collection_access
compute_collection_access-Granted ou c direct team_access team_users us grants a f plain eu eg h =
    rw (direct_part_lem us grants (direct c ou.id) a (rw (plain, eu, eg) at h))
      (folded f us grants (direct_of (direct c ou.id)))
