-- ===== src/Collections/Reads.antt =====
-- The reads of the collection service (internal/service/collection_service.go) and of its
-- repository (internal/repository/gormrepo/collection.go).
use passwall_server.Base.{
  ℕ, Bool, false, Option, none, some, List, [], ◌∷◌, M, ◌==◌, ◌&&◌, ◌||◌, if◌then◌else◌, Result, ok,
  err, query, require, on_error, pure, wrap, forbidden, ◌>>=◌, ◌>>◌,
}
use passwall_server.Membership.Record.{OrganizationUser, is_admin}
use passwall_server.Membership.Tables.{TeamUser, CollectionUser}
use passwall_server.Organization.Tables.{CollectionTeam}
use passwall_server.Collections.Record.{
  Collection, Store, Engines, get_collection, find_by_org_and_user, is_live, lies_in, of_pair,
}
use passwall_server.Collections.Service.{check_collection_access}

-- A collection with its counts; a count that fails is left out.
pub record Counted : Type 0 where
  pub collection : Collection
  pub item_count : Option ℕ
  pub user_count : Option ℕ
  pub team_count : Option ℕ

abbrev pub counted : Result ℕ → Option ℕ
counted (ok n) = some n
counted (err e) = none

-- The number that `Scan` leaves: 0 where no row is found.
abbrev pub first_id : List OrganizationUser → ℕ
first_id [] = 0
first_id (ou ∷ ous) = ou.id

-- The two subqueries: a grant to the member, and a grant to a team of the member.
unfoldable pub has_user_grant : ℕ → ℕ → List CollectionUser → Bool
has_user_grant collection_id org_user_id [] = false
has_user_grant collection_id org_user_id (x ∷ xs) =
    of_pair collection_id org_user_id x || has_user_grant collection_id org_user_id xs

unfoldable pub is_team_of : ℕ → ℕ → List TeamUser → Bool
is_team_of team_id org_user_id [] = false
is_team_of team_id org_user_id (t ∷ ts) =
    ((t.team_id == team_id) && (t.organization_user_id == org_user_id))
    || is_team_of team_id org_user_id ts

unfoldable pub has_team_grant : ℕ → ℕ → List TeamUser → List CollectionTeam → Bool
has_team_grant collection_id org_user_id team_users [] = false
has_team_grant collection_id org_user_id team_users (x ∷ xs) =
    ((x.collection_id == collection_id) && is_team_of x.team_id org_user_id team_users)
    || has_team_grant collection_id org_user_id team_users xs

module _ (db : Engines) where
  abbrev pub get_item_count : ℕ → Store → Result ℕ
  get_item_count id s = db.items.count (lies_in id) s.items

  abbrev pub get_user_count : ℕ → Store → Result ℕ
  get_user_count id s = db.collection_users.count (λ x. x.collection_id == id) s.collection_users

  abbrev pub get_team_count : ℕ → Store → Result ℕ
  get_team_count id s = db.collection_teams.count (λ x. x.collection_id == id) s.collection_teams

  abbrev pub list_collections : ℕ → Store → Result (List Collection)
  list_collections org_id s =
      db.collections.find (λ c. (c.organization_id == org_id) && is_live c) s.collections

  abbrev pub find_granted : ℕ → Store → Result (List OrganizationUser) → Result (List Collection)
  find_granted org_id s (err e) = err e
  find_granted org_id s (ok ous) =
      db.collections.find
        (λ c.
          (c.organization_id == org_id)
          && (is_live c
              && (has_user_grant c.id (first_id ous) s.collection_users
                  || has_team_grant c.id (first_id ous) s.team_users s.collection_teams)))
        s.collections

  -- The query of the repository's ListForUser.
  unfoldable pub collections_for : ℕ → ℕ → Store → Result (List Collection)
  collections_for org_id user_id s =
      find_granted org_id s
        (db.members.find (λ x. (x.organization_id == org_id) && (x.user_id == user_id)) s.members)

  unfoldable pub get_by_id : ℕ → ℕ → M Store Counted
  get_by_id id user_id = do
    c ← on_error (wrap "collection not found") (query (get_collection db id))
    has_access ← check_collection_access db c.organization_id id user_id
    require has_access forbidden
    items ← query (λ s. ok (counted (get_item_count c.id s)))
    users ← query (λ s. ok (counted (get_user_count c.id s)))
    teams ← query (λ s. ok (counted (get_team_count c.id s)))
    pure (record { collection = c; item_count = items; user_count = users; team_count = teams })

  unfoldable pub list_for_user : ℕ → ℕ → M Store (List Collection)
  list_for_user org_id user_id = do
    ou ← on_error (λ _. forbidden) (query (find_by_org_and_user db org_id user_id))
    on_error (wrap "failed to list collections") (query (collections_for org_id user_id))

  unfoldable pub list_by_organization : ℕ → ℕ → M Store (List Collection)
  list_by_organization org_id user_id = do
    ou ← on_error (λ _. forbidden) (query (find_by_org_and_user db org_id user_id))
    if is_admin ou || ou.access_all
        then on_error (wrap "failed to list collections") (query (list_collections org_id))
        else list_for_user org_id user_id
