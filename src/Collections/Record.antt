-- ===== src/Collections/Record.antt =====
-- The tables that the collection service reads and changes: memberships, team memberships, teams,
-- collections (internal/repository/gormrepo/collection.go), and the access of members
-- (collection_user.go) and of teams (collection_team.go). Columns that nothing here reads are left
-- out.
use passwall_server.Base.{
  ℕ, String, Bool, true, false, not, str_eq, holds, Option, none, some, List, M, Gorm, IsGorm, ◌==◌,
  ◌&&◌, Result, map_error, map_result, translate, commit, commit_value, into,
}
use passwall_server.Membership.Record.{OrganizationUser, key, rekey}
use passwall_server.Membership.Tables.{
  TeamUser, CollectionUser, team_user_key, team_user_rekey, collection_user_key,
  collection_user_rekey,
}
use passwall_server.Organization.Tables.{
  Team, CollectionTeam, team_key, team_rekey, collection_team_key, collection_team_rekey,
}

pub record Collection : Type 0 where
  pub id : ℕ
  pub organization_id : ℕ
  pub name : String
  pub description : String
  pub is_default : Bool
  pub is_private : Bool
  pub deleted_at : Option ℕ

-- An item of an organization, as far as collections go.
pub record OrganizationItem : Type 0 where
  pub id : ℕ
  pub collection_id : Option ℕ
  pub deleted_at : Option ℕ

abbrev pub item_key : OrganizationItem → ℕ
item_key i = i.id

abbrev pub item_rekey : ℕ → OrganizationItem → OrganizationItem
item_rekey k i = record i { id = k }

abbrev pub collection_key : Collection → ℕ
collection_key c = c.id

abbrev pub collection_rekey : ℕ → Collection → Collection
collection_rekey k c = record c { id = k }

-- `deleted_at IS NULL`.
abbrev pub is_null : Option ℕ → Bool
is_null none = true
is_null (some t) = false

abbrev pub is_live : Collection → Bool
is_live c = is_null c.deleted_at

abbrev pub lies_in : ℕ → OrganizationItem → Bool
lies_in collection_id i = holds i.collection_id collection_id && is_null i.deleted_at

pub record Store : Type 0 where
  pub members : List OrganizationUser
  pub team_users : List TeamUser
  pub teams : List Team
  pub collections : List Collection
  pub collection_users : List CollectionUser
  pub collection_teams : List CollectionTeam
  pub items : List OrganizationItem

pub record Engines : Type 0 where
  pub members : Gorm OrganizationUser
  pub team_users : Gorm TeamUser
  pub teams : Gorm Team
  pub collections : Gorm Collection
  pub collection_users : Gorm CollectionUser
  pub collection_teams : Gorm CollectionTeam
  pub items : Gorm OrganizationItem

-- The engines behave as gorm is relied on to.
pub record IsReliable (db : Engines) : Type 0 where
  pub members : IsGorm key rekey db.members
  pub team_users : IsGorm team_user_key team_user_rekey db.team_users
  pub teams : IsGorm team_key team_rekey db.teams
  pub collections : IsGorm collection_key collection_rekey db.collections
  pub collection_users : IsGorm collection_user_key collection_user_rekey db.collection_users
  pub collection_teams : IsGorm collection_team_key collection_team_rekey db.collection_teams
  pub items : IsGorm item_key item_rekey db.items

abbrev pub of_pair : ℕ → ℕ → CollectionUser → Bool
of_pair collection_id org_user_id x =
    (x.collection_id == collection_id) && (x.organization_user_id == org_user_id)

abbrev pub of_team : ℕ → ℕ → CollectionTeam → Bool
of_team collection_id team_id x = (x.collection_id == collection_id) && (x.team_id == team_id)

module _ (db : Engines) where
  abbrev pub get_collection : ℕ → Store → Result Collection
  get_collection id s =
      map_error translate (db.collections.first (λ c. (c.id == id) && is_live c) s.collections)

  abbrev pub get_by_name : ℕ → String → Store → Result Collection
  get_by_name org_id name s = map_error translate (
      db.collections.first (λ c. (c.organization_id == org_id) && (str_eq c.name name && is_live c))
        s.collections)

  abbrev pub get_default_by_organization : ℕ → Store → Result Collection
  get_default_by_organization org_id s = map_error translate (
      db.collections.first (λ c. (c.organization_id == org_id) && (c.is_default && is_live c))
        s.collections)

  abbrev pub get_collection_count : ℕ → Store → Result ℕ
  get_collection_count org_id s =
      db.collections.count (λ c. (c.organization_id == org_id) && (is_live c && not c.is_default))
        s.collections

  abbrev pub create_collection : Collection → M Store Collection
  create_collection c s =
      commit_value
        (into (λ t. record s { collections = t }) (db.collections.create c s.collections)) s

  abbrev pub update_collection : Collection → M Store (Unit {0})
  update_collection c s =
      commit (map_result (λ t. record s { collections = t }) (db.collections.save c s.collections))
        s

  abbrev pub soft_delete : ℕ → ℕ → M Store (Unit {0})
  soft_delete now id s =
      commit
        (map_result (λ t. record s { collections = t })
          (db.collections.update (λ c. c.id == id) (λ c. record c { deleted_at = some now })
            s.collections))
        s

  abbrev pub move_items_to_collection : ℕ → ℕ → M Store (Unit {0})
  move_items_to_collection from to s =
      commit
        (map_result (λ t. record s { items = t })
          (db.items.update (lies_in from) (λ i. record i { collection_id = some to }) s.items))
        s

  abbrev pub find_member : ℕ → Store → Result OrganizationUser
  find_member id s = map_error translate (db.members.first (λ x. x.id == id) s.members)

  abbrev pub find_by_org_and_user : ℕ → ℕ → Store → Result OrganizationUser
  find_by_org_and_user org_id user_id s =
      map_error translate
        (db.members.first (λ x. (x.organization_id == org_id) && (x.user_id == user_id)) s.members)

  abbrev pub get_team : ℕ → Store → Result Team
  get_team id s = map_error translate (db.teams.first (λ t. t.id == id) s.teams)

  abbrev pub get_user_grant : ℕ → ℕ → Store → Result CollectionUser
  get_user_grant collection_id org_user_id s =
      map_error translate
        (db.collection_users.first (of_pair collection_id org_user_id) s.collection_users)

  abbrev pub get_team_grant : ℕ → ℕ → Store → Result CollectionTeam
  get_team_grant collection_id team_id s =
      map_error translate
        (db.collection_teams.first (of_team collection_id team_id) s.collection_teams)

  abbrev pub list_collection_users : ℕ → Store → Result (List CollectionUser)
  list_collection_users id s =
      db.collection_users.find (λ x. x.collection_id == id) s.collection_users

  abbrev pub list_collection_teams : ℕ → Store → Result (List CollectionTeam)
  list_collection_teams id s =
      db.collection_teams.find (λ x. x.collection_id == id) s.collection_teams

  abbrev pub list_by_org_user : ℕ → Store → Result (List TeamUser)
  list_by_org_user id s = db.team_users.find (λ x. x.organization_user_id == id) s.team_users

  -- The column `can_read` has the default true: gorm stores a field that is false as its default.
  abbrev pub create_collection_user : CollectionUser → M Store CollectionUser
  create_collection_user x s =
      commit_value
        (into (λ t. record s { collection_users = t })
          (db.collection_users.create (record x { can_read = true }) s.collection_users))
        s

  abbrev pub update_collection_user : CollectionUser → M Store (Unit {0})
  update_collection_user x s =
      commit
        (map_result (λ t. record s { collection_users = t })
          (db.collection_users.save x s.collection_users))
        s

  abbrev pub create_collection_team : CollectionTeam → M Store CollectionTeam
  create_collection_team x s =
      commit_value
        (into (λ t. record s { collection_teams = t })
          (db.collection_teams.create (record x { can_read = true }) s.collection_teams))
        s

  abbrev pub update_collection_team : CollectionTeam → M Store (Unit {0})
  update_collection_team x s =
      commit
        (map_result (λ t. record s { collection_teams = t })
          (db.collection_teams.save x s.collection_teams))
        s

  abbrev pub delete_user_grant : ℕ → ℕ → M Store ℕ
  delete_user_grant collection_id org_user_id s =
      commit_value
        (into (λ t. record s { collection_users = t })
          (db.collection_users.delete_where (of_pair collection_id org_user_id) s.collection_users))
        s

  abbrev pub delete_team_grant : ℕ → ℕ → M Store ℕ
  delete_team_grant collection_id team_id s =
      commit_value
        (into (λ t. record s { collection_teams = t })
          (db.collection_teams.delete_where (of_team collection_id team_id) s.collection_teams))
        s
