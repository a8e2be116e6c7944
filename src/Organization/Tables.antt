-- ===== src/Organization/Tables.antt =====
-- The tables that invitations and provisioning change: those of Membership, and teams
-- (internal/repository/gormrepo/team.go), collections (collection.go) and the access of teams to
-- collections (collection_team.go). Columns that nothing here reads (identifiers for other systems,
-- drawn UUIDs, times) are left out.
use passwall_server.Base.{
  ℕ, Option, none, some, String, Bool, true, false, List, M, Gorm, ◌==◌, ◌&&◌, query, commit_value,
  into,
}
use passwall_server.Membership.Record.{
  OrganizationUser, OrganizationUserStatus, accepted, confirmed,
}
use passwall_server.Membership.Tables.{TeamUser}
use passwall_server.Membership.Tables

pub record Team : Type 0 where
  pub id : ℕ
  pub organization_id : ℕ
  pub name : String
  pub description : String
  pub is_default : Bool
  pub access_all_collections : Bool

pub record Collection : Type 0 where
  pub id : ℕ
  pub organization_id : ℕ
  pub name : String
  pub description : String
  pub is_default : Bool
  pub is_private : Bool
  pub deleted_at : Option ℕ

pub record CollectionTeam : Type 0 where
  pub id : ℕ
  pub collection_id : ℕ
  pub team_id : ℕ
  pub can_read : Bool
  pub can_write : Bool
  pub can_admin : Bool
  pub hide_passwords : Bool

abbrev pub team_key : Team → ℕ
team_key t = t.id

abbrev pub team_rekey : ℕ → Team → Team
team_rekey k t = record t { id = k }

-- `deleted_at IS NULL`.
abbrev pub not_deleted : Collection → Bool
not_deleted c = elim c.deleted_at [ none ↦ true | some t ↦ false ]

abbrev pub collection_key : Collection → ℕ
collection_key c = c.id

abbrev pub collection_rekey : ℕ → Collection → Collection
collection_rekey k c = record c { id = k }

abbrev pub collection_team_key : CollectionTeam → ℕ
collection_team_key c = c.id

abbrev pub collection_team_rekey : ℕ → CollectionTeam → CollectionTeam
collection_team_rekey k c = record c { id = k }

pub record Store : Type 0 where
  pub memberships : Tables.Store
  pub teams : List Team
  pub collections : List Collection
  pub collection_teams : List CollectionTeam

pub record Engines : Type 0 where
  pub memberships : Tables.Engines
  pub teams : Gorm Team
  pub collections : Gorm Collection
  pub collection_teams : Gorm CollectionTeam

-- Code on the tables of Membership.
unfoldable pub within : {A : Type 0} → M Tables.Store A → M Store A
within m s = ((m s.memberships).0, record s { memberships = (m s.memberships).1 })

abbrev pub is_active_membership : OrganizationUserStatus → Bool
is_active_membership accepted = true
is_active_membership confirmed = true
is_active_membership _ = false

module _ (db : Engines) where
  abbrev pub create_member : OrganizationUser → M Store OrganizationUser
  create_member ou s =
      commit_value
        (into (λ t. record s { memberships = record s.memberships { members = t } })
          (db.memberships.members.create ou s.memberships.members))
        s

  abbrev pub create_team_user : TeamUser → M Store TeamUser
  create_team_user t s =
      commit_value
        (into (λ ts. record s { memberships = record s.memberships { team_users = ts } })
          (db.memberships.team_users.create t s.memberships.team_users))
        s

  abbrev pub create_team : Team → M Store Team
  create_team t s =
      commit_value (into (λ ts. record s { teams = ts }) (db.teams.create t s.teams)) s

  abbrev pub create_collection : Collection → M Store Collection
  create_collection c s =
      commit_value
        (into (λ cs. record s { collections = cs }) (db.collections.create c s.collections)) s

  abbrev pub create_collection_team : CollectionTeam → M Store CollectionTeam
  create_collection_team c s =
      commit_value
        (into (λ cs. record s { collection_teams = cs })
          (db.collection_teams.create c s.collection_teams))
        s

  abbrev pub list_by_user : ℕ → M Store (List OrganizationUser)
  list_by_user user_id =
      query λ s. db.memberships.members.find (λ x. x.user_id == user_id) s.memberships.members

  -- Those who accepted or are confirmed.
  abbrev pub get_member_count : ℕ → M Store ℕ
  get_member_count org_id = query λ s.
      db.memberships.members.count
        (λ x. (x.organization_id == org_id) && is_active_membership x.status) s.memberships.members
