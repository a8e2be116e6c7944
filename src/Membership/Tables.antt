-- ===== src/Membership/Tables.antt =====
-- The tables that the organization service changes: memberships
-- (internal/repository/gormrepo/organization_user.go), team memberships (team_user.go) and
-- collection memberships (collection_user.go). What a foreign key of the database cascades to is
-- left out.
use passwall_server.Base.{
  ℕ, Bool, List, M, Gorm, ◌==◌, ◌&&◌, Result, ok, err, query, map_error, translate, commit,
}
use passwall_server.Membership.Record.{OrganizationUser}

pub record TeamUser : Type 0 where
  pub id : ℕ
  pub team_id : ℕ
  pub organization_user_id : ℕ
  pub is_manager : Bool

pub record CollectionUser : Type 0 where
  pub id : ℕ
  pub collection_id : ℕ
  pub organization_user_id : ℕ
  pub can_read : Bool
  pub can_write : Bool
  pub can_admin : Bool
  pub hide_passwords : Bool

abbrev pub team_user_key : TeamUser → ℕ
team_user_key t = t.id

abbrev pub team_user_rekey : ℕ → TeamUser → TeamUser
team_user_rekey k t = record t { id = k }

abbrev pub collection_user_key : CollectionUser → ℕ
collection_user_key c = c.id

abbrev pub collection_user_rekey : ℕ → CollectionUser → CollectionUser
collection_user_rekey k c = record c { id = k }

pub record Store : Type 0 where
  pub members : List OrganizationUser
  pub team_users : List TeamUser
  pub collection_users : List CollectionUser

pub record Engines : Type 0 where
  pub members : Gorm OrganizationUser
  pub team_users : Gorm TeamUser
  pub collection_users : Gorm CollectionUser

-- The store with one of its tables replaced by what a statement gives.
unfoldable pub with_members : Store → Result (List OrganizationUser) → Result Store
with_members s (ok t) = ok (record s { members = t })
with_members s (err e) = err e

unfoldable pub with_team_users : Store → Result (List TeamUser) → Result Store
with_team_users s (ok t) = ok (record s { team_users = t })
with_team_users s (err e) = err e

unfoldable pub with_collection_users : Store → Result (List CollectionUser) → Result Store
with_collection_users s (ok t) = ok (record s { collection_users = t })
with_collection_users s (err e) = err e

module _ (db : Engines) where
  abbrev pub get_member : ℕ → M Store OrganizationUser
  get_member id = query λ s. map_error translate (db.members.first (λ x. x.id == id) s.members)

  abbrev pub get_by_org_and_user : ℕ → ℕ → M Store OrganizationUser
  get_by_org_and_user org_id user_id = query λ s.
      map_error translate
        (db.members.first (λ x. (x.organization_id == org_id) && (x.user_id == user_id)) s.members)

  abbrev pub update_member : OrganizationUser → M Store (Unit {0})
  update_member ou s = commit (with_members s (db.members.save ou s.members)) s

  abbrev pub delete_member : ℕ → M Store (Unit {0})
  delete_member id s = commit (with_members s (db.members.delete id s.members)) s

  abbrev pub list_team_users : ℕ → M Store (List TeamUser)
  list_team_users id =
      query λ s. db.team_users.find (λ x. x.organization_user_id == id) s.team_users

  abbrev pub delete_team_user : ℕ → M Store (Unit {0})
  delete_team_user id s = commit (with_team_users s (db.team_users.delete id s.team_users)) s

  abbrev pub list_collection_users : ℕ → M Store (List CollectionUser)
  list_collection_users id =
      query λ s. db.collection_users.find (λ x. x.organization_user_id == id) s.collection_users

  abbrev pub delete_collection_user : ℕ → M Store (Unit {0})
  delete_collection_user id s =
      commit (with_collection_users s (db.collection_users.delete id s.collection_users)) s
