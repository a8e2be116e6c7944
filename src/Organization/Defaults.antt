-- ===== src/Organization/Defaults.antt =====
-- The default team and collection of an organization (ensureDefaultTeam and the three functions
-- after it in internal/service/organization_service.go).
use passwall_server.Base.{
  ℕ, none, String, true, false, M, Result, ok, err, ◌==◌, ◌&&◌, if◌then◌else◌, ◌>>=◌, map_error,
  translate, is_not_found,
}
use passwall_server.Membership.Tables.{TeamUser}
use passwall_server.Organization.Tables.{
  Team, Collection, CollectionTeam, not_deleted, Store, Engines, create_team_user, create_team,
  create_collection, create_collection_team,
}

abbrev pub default_team_name : String
default_team_name = "All Members"

abbrev pub default_team_desc : String
default_team_desc = "System default team (cannot be deleted)"

abbrev pub default_collection_name : String
default_collection_name = "General"

abbrev pub default_collection_desc : String
default_collection_desc = "System default collection (cannot be deleted)"

abbrev pub default_team : ℕ → Team
default_team org_id = record {
  id = 0;
  organization_id = org_id;
  name = default_team_name;
  description = default_team_desc;
  is_default = true;
  access_all_collections = false;
}

abbrev pub default_collection : ℕ → Collection
default_collection org_id = record {
  id = 0;
  organization_id = org_id;
  name = default_collection_name;
  description = default_collection_desc;
  is_default = true;
  is_private = false;
  deleted_at = none;
}

-- `if err == nil { return row }; if !errors.Is(err, ErrNotFound) { return err }; return create`.
unfoldable pub found_or : {A : Type 0} → Result A → M Store A → M Store A
found_or (ok a) make s = (ok a, s)
found_or (err e) make s = if is_not_found e then make s else (err e, s)

module _ (db : Engines) where
  unfoldable pub ensure_default_team : ℕ → M Store Team
  ensure_default_team org_id s =
      found_or
        (map_error translate
          (db.teams.first (λ t. (t.organization_id == org_id) && t.is_default) s.teams))
        (create_team db (default_team org_id)) s

  unfoldable pub ensure_default_collection : ℕ → M Store Collection
  ensure_default_collection org_id s =
      found_or
        (map_error translate (
          db.collections.first
            (λ c. (c.organization_id == org_id) && (c.is_default && not_deleted c)) s.collections))
        (create_collection db (default_collection org_id)) s

  unfoldable pub ensure_default_collection_team_access : ℕ → ℕ → M Store CollectionTeam
  ensure_default_collection_team_access collection_id team_id s =
      found_or
        (map_error translate (
          db.collection_teams.first
            (λ c. (c.collection_id == collection_id) && (c.team_id == team_id)) s.collection_teams))
        (create_collection_team db (record {
          id = 0;
          collection_id = collection_id;
          team_id = team_id;
          can_read = true;
          can_write = false;
          can_admin = false;
          hide_passwords = false;
        }))
        s

  unfoldable pub ensure_team_user : ℕ → ℕ → M Store TeamUser
  ensure_team_user team_id org_user_id s =
      found_or
        (map_error translate (
          db.memberships.team_users.first
            (λ t. (t.team_id == team_id) && (t.organization_user_id == org_user_id))
            s.memberships.team_users))
        (create_team_user db (record {
          id = 0;
          team_id = team_id;
          organization_user_id = org_user_id;
          is_manager = false;
        }))
        s

  unfoldable pub ensure_org_user_in_default_team : ℕ → ℕ → M Store TeamUser
  ensure_org_user_in_default_team org_id org_user_id = do
    team ← ensure_default_team org_id
    ensure_team_user team.id org_user_id
