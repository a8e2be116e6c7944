-- ===== src/Tests/Collections.antt =====
-- A collection that a member administers by a team, shared with another member, and deleted by the
-- owner.
use passwall_server.Base.{
  none, some, true, false, [], ◌∷◌, ℕ, ok, memory, memory-IsGorm, ◌≡◌, refl, after, map_outcome,
  lift, require, commit, commit_value, into, first_row, keep, upsert, next_key, Distinct, arith,
}
use passwall_server.Membership.Record.{
  OrganizationUser, OrganizationRole, owner, member, confirmed, key, rekey, is_admin,
}
use passwall_server.Membership.Tables.{
  team_user_key, team_user_rekey, collection_user_key, collection_user_rekey,
}
use passwall_server.Organization.Tables.{
  team_key, team_rekey, collection_team_key, collection_team_rekey,
}
use passwall_server.Authz.Collections.{compute_collection_access, add_team_access, in_team, join}
use passwall_server.Collections.Record.{
  Collection, Store, Engines, IsReliable, collection_key, collection_rekey, item_key, item_rekey,
}
use passwall_server.Collections.Service.{
  GrantCollectionAccessRequest, access_of, check_collection_manage_permission, store_user_grant,
  grant_user_access, revoke_user_access,
}
use passwall_server.Collections.Folders.{delete}
use passwall_server.Collections.Granting.{
  GrantedBy, RevokedBy, grant_user_access-GrantedBy, revoke_user_access-RevokedBy,
}
use passwall_server.Collections.Deleting.{Emptied, delete-Emptied}

abbrev db : Engines
db = record {
  members = memory key rekey;
  team_users = memory team_user_key team_user_rekey;
  teams = memory team_key team_rekey;
  collections = memory collection_key collection_rekey;
  collection_users = memory collection_user_key collection_user_rekey;
  collection_teams = memory collection_team_key collection_team_rekey;
  items = memory item_key item_rekey;
}

db-IsReliable : IsReliable db
db-IsReliable = record {
  members = memory-IsGorm key rekey (λ k r. refl);
  team_users = memory-IsGorm team_user_key team_user_rekey (λ k r. refl);
  teams = memory-IsGorm team_key team_rekey (λ k r. refl);
  collections = memory-IsGorm collection_key collection_rekey (λ k r. refl);
  collection_users = memory-IsGorm collection_user_key collection_user_rekey (λ k r. refl);
  collection_teams = memory-IsGorm collection_team_key collection_team_rekey (λ k r. refl);
  items = memory-IsGorm item_key item_rekey (λ k r. refl);
}

abbrev person : ℕ → OrganizationRole → OrganizationUser
person id role = record {
  id = id;
  uuid = "m";
  organization_id = 1;
  user_id = id;
  role = role;
  encrypted_org_key = "k";
  access_all = false;
  permissions = "";
  status = confirmed;
  invited_at = none;
  accepted_at = none;
  external_id = none;
}

abbrev collection : ℕ → Collection
collection id = record {
  id = id;
  organization_id = 1;
  name = "C";
  description = "";
  is_default = false;
  is_private = false;
  deleted_at = none;
}

abbrev store : Store
store = record {
  members = person 1 owner ∷ person 2 member ∷ person 3 member ∷ [];
  team_users = record { id = 1; team_id = 5; organization_user_id = 2; is_manager = false } ∷ [];
  teams = [];
  collections = record (collection 1) { is_default = true } ∷ collection 4 ∷ [];
  collection_users = [];
  collection_teams =
      record {
        id = 1;
        collection_id = 4;
        team_id = 5;
        can_read = true;
        can_write = true;
        can_admin = true;
        hide_passwords = false;
      }
      ∷ [];
  items = record { id = 9; collection_id = some 4; deleted_at = none } ∷ [];
}

abbrev request : GrantCollectionAccessRequest
request = record { can_read = false; can_write = true; can_admin = false; hide_passwords = true }

-- The new grant reads, though the request says that it does not.
abbrev shared : Store
shared = record store {
  collection_users =
      record {
        id = 1;
        collection_id = 4;
        organization_user_id = 3;
        can_read = true;
        can_write = true;
        can_admin = false;
        hide_passwords = true;
      }
      ∷ [];
}

grants : grant_user_access db 4 3 2 request store ≡ (ok tt, shared)
unfolding grant_user_access store_user_grant check_collection_manage_permission access_of
    compute_collection_access add_team_access in_team join is_admin after map_outcome lift require
    commit commit_value into first_row keep upsert next_key
grants = refl

revokes : revoke_user_access db 4 3 2 shared ≡ (ok tt, store)
unfolding revoke_user_access check_collection_manage_permission access_of compute_collection_access
    add_team_access in_team join is_admin after map_outcome lift require commit commit_value into
    first_row keep upsert next_key
revokes = refl

abbrev emptied : Store
emptied = record store {
  collections =
      record (collection 1) { is_default = true }
      ∷ record (collection 4) { deleted_at = some 50 }
      ∷ [];
  items = record { id = 9; collection_id = some 1; deleted_at = none } ∷ [];
}

deletes : delete db 50 4 1 store ≡ (ok tt, emptied)
unfolding delete is_admin after map_outcome lift require commit commit_value into first_row keep
    upsert next_key
deletes = refl

different : Distinct collection_key store.collections
different = (((λ e. ground arith), tt), (tt, tt))

grant_user_access-GrantedBy_example : GrantedBy db 4 3 2 request store shared
grant_user_access-GrantedBy_example =
    grant_user_access-GrantedBy db 4 3 2 request store shared db-IsReliable grants

revoke_user_access-RevokedBy_example : RevokedBy db 4 3 2 shared store
revoke_user_access-RevokedBy_example =
    revoke_user_access-RevokedBy db 4 3 2 shared store db-IsReliable revokes

delete-Emptied_example : Emptied 4 1 store emptied
delete-Emptied_example = delete-Emptied db 50 4 1 store emptied db-IsReliable different deletes
