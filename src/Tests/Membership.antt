-- ===== src/Tests/Membership.antt =====
-- An organization with an owner, an administrator and a member, on tables in memory.
use passwall_server.Base.{
  ℕ, none, some, true, false, [], ◌∷◌, memory, memory-IsGorm, first_row, upsert, keep, ok, after,
  require, lift, commit, map_outcome, ◌≡◌, refl, inl, Memᴰ, Distinct, arith,
}
use passwall_server.Membership.Record.{
  OrganizationRole, owner, admin, manager, member, OrganizationUser, confirmed, key, rekey,
  is_admin,
}
use passwall_server.Membership.Tables.{
  Store, Engines, team_user_key, team_user_rekey, collection_user_key, collection_user_rekey,
  with_members, with_team_users, with_collection_users,
}
use passwall_server.Membership.Service.{
  UpdateOrgUserRoleRequest, is_supported_org_role, update_member_role, remove_member,
  check_permission, delete_team_users, delete_collection_users,
}
use passwall_server.Membership.Statements.{IsReliable}
use passwall_server.Membership.Removal.{Removed, remove_member-Removed, remove_member_spares}
use passwall_server.Membership.Owners.{removes, serve, Steady, serve-Steady}
use passwall_server.Membership.Assignment.{Assigned, update_member_role-Assigned}

abbrev db : Engines
db = record {
  members = memory key rekey;
  team_users = memory team_user_key team_user_rekey;
  collection_users = memory collection_user_key collection_user_rekey;
}

db-IsReliable : IsReliable db
db-IsReliable = record {
  members = memory-IsGorm key rekey (λ k r. refl);
  team_users = memory-IsGorm team_user_key team_user_rekey (λ k r. refl);
  collection_users = memory-IsGorm collection_user_key collection_user_rekey (λ k r. refl);
}

abbrev person : ℕ → OrganizationRole → OrganizationUser
person id role = record {
  id = id;
  uuid = "m";
  organization_id = 1;
  user_id = id;
  role = role;
  encrypted_org_key = "k";
  access_all = false;
  permissions = "";
  status = confirmed;
  invited_at = none;
  accepted_at = none;
  external_id = none;
}

abbrev store : Store
store = record {
  members = person 1 owner ∷ person 2 admin ∷ person 3 member ∷ [];
  team_users =
      record { id = 5; team_id = 1; organization_user_id = 3; is_manager = false }
      ∷ record { id = 6; team_id = 1; organization_user_id = 2; is_manager = true }
      ∷ [];
  collection_users =
      record {
        id = 8;
        collection_id = 4;
        organization_user_id = 3;
        can_read = true;
        can_write = false;
        can_admin = false;
        hide_passwords = false;
      }
      ∷ [];
}

abbrev promotion : UpdateOrgUserRoleRequest
promotion = record { role = manager; access_all = some true }

store-Distinct : Distinct key store.members
store-Distinct = (
  ((λ e. absurd (omega (arith, e))), ((λ e. absurd (omega (arith, e))), tt)),
  (((λ e. absurd (omega (arith, e))), tt), (tt, tt)),
)

removal_done : remove_member db 1 3 2 store ≡ (ok tt, (remove_member db 1 3 2 store).1)
unfolding remove_member check_permission delete_team_users delete_collection_users after require
    lift commit map_outcome first_row keep is_admin with_members with_team_users
    with_collection_users
removal_done = refl

remove_member-Removed_example : Removed 1 3 2 store (remove_member db 1 3 2 store).1
remove_member-Removed_example =
    remove_member-Removed db db-IsReliable 1 3 2 store (remove_member db 1 3 2 store).1 removal_done

remove_member_spares_example : Memᴰ (person 1 owner) (remove_member db 1 1 2 store).1.members
remove_member_spares_example =
    remove_member_spares db db-IsReliable 1 1 2 store (person 1 owner) store-Distinct
      (Memᴰ.head refl) (inl refl)

serve-Steady_example : Steady store (serve db (removes 1 1 2) store)
serve-Steady_example = serve-Steady db db-IsReliable (removes 1 1 2) store store-Distinct

promotion_done :
    update_member_role db 1 3 2 promotion store
    ≡ (ok tt, (update_member_role db 1 3 2 promotion store).1)
unfolding update_member_role check_permission is_supported_org_role after require lift commit
    map_outcome first_row upsert is_admin with_members
promotion_done = refl

update_member_role-Assigned_example :
    Assigned 1 3 2 promotion store (update_member_role db 1 3 2 promotion store).1
update_member_role-Assigned_example =
    update_member_role-Assigned db db-IsReliable 1 3 2 promotion store
      (update_member_role db 1 3 2 promotion store).1 promotion_done
