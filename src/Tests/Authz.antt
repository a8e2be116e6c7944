-- ===== src/Tests/Authz.antt =====
-- Roles and collection grants of concrete members.
use passwall_server.Base.{
  ℕ, true, false, List, [], ◌∷◌, Option, none, some, Result, ok, ◌≡◌, ◌↔◌, ◌||◌, refl,
}
use passwall_server.Membership.Record.{
  OrganizationUser, manager, confirmed, is_admin, can_manage_users, can_manage_collections,
}
use passwall_server.Authz.Roles.{
  Implies, can_manage_billing, can_view_billing, can_manage_policies, can_view_policies,
  can_view_member_directory, can_view_management_overview, role_tests_agree,
}
use passwall_server.Authz.Collections.{
  CollectionAccess, CollectionTeam, Granted, has, writes, join, in_team, add_team_access,
  compute_collection_access,
}
use passwall_server.Authz.Grants.{direct_of, compute_collection_access-Granted}

abbrev manager_user : OrganizationUser
manager_user = record {
  id = 4;
  uuid = "m";
  organization_id = 1;
  user_id = 9;
  role = manager;
  encrypted_org_key = "k";
  access_all = false;
  permissions = "";
  status = confirmed;
  invited_at = none;
  accepted_at = none;
  external_id = none;
}

role_tests_agree_example :
    Implies (can_manage_billing manager) (can_view_billing manager)
    × Implies (can_manage_policies manager) (can_view_policies manager)
    × Implies (can_view_policies manager) (can_view_billing manager)
    × (is_admin manager_user ≡ can_manage_policies manager)
    × (can_manage_users manager_user ≡ can_view_member_directory manager)
    × (can_manage_collections manager_user ≡ can_view_management_overview manager)
role_tests_agree_example = role_tests_agree manager_user

abbrev write_access : CollectionAccess
write_access = record {
  can_read = true;
  can_write = true;
  can_admin = false;
  hide_passwords = true;
}

abbrev read_access : CollectionAccess
read_access = record {
  can_read = true;
  can_write = false;
  can_admin = false;
  hide_passwords = false;
}

abbrev direct : ℕ → ℕ → Result (Option CollectionAccess)
direct c u = ok (some read_access)

abbrev grants : List CollectionTeam
grants =
    record { team_id = 2; access = write_access }
    ∷ record { team_id = 3; access = read_access }
    ∷ []

abbrev answer : CollectionAccess
answer = record { can_read = true; can_write = true; can_admin = false; hide_passwords = true }

computed :
    compute_collection_access (some manager_user) 5 direct (λ c. ok grants) (λ u. ok (2 ∷ []))
    ≡ ok answer
unfolding compute_collection_access add_team_access in_team join is_admin
computed = refl

plain : (is_admin manager_user || manager_user.access_all) ≡ false
unfolding is_admin
plain = refl

compute_collection_access-Granted_example :
    (has writes answer ≡ true) ↔ Granted writes (direct_of (direct 5 4)) (2 ∷ []) grants
compute_collection_access-Granted_example =
    compute_collection_access-Granted manager_user 5 direct (λ c. ok grants) (λ u. ok (2 ∷ []))
      (2 ∷ []) grants answer writes plain refl refl computed
