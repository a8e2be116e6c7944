-- ===== src/Tests/Organization.antt =====
-- An organization with one owner who invites a user, and the user who accepts.
use passwall_server.Base.{
  none, some, true, false, [], ◌∷◌, memory, memory-IsGorm, ok, err, not_found, ◌≡◌, refl, after,
  map_outcome, lift, require, commit, commit_value, drop_error, into, first_row, keep, count_rows,
  upsert, next_key,
}
use passwall_server.Membership.Record.{
  OrganizationUser, owner, member, confirmed, key, rekey, is_admin, is_owner,
}
use passwall_server.Membership.Service.{is_supported_org_role, check_permission}
use passwall_server.Membership.Tables.{
  team_user_key, team_user_rekey, collection_user_key, collection_user_rekey, with_members,
}
use passwall_server.Organization.Tables.{
  Store, Engines, within, team_key, team_rekey, collection_key, collection_rekey,
  collection_team_key, collection_team_rekey,
}
use passwall_server.Organization.Defaults.{
  found_or, ensure_default_team, ensure_default_collection, ensure_default_collection_team_access,
  ensure_team_user, ensure_org_user_in_default_team,
}
use passwall_server.Organization.Invitations.{
  InviteUserToOrgRequest, Services, invitation, invite_user, accept_invitation, check_target,
  check_single_organization_policy, check_policies, enforced_elsewhere, get_max_users,
  ensure_defaults,
}
use passwall_server.Organization.Lookups.{IsReliable}
use passwall_server.Organization.Origins.{invites, serve, Traced, serve-Traced}
use passwall_server.Organization.Acceptance.{Joined, accept_invitation-Joined}

abbrev db : Engines
db = record {
  memberships = record {
    members = memory key rekey;
    team_users = memory team_user_key team_user_rekey;
    collection_users = memory collection_user_key collection_user_rekey;
  };
  teams = memory team_key team_rekey;
  collections = memory collection_key collection_rekey;
  collection_teams = memory collection_team_key collection_team_rekey;
}

db-IsReliable : IsReliable db
db-IsReliable = record {
  memberships = record {
    members = memory-IsGorm key rekey (λ k r. refl);
    team_users = memory-IsGorm team_user_key team_user_rekey (λ k r. refl);
    collection_users = memory-IsGorm collection_user_key collection_user_rekey (λ k r. refl);
  };
  teams = memory-IsGorm team_key team_rekey (λ k r. refl);
  collections = memory-IsGorm collection_key collection_rekey (λ k r. refl);
  collection_teams = memory-IsGorm collection_team_key collection_team_rekey (λ k r. refl);
}

abbrev ext : Services
ext = record {
  is_personal = λ o. ok false;
  user_by_email = λ e. ok 9;
  user_name = λ u. ok "Ada";
  subscription = λ o. ok (record { plan = some (some 5); seats_purchased = none });
  has_policies = true;
  single_organization_policy = λ o. err not_found;
  create_invitation = λ r u n. ok tt;
}

abbrev founder : OrganizationUser
founder = record {
  id = 1;
  uuid = "m";
  organization_id = 3;
  user_id = 7;
  role = owner;
  encrypted_org_key = "k";
  access_all = true;
  permissions = "";
  status = confirmed;
  invited_at = none;
  accepted_at = none;
  external_id = none;
}

abbrev asked : InviteUserToOrgRequest
asked = record { email = "b@c"; role = member; encrypted_org_key = "w"; access_all = false }

abbrev before : Store
before = record {
  memberships = record { members = founder ∷ []; team_users = []; collection_users = [] };
  teams = [];
  collections = [];
  collection_teams = [];
}

serve-Traced_example :
    Traced db ext (invites 50 "n" 3 7 asked) before (serve db ext (invites 50 "n" 3 7 asked) before)
serve-Traced_example = serve-Traced db ext (invites 50 "n" 3 7 asked) before db-IsReliable

invited_second :
    (invite_user db ext 50 "n" 3 7 asked before).0 ≡ ok (rekey 2 (invitation 50 "n" 3 9 asked))
unfolding invite_user is_supported_org_role within check_permission is_admin is_owner check_target
    check_single_organization_policy check_policies enforced_elsewhere get_max_users ensure_defaults
    ensure_org_user_in_default_team ensure_team_user ensure_default_team ensure_default_collection
    ensure_default_collection_team_access found_or after map_outcome lift require commit
    commit_value drop_error into first_row keep count_rows next_key
invited_second = refl

abbrev pending : Store
pending = record {
  memberships = record {
    members = founder ∷ rekey 2 (invitation 50 "n" 3 9 asked) ∷ [];
    team_users = [];
    collection_users = [];
  };
  teams = [];
  collections = [];
  collection_teams = [];
}

accepted_now :
    accept_invitation db ext 60 2 9 "own" pending
    ≡ (ok tt, (accept_invitation db ext 60 2 9 "own" pending).1)
unfolding accept_invitation within check_target check_single_organization_policy check_policies
    enforced_elsewhere with_members ensure_org_user_in_default_team ensure_team_user
    ensure_default_team found_or after map_outcome lift require commit commit_value into first_row
    keep next_key upsert
accepted_now = refl

accept_invitation-Joined_example :
    Joined 60 2 9 "own" pending (accept_invitation db ext 60 2 9 "own" pending).1
accept_invitation-Joined_example =
    accept_invitation-Joined db ext 60 2 9 "own" pending
      (accept_invitation db ext 60 2 9 "own" pending).1 db-IsReliable accepted_now
