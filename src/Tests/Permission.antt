-- ===== src/Tests/Permission.antt =====
-- A manager of an organization with an active subscription, and the same with an expired one.
use passwall_server.Base.{
  ℕ, Result, ok, err, not_found, ◌==◌, ◌&&◌, if◌then◌else◌, none, some, true, false, ◌≡◌, ◌↔◌, refl,
}
use passwall_server.Membership.Record.{OrganizationUser, owner, manager, confirmed}
use passwall_server.Subscription.Record.{
  SubscriptionState, Subscription, active, expired, can_write,
}
use passwall_server.Permission.Matrix.{
  can, permission_matrix, contains, is_write_permission, perm_item_create, perm_org_delete,
  perm_item_view, read_only_permissions, get_permissions,
}
use passwall_server.Permission.Service.{
  check_subscription_override, get_effective_role, can_in, get_user_permissions,
}
use passwall_server.Permission.ReadOnly.{
  Allowed, owner_may_all, get_user_permissions-Shown, Shown, write_may_iff,
}

abbrev person : OrganizationUser
person = record {
  id = 7;
  uuid = "m";
  organization_id = 1;
  user_id = 2;
  role = manager;
  encrypted_org_key = "k";
  access_all = false;
  permissions = "";
  status = confirmed;
  invited_at = none;
  accepted_at = none;
  external_id = none;
}

abbrev memberships : ℕ → ℕ → Result OrganizationUser
memberships user_id org_id = if (user_id == 2) && (org_id == 1) then ok person else err not_found

abbrev subscription : SubscriptionState → Subscription
subscription state = record {
  id = 1;
  uuid = "s";
  organization_id = 1;
  plan_id = 3;
  state = state;
  started_at = some 0;
  renew_at = some 40;
  cancel_at = none;
  ended_at = none;
  grace_period_ends_at = none;
  trial_ends_at = none;
  stripe_subscription_id = none;
  seats_purchased = none;
}

abbrev paid : ℕ → Result Subscription
paid org_id = ok (subscription active)

abbrev lapsed : ℕ → Result Subscription
lapsed org_id = ok (subscription expired)

may_create : can_in memberships paid 2 1 perm_item_create ≡ ok true
unfolding can_in get_effective_role check_subscription_override can_write can permission_matrix
    contains
may_create = refl

may_not_delete : can_in memberships paid 2 1 perm_org_delete ≡ ok false
unfolding can_in get_effective_role check_subscription_override can_write can permission_matrix
    contains
may_not_delete = refl

may_only_view : can_in memberships lapsed 2 1 perm_item_create ≡ ok false
unfolding can_in get_effective_role check_subscription_override can_write can permission_matrix
    contains
may_only_view = refl

may_view : can_in memberships lapsed 2 1 perm_item_view ≡ ok true
unfolding can_in get_effective_role check_subscription_override can_write can permission_matrix
    contains
may_view = refl

creating_writes : is_write_permission perm_item_create ≡ true
unfolding is_write_permission contains
creating_writes = refl

manager_may : can manager perm_item_create ≡ true
unfolding can permission_matrix contains
manager_may = refl

write_may_iff_example :
    (can_in memberships paid 2 1 perm_item_create ≡ ok true)
    ↔ Allowed perm_item_create (memberships 2 1) (paid 1)
write_may_iff_example = write_may_iff memberships paid 2 1 perm_item_create creating_writes

owner_may_all_example : can owner perm_item_create ≡ true
owner_may_all_example = owner_may_all manager perm_item_create manager_may

viewer_list : get_user_permissions memberships lapsed 2 1 ≡ ok read_only_permissions
unfolding get_user_permissions get_effective_role check_subscription_override can_write
    get_permissions permission_matrix
viewer_list = refl

get_user_permissions-Shown_example : Shown memberships lapsed 2 1 read_only_permissions
get_user_permissions-Shown_example =
    get_user_permissions-Shown memberships lapsed 2 1 read_only_permissions viewer_list
