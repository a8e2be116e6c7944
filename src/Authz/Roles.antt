-- ===== src/Authz/Roles.antt =====
-- internal/authz/org_role_policy.go, and how its tests relate.
use passwall_server.Base.{Bool, true, ◌||◌, ◌≡◌, arith}
use passwall_server.Membership.Record.{
  OrganizationRole, eq_owner, eq_admin, eq_manager, eq_billing, OrganizationUser, is_admin,
  can_manage_users, can_manage_collections,
}

unfoldable pub can_view_billing : OrganizationRole → Bool
can_view_billing r = eq_owner r || eq_admin r || eq_manager r || eq_billing r

unfoldable pub can_manage_billing : OrganizationRole → Bool
can_manage_billing r = eq_owner r || eq_admin r || eq_billing r

unfoldable pub can_access_organization_settings : OrganizationRole → Bool
can_access_organization_settings r = eq_owner r || eq_admin r || eq_manager r

unfoldable pub can_view_management_overview : OrganizationRole → Bool
unfolding can_access_organization_settings
can_view_management_overview r = can_access_organization_settings r

unfoldable pub can_view_member_directory : OrganizationRole → Bool
can_view_member_directory r = eq_owner r || eq_admin r

unfoldable pub can_view_security_and_audit : OrganizationRole → Bool
can_view_security_and_audit r = eq_owner r || eq_admin r

unfoldable pub can_manage_policies : OrganizationRole → Bool
can_manage_policies r = eq_owner r || eq_admin r

unfoldable pub can_view_policies : OrganizationRole → Bool
can_view_policies r = eq_owner r || eq_admin r || eq_manager r

-- What a role may do, in one order.
abbrev pub Implies : Bool → Bool → Type 0
Implies a b = a ≡ true → b ≡ true

-- For every membership, also one with an unknown role: whoever may manage may view (billing and
-- policies); the administrators, the managers of users and the managers of collections of the
-- domain model are exactly those whom these tests let manage policies, view the members and view
-- the management overview.
pub role_tests_agree :
    (ou : OrganizationUser)
    → Implies (can_manage_billing ou.role) (can_view_billing ou.role)
      × Implies (can_manage_policies ou.role) (can_view_policies ou.role)
      × Implies (can_view_policies ou.role) (can_view_billing ou.role)
      × (is_admin ou ≡ can_manage_policies ou.role)
      × (can_manage_users ou ≡ can_view_member_directory ou.role)
      × (can_manage_collections ou ≡ can_view_management_overview ou.role)
unfolding can_view_billing can_manage_billing can_view_management_overview can_view_member_directory
    can_manage_policies can_view_policies is_admin can_manage_users can_manage_collections
role_tests_agree ou = ground arith
