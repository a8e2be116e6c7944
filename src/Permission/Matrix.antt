-- ===== src/Permission/Matrix.antt =====
-- The permissions, the matrix of roles, and its tests (internal/domain/permissions.go).
use passwall_server.Base.{
  String, Bool, true, false, Option, none, some, List, [], ◌∷◌, str_eq, if◌then◌else◌,
}
use passwall_server.Membership.Record.{
  OrganizationRole, owner, admin, manager, member, billing, other_role,
}

abbrev pub perm_org_view : String
perm_org_view = "org:view"

abbrev pub perm_org_update : String
perm_org_update = "org:update"

abbrev pub perm_org_delete : String
perm_org_delete = "org:delete"

abbrev pub perm_org_transfer_ownership : String
perm_org_transfer_ownership = "org:transfer_ownership"

abbrev pub perm_org_manage_settings : String
perm_org_manage_settings = "org:manage_settings"

abbrev pub perm_member_view : String
perm_member_view = "member:view"

abbrev pub perm_member_invite : String
perm_member_invite = "member:invite"

abbrev pub perm_member_remove : String
perm_member_remove = "member:remove"

abbrev pub perm_member_update_role : String
perm_member_update_role = "member:update_role"

abbrev pub perm_billing_view : String
perm_billing_view = "billing:view"

abbrev pub perm_billing_update : String
perm_billing_update = "billing:update"

abbrev pub perm_billing_cancel : String
perm_billing_cancel = "billing:cancel"

abbrev pub perm_billing_download_invoice : String
perm_billing_download_invoice = "billing:download_invoice"

abbrev pub perm_collection_create : String
perm_collection_create = "collection:create"

abbrev pub perm_collection_view : String
perm_collection_view = "collection:view"

abbrev pub perm_collection_update : String
perm_collection_update = "collection:update"

abbrev pub perm_collection_delete : String
perm_collection_delete = "collection:delete"

abbrev pub perm_item_create : String
perm_item_create = "item:create"

abbrev pub perm_item_view : String
perm_item_view = "item:view"

abbrev pub perm_item_update : String
perm_item_update = "item:update"

abbrev pub perm_item_delete : String
perm_item_delete = "item:delete"

abbrev pub perm_item_share : String
perm_item_share = "item:share"

abbrev pub perm_item_export : String
perm_item_export = "item:export"

abbrev pub perm_activity_view : String
perm_activity_view = "activity:view"

abbrev pub perm_activity_export : String
perm_activity_export = "activity:export"

abbrev pub perm_security_rotate_keys : String
perm_security_rotate_keys = "security:rotate_keys"

abbrev pub perm_security_revoke_sessions : String
perm_security_revoke_sessions = "security:revoke_sessions"

abbrev pub owner_permissions : List String
owner_permissions =
    perm_org_view ∷ perm_org_update ∷ perm_org_delete ∷ perm_org_transfer_ownership
    ∷ perm_org_manage_settings ∷ perm_member_view ∷ perm_member_invite ∷ perm_member_remove
    ∷ perm_member_update_role ∷ perm_billing_view ∷ perm_billing_update ∷ perm_billing_cancel
    ∷ perm_billing_download_invoice ∷ perm_collection_create ∷ perm_collection_view
    ∷ perm_collection_update ∷ perm_collection_delete ∷ perm_item_create ∷ perm_item_view
    ∷ perm_item_update ∷ perm_item_delete ∷ perm_item_share ∷ perm_item_export ∷ perm_activity_view
    ∷ perm_activity_export ∷ perm_security_rotate_keys ∷ perm_security_revoke_sessions ∷ []

abbrev pub admin_permissions : List String
admin_permissions =
    perm_org_view ∷ perm_org_update ∷ perm_member_view ∷ perm_member_invite ∷ perm_member_remove
    ∷ perm_collection_create ∷ perm_collection_view ∷ perm_collection_update
    ∷ perm_collection_delete ∷ perm_item_create ∷ perm_item_view ∷ perm_item_update
    ∷ perm_item_delete ∷ perm_item_share ∷ perm_item_export ∷ perm_activity_view
    ∷ perm_security_revoke_sessions ∷ []

abbrev pub manager_permissions : List String
manager_permissions =
    perm_org_view ∷ perm_member_view ∷ perm_collection_view ∷ perm_collection_update
    ∷ perm_item_create ∷ perm_item_view ∷ perm_item_update ∷ perm_item_delete ∷ perm_item_share ∷ []

abbrev pub member_permissions : List String
member_permissions =
    perm_collection_view ∷ perm_item_create ∷ perm_item_view ∷ perm_item_update ∷ perm_item_delete
    ∷ []

abbrev pub billing_permissions : List String
billing_permissions =
    perm_org_view ∷ perm_billing_view ∷ perm_billing_update ∷ perm_billing_download_invoice ∷ []

abbrev pub read_only_permissions : List String
read_only_permissions = perm_org_view ∷ perm_collection_view ∷ perm_item_view ∷ []

abbrev pub write_permissions : List String
write_permissions =
    perm_org_update ∷ perm_org_delete ∷ perm_org_transfer_ownership ∷ perm_org_manage_settings
    ∷ perm_member_invite ∷ perm_member_remove ∷ perm_member_update_role ∷ perm_billing_update
    ∷ perm_billing_cancel ∷ perm_collection_create ∷ perm_collection_update ∷ perm_collection_delete
    ∷ perm_item_create ∷ perm_item_update ∷ perm_item_delete ∷ perm_item_share
    ∷ perm_security_rotate_keys ∷ perm_security_revoke_sessions ∷ []

-- The role of an organization whose subscription does not allow writing.
abbrev pub read_only : OrganizationRole
read_only = other_role "read_only"

unfoldable pub permission_matrix : OrganizationRole → Option (List String)
permission_matrix owner = some owner_permissions
permission_matrix admin = some admin_permissions
permission_matrix manager = some manager_permissions
permission_matrix member = some member_permissions
permission_matrix billing = some billing_permissions
permission_matrix (other_role s) = if str_eq s "read_only" then some read_only_permissions else none

-- `for _, p := range perms { if p == permission { return true } }; return false`.
unfoldable pub contains : String → List String → Bool
contains permission [] = false
contains permission (p ∷ perms) =
    let rest = contains permission perms in if str_eq p permission then true else rest

abbrev pub contains_known : String → Option (List String) → Bool
contains_known permission none = false
contains_known permission (some perms) = contains permission perms

unfoldable pub can : OrganizationRole → String → Bool
can role permission = contains_known permission (permission_matrix role)

abbrev pub known_or_empty : Option (List String) → List String
known_or_empty none = []
known_or_empty (some perms) = perms

unfoldable pub get_permissions : OrganizationRole → List String
get_permissions role = known_or_empty (permission_matrix role)

unfoldable pub is_write_permission : String → Bool
is_write_permission permission = contains permission write_permissions
