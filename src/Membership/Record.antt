-- ===== src/Membership/Record.antt =====
-- The membership record and its role tests (internal/domain/organization.go).
use passwall_server.Base.{ℕ, Option, String, Bool, true, false, ◌||◌}

-- A role is a string: the five constants, or any other text that a column or a request holds.
pub data OrganizationRole : Type 0 where
  owner admin manager member billing : OrganizationRole
  other_role : String → OrganizationRole

pub data OrganizationUserStatus : Type 0 where
  invited accepted confirmed suspended provisioned : OrganizationUserStatus

-- The columns that gorm keeps by itself and the preloaded associations are left out.
pub record OrganizationUser : Type 0 where
  pub id : ℕ
  pub uuid : String
  pub organization_id : ℕ
  pub user_id : ℕ
  pub role : OrganizationRole
  pub encrypted_org_key : String
  pub access_all : Bool
  pub permissions : String
  pub status : OrganizationUserStatus
  pub invited_at : Option ℕ
  pub accepted_at : Option ℕ
  pub external_id : Option String

abbrev pub key : OrganizationUser → ℕ
key ou = ou.id

abbrev pub rekey : ℕ → OrganizationUser → OrganizationUser
rekey k ou = record ou { id = k }

abbrev pub eq_owner : OrganizationRole → Bool
eq_owner owner = true
eq_owner _ = false

abbrev pub eq_admin : OrganizationRole → Bool
eq_admin admin = true
eq_admin _ = false

abbrev pub eq_manager : OrganizationRole → Bool
eq_manager manager = true
eq_manager _ = false

abbrev pub eq_billing : OrganizationRole → Bool
eq_billing billing = true
eq_billing _ = false

abbrev pub eq_invited : OrganizationUserStatus → Bool
eq_invited invited = true
eq_invited _ = false

abbrev pub eq_provisioned : OrganizationUserStatus → Bool
eq_provisioned provisioned = true
eq_provisioned _ = false

unfoldable pub is_owner : OrganizationUser → Bool
is_owner ou = eq_owner ou.role

unfoldable pub is_admin : OrganizationUser → Bool
is_admin ou = eq_owner ou.role || eq_admin ou.role

unfoldable pub can_manage_users : OrganizationUser → Bool
can_manage_users ou = eq_owner ou.role || eq_admin ou.role

unfoldable pub can_manage_collections : OrganizationUser → Bool
can_manage_collections ou = eq_owner ou.role || eq_admin ou.role || eq_manager ou.role
