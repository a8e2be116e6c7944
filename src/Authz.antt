-- ===== src/Authz.antt =====
-- Who may do what in an organization: internal/authz and internal/domain/permissions.go.
pub mod Roles
pub mod Collections
pub mod Grants
