-- ===== src/Membership.antt =====
-- Members of organizations: internal/domain/organization.go, internal/authz and
-- internal/service/organization_service.go.
pub mod Record
pub mod Tables
pub mod Service
pub mod Statements
pub mod Removal
pub mod Owners
pub mod Assignment
