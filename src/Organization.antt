-- ===== src/Organization.antt =====
-- How members come to an organization: internal/service/organization_service.go.
pub mod Tables
pub mod Defaults
pub mod Invitations
pub mod DefaultTeam
pub mod Lookups
pub mod Origins
pub mod Acceptance
