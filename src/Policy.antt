-- ===== src/Policy.antt =====
-- Organization policies: internal/domain/organization_policy.go,
-- internal/service/organization_policy_service.go and internal/service/policy_enforcement.go, with
-- internal/repository/gormrepo/organization_policy.go.
pub mod Catalog
pub mod Record
pub mod Service
pub mod Dependencies
pub mod Updates
pub mod Soundness
