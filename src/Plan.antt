-- ===== src/Plan.antt =====
-- Codes of plans and the tiers of policies (internal/domain/organization.go,
-- organization_policy.go).
pub mod Code
pub mod Families
