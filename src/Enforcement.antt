-- ===== src/Enforcement.antt =====
-- What organization policies forbid: internal/service/policy_enforcement.go and
-- internal/service/policy_firewall.go.
pub mod Parsers
pub mod Gates
pub mod Refusal
pub mod Firewall
pub mod FirstMatch
pub mod Rules
