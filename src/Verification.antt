-- ===== src/Verification.antt =====
-- Verification of email addresses: internal/service/verification.go with its repositories.
pub mod Record
pub mod Service
pub mod Codes
pub mod Success
pub mod Confirmation
