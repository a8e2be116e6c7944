-- ===== src/Send.antt =====
-- Secure sends: internal/service/send_service.go with its repository and record.
pub mod Record
pub mod Service
pub mod Rows
pub mod Conditions
pub mod Access
pub mod Limit
pub mod Sharing
pub mod Ownership
pub mod Retention
