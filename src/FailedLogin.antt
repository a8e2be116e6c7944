-- ===== src/FailedLogin.antt =====
-- The limit of failed logins: internal/service/policy_failed_login.go.
pub mod Tracker
pub mod Counting
