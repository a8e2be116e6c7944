-- ===== src/Tests.antt =====
-- The theorems at concrete inputs.
mod Emergency
mod Policy
mod Plan
mod Authz
mod Subscription
mod Membership
mod FailedLogin
mod RateLimit
mod Kdf
mod Send
mod Enforcement
mod Verification
mod Organization
mod Permission
mod Collections
