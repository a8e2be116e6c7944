-- ===== src/RateLimit.antt =====
-- The limit on requests: internal/handler/http/ratelimit.go.
pub mod Limiter
pub mod Visitors
pub mod Budget
