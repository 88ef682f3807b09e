-- ===== src/RateLimit.antt =====
-- backend/src/rate-limit: the rate limiter.
pub mod Window
pub mod Allowed
mod Tests
