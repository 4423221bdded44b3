-- ===== src/Security.antt =====
-- backend/app/security: the rate limiter and the caller's address.
pub mod RateLimit
pub mod Window
pub mod Retry
pub mod Net
mod Tests
