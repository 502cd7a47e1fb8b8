-- ===== src/Web.antt =====
-- The HTTP front (internal/web): who may pass, and how often.
pub mod LoginLimiter
pub mod RateLimiter
pub mod Sessions
