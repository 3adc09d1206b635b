-- ===== src/Ratelimit.antt =====
-- pkg/ratelimit: abuse protection.
pub mod Lockout
pub mod Limiter
pub mod Limits
