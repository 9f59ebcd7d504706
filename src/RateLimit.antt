-- ===== src/RateLimit.antt =====
-- The rate limiters: plugin/ratelimiter.
pub mod Float
pub mod Sliding
pub mod Token
pub mod Qps
pub mod Leaky
