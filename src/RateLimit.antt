-- ===== src/RateLimit.antt =====
-- internal/ratelimit: the token bucket, and the limiter with one bucket per client and a global one.
pub mod Bucket
pub mod Limiter
