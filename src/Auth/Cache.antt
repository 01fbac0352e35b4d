-- ===== src/Auth/Cache.antt =====
-- services/auth/cache: what the authentication service keeps in Redis.
pub mod RateLimiter
pub mod RefreshTokens
pub mod Blacklist
