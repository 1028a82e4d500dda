-- ===== src/Limits.antt =====
-- The rate limiter of the admin login (internal/http).
pub mod Login
