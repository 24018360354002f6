-- ===== src/Auth.antt =====
-- Sessions, accounts and passwords (src/auth, but the rate limiter, which is in Throttle).
pub mod Session
pub mod Store
mod Examples
