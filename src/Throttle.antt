-- ===== src/Throttle.antt =====
-- What holds back repeated requests and repeated alerts: the rate limiter of the recovery pages
-- (src/auth/rateLimiter.ts) and the throttle of the alerts (src/alerting/notifier.ts). Times are
-- milliseconds; a window's start that would be negative is avoided by adding on the other side.
pub mod Limiter
pub mod Alerts
mod Examples
