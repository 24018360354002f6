-- ===== src/NorthStar.antt =====
-- The metrics (src/domain/northStar.ts).
pub mod Aging
pub mod Rates
pub mod Health
mod Examples
