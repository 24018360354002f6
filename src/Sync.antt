-- ===== src/Sync.antt =====
-- The poll loop over the marketplaces (src/sync/orderSyncEngine.ts).
pub mod Engine
pub mod Audit
pub mod Scheduler
pub mod Runs
mod Examples
