-- ===== src/Domain.antt =====
-- The unified orders and products (src/domain).
pub mod Status
pub mod Rows
pub mod Store
mod Examples
