-- ===== src/B2b.antt =====
-- The B2B module (src/domain/b2b): trading accounts, negotiated price lists and purchase orders.
pub mod Types
pub mod Status
pub mod Pricing
pub mod Rows
pub mod Store
mod Examples
