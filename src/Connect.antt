-- ===== src/Connect.antt =====
-- The credentials of the marketplaces and the connecting of a seller (src/secrets and src/connect).
pub mod Sealing
pub mod Sellers
mod Examples
