-- ===== src/Adapters.antt =====
-- The adapters of the marketplaces and their clients (src/integrations/naver, coupang and esm; the
-- mappers of Naver are in Marketplace).
pub mod Cursors
pub mod Sweep
pub mod Pull
pub mod Transport
pub mod Naver
pub mod Coupang
pub mod Esm
pub mod Http
pub mod Toys
