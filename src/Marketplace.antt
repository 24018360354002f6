-- ===== src/Marketplace.antt =====
-- The marketplaces (src/integrations, src/imports): the contract that every adapter meets, and the
-- mappers that gather the lines of an order.
pub mod Types
pub mod Grouping
pub mod OneStatus
pub mod GsShop
pub mod Naver
mod Examples
