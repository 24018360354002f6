-- ===== src/Prisma.antt =====
-- The database client (Prisma over PostgreSQL), which the repository only calls: one table as an
-- interface, with the documented behaviour of the calls as laws. `K` is the unique key that a call
-- names in its `where`, and `R` is the rest of the row. What a table holds is read by `find`.
-- Prisma/Memory.antt has a table that meets the laws.
mod Defs
pub mod Memory
pub mod Laws
pub use Defs.*
pub use Laws.*
