-- ===== src/Accounting.antt =====
-- The double-entry ledger (src/domain/accounting.ts).
pub mod Vat
pub mod Journal
pub mod Ledger
pub mod Posting
mod Examples
