-- ===== src/Ledger.antt =====
-- The financial ledger port and its adapters: packages/accounting/src/financial-ledger.ts and
-- packages/kernel/src/tigerbeetle.ts.
pub mod Port
pub mod Journal
pub mod Pairing
pub mod Memory
pub mod Tigerbeetle
