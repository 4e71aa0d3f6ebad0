-- ===== src/Accounting.antt =====
-- packages/accounting/src/service.ts: the accounting service.
pub mod Evidence
pub mod Data
pub mod Cutover
pub mod Readiness
pub mod Setup
pub mod Journals
pub mod Revenue
pub mod Books
pub mod Periods
