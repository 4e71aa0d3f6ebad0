-- ===== src/Sales.antt =====
-- packages/sales/src/service.ts: customers, quotations and sales orders.
pub mod Orders
pub mod Service
pub mod Total
pub mod Lifecycle
pub mod Confirm
pub mod Oversized
pub mod Advance
