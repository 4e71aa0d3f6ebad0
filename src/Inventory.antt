-- ===== src/Inventory.antt =====
-- packages/inventory/src/service.ts: warehouses, items, stock, the reservations on it and its transfers.
pub mod Data
pub mod Service
pub mod Reserved
pub mod Register
pub mod Transfers
pub mod Corrections
