-- ===== src/Tests.antt =====
-- Runs of the definitions at concrete inputs, and the properties at inputs that meet their conditions.
mod Amount
mod Ledger
mod Process
mod Tigerbeetle
mod Authorization
mod Messaging
mod Sales
mod Inventory
mod Accounting
mod Cutover
mod Readiness
mod Corrections
