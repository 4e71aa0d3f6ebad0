-- ===== src/Messaging.antt =====
-- packages/messaging/src/service.ts: the event outbox and the consumer receipts.
pub mod Events
pub mod Service
pub mod Append
pub mod Consume
pub mod Unique
