-- ===== src/Authorization.antt =====
-- packages/authorization/src/service.ts and capabilities.ts: tenant memberships and the capabilities
-- granted to them, as the in-memory service keeps them.
pub mod Capabilities
pub mod Service
pub mod Decision
pub mod Members
