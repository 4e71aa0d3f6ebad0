-- ===== src/Kernel.antt =====
-- packages/kernel: the shared building blocks of the domains.
pub mod Amount
