-- ===== src/Process.antt =====
-- packages/process: the queue of durable jobs.
pub mod Jobs
pub mod Queue
