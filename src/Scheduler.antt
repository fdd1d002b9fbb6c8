-- ===== src/Scheduler.antt =====
-- core-runtime/src/scheduler: the request queue and the batching of requests.
pub mod Priority
pub mod Queue
pub mod Batch
pub mod Continuous
pub mod Dedup
