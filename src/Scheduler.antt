-- ===== src/Scheduler.antt =====
-- The schedulers of include/async_toolkit/scheduler.
pub mod Stealing
pub mod Batch
pub mod Priority
