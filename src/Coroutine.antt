-- ===== src/Coroutine.antt =====
-- include/async_toolkit/coroutine/.
pub mod Scheduler
pub mod Resumes
pub mod TaskPool
