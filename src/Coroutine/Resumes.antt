-- ===== src/Coroutine/Resumes.antt =====
-- How often the scheduler of coroutines resumes a task.
use async_toolkit.Base.{count, if◌then◌else◌, ℕ, ◌+◌}
use async_toolkit.Coroutine.Scheduler.{Scheduler, is_ready}

-- The resumptions so far, and one more for a task that is ready.
abbrev credit : ℕ → Scheduler → ℕ
credit t s = count t s.resumed + (if is_ready (s.state t) then 1 else 0)
