-- ===== src/Executor.antt =====
-- `ThreadPoolExecutor` of include/async_toolkit/executor/thread_pool_executor.hpp. The calls hold the
-- mutex. A priority is an `int` plus 2^31, a time a number of clock ticks; a task is known by a number in
-- place of its function. The pool's `allocate` answers with a pointer that the source pushes as a task;
-- modelled is the push of that task.
pub mod Bounded
use async_toolkit.Base.{
  if◌then◌else◌, leb, length, ltb, ◌==◌, ℕ, ◌+◌, ◌^◌, Bool, true, Option, none, some, List, ◌∷◌,
  arith,
}
use async_toolkit.PriorityQueue.{IsOrder, pop_top}

pub record Task : Type 0 where
  pub func : ℕ
  pub priority : ℕ
  pub schedule_time : ℕ

-- `Task::operator<`.
unfoldable pub less : Task → Task → Bool
less a b =
    if a.priority == b.priority
    then ltb b.schedule_time a.schedule_time
    else ltb a.priority b.priority

pub less-IsOrder : IsOrder less
unfolding less
less-IsOrder = record { asym = λ a b h. ground arith; trans = λ a b c h k. ground arith }

pub record ThreadPoolExecutor : Type 0 where
  pub tasks : List Task
  pub max_queue_size : ℕ
  pub stop : Bool

-- The default priority, 0 as an `int`.
abbrev pub default_priority : ℕ
default_priority = 2 ^ 31

-- The critical section of the three calls: `none` is the exception "Task queue is full".
unfoldable pub push_task : ThreadPoolExecutor → Task → Option ThreadPoolExecutor
push_task e task =
    if leb e.max_queue_size (length e.tasks)
    then none
    else some (record e { tasks = task ∷ e.tasks })

unfoldable pub submit : (now : ℕ) → ThreadPoolExecutor → ℕ → Option ThreadPoolExecutor
unfolding push_task
submit now e func =
    push_task e (record { func = func; priority = default_priority; schedule_time = now })

unfoldable pub submit_with_priority :
    (now : ℕ) → ThreadPoolExecutor → (priority func : ℕ) → Option ThreadPoolExecutor
unfolding push_task
submit_with_priority now e priority func =
    push_task e (record { func = func; priority = priority; schedule_time = now })

unfoldable pub schedule_after :
    (now : ℕ) → ThreadPoolExecutor → (delay func : ℕ) → Option ThreadPoolExecutor
unfolding push_task
schedule_after now e delay func =
    push_task e (record { func = func; priority = default_priority; schedule_time = now + delay })

-- The destructor's first block.
unfoldable pub shut_down : ThreadPoolExecutor → ThreadPoolExecutor
shut_down e = record e { stop = true }

abbrev pub queue_size : ThreadPoolExecutor → ℕ
queue_size e = length e.tasks

-- What a pass of `worker_loop` does: it waits, returns, finds the top not due, or takes the top.
pub data Pass : Type 0 where
  waits : Pass
  returns : Pass
  not_due : Pass
  takes : (task : Task) (rest : List Task) → Pass

unfoldable pub worker_pass : (now : ℕ) → ThreadPoolExecutor → Pass
worker_pass now e = elim (pop_top less e.tasks) [
  | none ↦ if e.stop then returns else waits
  | some (task, rest) ↦ if leb task.schedule_time now then takes task rest else not_due
]
