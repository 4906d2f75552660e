-- ===== src/Scheduler/Priority.antt =====
-- `Task` and `PriorityScheduler` of include/async_toolkit/scheduler/priority_scheduler.hpp. Calls hold the
-- mutex. A priority is an `int` plus 2^31, which keeps the order; a time is a number of clock ticks,
-- and the clock's answers are arguments. The function of a task is left out: it only runs.
pub mod Worker
pub mod Cancel
use mathlib.Core.List.Perm
use async_toolkit.Base.{
  if◌then◌else◌, leb, length, ltb, ◌==◌, ℕ, zero, suc, ◌+◌, ◌%◌, ◌^◌, Bool, true, false, ◌&&◌,
  Option, none, some, List, [], ◌∷◌, arith,
}
use async_toolkit.PriorityQueue.{IsOrder, pop_top}

pub record Task : Type 0 where
  pub priority : ℕ
  pub schedule_time : ℕ
  pub task_id : ℕ

-- `Task::operator<`: the lower priority, and of equal ones the later time, comes after.
unfoldable pub less : Task → Task → Bool
less a b =
    if a.priority == b.priority
    then ltb b.schedule_time a.schedule_time
    else ltb a.priority b.priority

pub less-IsOrder : IsOrder less
unfolding less
less-IsOrder = record { asym = λ a b h. ground arith; trans = λ a b c h k. ground arith }

pub record PriorityScheduler : Type 0 where
  pub tasks : List Task
  pub next_task_id : ℕ
  pub stop : Bool

unfoldable pub schedule_at : PriorityScheduler → ℕ → ℕ → ℕ × PriorityScheduler
schedule_at s time priority =
    let task : Task = record {
      priority = priority;
      schedule_time = time;
      task_id = s.next_task_id;
    } in
    (
      s.next_task_id,
      record s { tasks = task ∷ s.tasks; next_task_id = (s.next_task_id + 1) % 2 ^ 64 },
    )

unfoldable pub schedule : (now : ℕ) → PriorityScheduler → ℕ → ℕ × PriorityScheduler
unfolding schedule_at
schedule now s priority = schedule_at s now priority

unfoldable pub schedule_after : (now : ℕ) → PriorityScheduler → ℕ → ℕ → ℕ × PriorityScheduler
unfolding schedule_at
schedule_after now s delay priority = schedule_at s (now + delay) priority

-- The first loop of `cancel`: it empties the queue into `temp`, without the task. The fuel is the number
-- of tasks.
unfoldable pub drain : ℕ → ℕ → List Task → List Task → Bool → List Task × Bool
drain zero id tasks temp found = (temp, found)
drain (suc fuel) id tasks temp found = elim (pop_top less tasks) [
  | none ↦ (temp, found)
  | some (task, rest) ↦
      let hit = task.task_id == id in
      drain fuel id rest (if hit then temp else task ∷ temp) (if hit then true else found)
]

unfoldable pub cancel : PriorityScheduler → ℕ → Bool × PriorityScheduler
unfolding drain
cancel s id =
    let (kept, found) = drain (length s.tasks) id s.tasks [] false in
    (found, record s { tasks = kept })

-- One pass of `worker_loop` that gets past the wait: the task it takes, if any.
unfoldable pub take_ready : (now : ℕ) → PriorityScheduler → Option (Task × PriorityScheduler)
take_ready now s = elim (pop_top less s.tasks) [
  | none ↦ none
  | some (task, rest) ↦
      if leb task.schedule_time now then some (task, record s { tasks = rest }) else none
]

-- `stop_ && tasks_.empty()`: the worker returns.
unfoldable pub worker_returns : PriorityScheduler → Bool
worker_returns s = s.stop && (length s.tasks == 0)
