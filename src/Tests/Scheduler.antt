-- ===== src/Tests/Scheduler.antt =====
-- The schedulers and the executor at concrete inputs.
use mathlib.Core.List.{Perm}
use async_toolkit.Base.{
  count, count_all, ltb, replicate, ℕ, ◌+◌, ◌≤◌, ◌≡◌, refl, false, none, some, List, [], ◌∷◌, arith,
}
use async_toolkit.PriorityQueue.{IsTop, pop_top, select}
use async_toolkit.Scheduler.Stealing.{submits, pops, steals, submitted}
use async_toolkit.Scheduler.Stealing
use async_toolkit.Scheduler.Stealing.Conserve.{run_conserves}
use async_toolkit.Scheduler.Batch.{submit_batch, tasks_of, Below, submit_batch_all}
use async_toolkit.Scheduler.Priority.{Task, less, PriorityScheduler, cancel, take_ready}
use async_toolkit.Scheduler.Priority
use async_toolkit.Scheduler.Priority.Worker.{take_ready_lem}
use async_toolkit.Scheduler.Priority.Cancel.{without, ids, IsValid, cancel-without}
use async_toolkit.Executor.{ThreadPoolExecutor, queue_size}
use async_toolkit.Executor.Bounded.{run-bounded}
use async_toolkit.Executor.Bounded

abbrev one_task : List ℕ
one_task = 2 ∷ []

abbrev events : List Stealing.Event
events = submits 0 7 ∷ submits 0 8 ∷ steals 1 0 ∷ pops 0 ∷ pops 1 ∷ []

run_conserves_example :
    let s = Stealing.run (record { queues = replicate 2 []; taken = [] }) events in
    count 7 s.taken + count_all 7 s.queues ≡ count 7 (submitted 2 events)
run_conserves_example = run_conserves 2 events 7

abbrev batch : List ℕ
batch = 5 ∷ 6 ∷ 7 ∷ []

submit_batch_all_example :
    ((pushes : List (ℕ × ℕ)) × (submit_batch 2 1 batch ≡ some pushes)
      × (tasks_of pushes ≡ batch)
      × Below 2 pushes)
    × (submit_batch 0 1 batch ≡ none)
submit_batch_all_example = submit_batch_all 2 1 batch (omega arith)

-- A task that is due at 5, and one of higher priority that is due at 100.
abbrev soon : Task
soon = record { priority = 1; schedule_time = 5; task_id = 0 }

abbrev urgent : Task
urgent = record { priority = 2; schedule_time = 100; task_id = 1 }

abbrev pending : PriorityScheduler
pending = record { tasks = urgent ∷ soon ∷ []; next_task_id = 2; stop = false }

abbrev rest_pending : PriorityScheduler
rest_pending = record pending { tasks = soon ∷ [] }

take_ready_lem_example :
    Perm pending.tasks (urgent ∷ rest_pending.tasks)
    × (urgent.schedule_time ≤ 200)
    × IsTop less urgent rest_pending.tasks
unfolding take_ready Priority.less pop_top select
take_ready_lem_example = take_ready_lem 200 pending rest_pending urgent refl

cancel-without_example :
    ((cancel pending 1).0 ≡ ltb 0 (count 1 (ids pending.tasks)))
    × Perm (cancel pending 1).1.tasks (without 1 pending.tasks)
    × ((cancel pending 1).1.next_task_id ≡ pending.next_task_id)
cancel-without_example = cancel-without pending 1

pending-IsValid : IsValid pending
pending-IsValid = record { once = λ a. ground arith; given = λ a h. ground arith }

abbrev executor : ThreadPoolExecutor
executor = record {
  tasks = record { func = 4; priority = 1; schedule_time = 5 } ∷ [];
  max_queue_size = 2;
  stop = false;
}

abbrev executor_events : List Bounded.Event
executor_events =
    Bounded.submits 1 5
    ∷ Bounded.submits 2 6
    ∷ Bounded.works 9
    ∷ Bounded.schedules 10 5 7
    ∷ Bounded.shuts_down
    ∷ []

run-bounded_example :
    (queue_size (Bounded.run executor executor_events)
      ≤ (Bounded.run executor executor_events).max_queue_size)
    × ((Bounded.run executor executor_events).max_queue_size ≡ executor.max_queue_size)
run-bounded_example = run-bounded executor executor_events (omega arith)
