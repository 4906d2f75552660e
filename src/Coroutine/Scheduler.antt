-- ===== src/Coroutine/Scheduler.antt =====
-- `Scheduler` of include/async_toolkit/coroutine/scheduler.hpp. A task is a number, and its coroutine the
-- parameter `body`: how the n-th `resume` of the task ends. The task queue is first in, first out. A
-- worker's round is two steps, `start_next` up to the call of `resume` and `settle` after it, between
-- which other threads act.
use async_toolkit.Base.{
  count, if◌then◌else◌, ltb, remove, ◌==◌, ℕ, ◌+◌, Bool, true, false, List, [], ◌∷◌, ◌++◌,
}

pub data CoroutineState : Type 0 where
  ready : CoroutineState
  running : CoroutineState
  suspended : CoroutineState
  completed : CoroutineState
  cancelled : CoroutineState
  failed : CoroutineState

-- How `resume` ends: `is_done` holds after it, it does not, or an exception leaves it.
pub data Outcome : Type 0 where
  finishes : Outcome
  suspends : Outcome
  throws : Outcome

-- `resumed` logs the calls of `resume`, latest first; `in_resume` are those that have not returned.
pub record Scheduler : Type 0 where
  pub state : ℕ → CoroutineState
  pub priority : ℕ → ℕ
  pub cancellation_requested : ℕ → Bool
  pub task_queue : List ℕ
  pub in_resume : List ℕ
  pub resumed : List ℕ

abbrev pub set_state : Scheduler → ℕ → CoroutineState → Scheduler
set_state s task state = record s { state = λ t. if t == task then state else s.state t }

abbrev pub is_ready : CoroutineState → Bool
is_ready CoroutineState.ready = true
is_ready CoroutineState.running = false
is_ready CoroutineState.suspended = false
is_ready CoroutineState.completed = false
is_ready CoroutineState.cancelled = false
is_ready CoroutineState.failed = false

unfoldable pub submit : Scheduler → (task priority : ℕ) → Scheduler
submit s task priority =
    let s' = record s { priority = λ t. if t == task then priority else s.priority t } in
    record (set_state s' task CoroutineState.ready) { task_queue = s.task_queue ++ task ∷ [] }

unfoldable pub cancel : Scheduler → ℕ → Scheduler
cancel s task =
    let s' = record s {
      cancellation_requested = λ t. if t == task then true else s.cancellation_requested t;
    } in
    set_state s' task CoroutineState.cancelled

-- A task that is not ready leaves the queue and nothing else happens to it.
unfoldable pub start_next : Scheduler → Scheduler
start_next s = elim s.task_queue [
  | [] ↦ s
  | task ∷ rest ↦
      let s' = record s { task_queue = rest } in
      if is_ready (s.state task)
      then record (set_state s' task CoroutineState.running) {
        in_resume = task ∷ s.in_resume;
        resumed = task ∷ s.resumed;
      }
      else s'
]

abbrev pub settled : Scheduler → ℕ → Outcome → Scheduler
settled s task Outcome.finishes = set_state s task CoroutineState.completed
settled s task Outcome.suspends = record (set_state s task CoroutineState.suspended) {
  task_queue = s.task_queue ++ task ∷ [];
}
settled s task Outcome.throws = set_state s task CoroutineState.failed

unfoldable pub settle : (body : ℕ → ℕ → Outcome) → Scheduler → ℕ → Scheduler
settle body s task =
    if ltb 0 (count task s.in_resume)
    then settled (record s { in_resume = remove task s.in_resume }) task
        (body task (count task s.resumed))
    else s

pub data Event : Type 0 where
  submits : (task priority : ℕ) → Event
  cancels : (task : ℕ) → Event
  starts : Event
  settles : (task : ℕ) → Event

unfoldable pub step : (body : ℕ → ℕ → Outcome) → Scheduler → Event → Scheduler
unfolding submit cancel start_next settle
step body s (submits task priority) = submit s task priority
step body s (cancels task) = cancel s task
step body s starts = start_next s
step body s (settles task) = settle body s task

unfoldable pub run : (body : ℕ → ℕ → Outcome) → Scheduler → List Event → Scheduler
unfolding step
run body s [] = s
run body s (e ∷ es) = run body (step body s e) es

-- How often a history submits a task.
abbrev pub submissions : ℕ → List Event → ℕ
submissions t [] = 0
submissions t (submits task priority ∷ es) = (if task == t then 1 else 0) + submissions t es
submissions t (cancels task ∷ es) = submissions t es
submissions t (starts ∷ es) = submissions t es
submissions t (settles task ∷ es) = submissions t es
