-- ===== src/Executor/Bounded.antt =====
-- The bound on the queue of `ThreadPoolExecutor`, and what its workers take.
use mathlib.Core.List.{Perm}
use async_toolkit.Base.{
  Option-cases, ℕ, ◌≤◌, ◌≡◌, refl, ap, ◌∙◌, ◌↔◌, inl, inr, true, none, some, List, [], ◌∷◌, arith,
}
use async_toolkit.PriorityQueue.{
  pop_top, pop_top_lem, length-pop_top, pop_top-ne-none, pop_top-nil, IsTop,
}
use async_toolkit.Executor.{
  Task, less, less-IsOrder, ThreadPoolExecutor, push_task, submit, submit_with_priority,
  schedule_after, shut_down, queue_size, Pass, worker_pass,
}

-- The events that change the executor; the time is that of the event.
pub data Event : Type 0 where
  submits : (now func : ℕ) → Event
  submits_with_priority : (now priority func : ℕ) → Event
  schedules : (now delay func : ℕ) → Event
  works : (now : ℕ) → Event
  shuts_down : Event

abbrev after : ThreadPoolExecutor → Pass → ThreadPoolExecutor
after e (Pass.takes task rest) = record e { tasks = rest }
after e Pass.waits = e
after e Pass.returns = e
after e Pass.not_due = e

-- The executor after the event; a call that throws leaves it alone.
unfoldable pub step : ThreadPoolExecutor → Event → ThreadPoolExecutor
step e (submits now func) = elim (submit now e func) [ none ↦ e | some e' ↦ e' ]
step e (submits_with_priority now priority func) = elim (submit_with_priority now e priority func) [
  | none ↦ e
  | some e' ↦ e'
]
step e (schedules now delay func) = elim (schedule_after now e delay func) [
  | none ↦ e
  | some e' ↦ e'
]
step e (works now) = after e (worker_pass now e)
step e shuts_down = shut_down e

unfoldable pub run : ThreadPoolExecutor → List Event → ThreadPoolExecutor
unfolding step
run e [] = e
run e (v ∷ vs) = run (step e v) vs

push_task-bounded :
    (e e' : ThreadPoolExecutor) (task : Task)
    → push_task e task ≡ some e'
    → (queue_size e' ≤ e'.max_queue_size) × (e'.max_queue_size ≡ e.max_queue_size)
unfolding push_task
push_task-bounded e e' task h = ground arith

pub worker_pass_cases :
    (now : ℕ) (e : ThreadPoolExecutor) (task : Task) (rest : List Task)
    → worker_pass now e ≡ Pass.takes task rest
    → (pop_top less e.tasks ≡ some (task, rest)) × (task.schedule_time ≤ now)
unfolding worker_pass
worker_pass_cases now e task rest h = elim (Option-cases (pop_top less e.tasks)) [
  | inl f ↦ ground (arith, f)
  | inr ((top, others), f) ↦ ground (arith, f)
]

-- The task that a worker takes is due and was queued, no queued task comes before it, and exactly the
-- others stay; with tasks in the queue a worker never returns, and without any it returns exactly when
-- the executor is stopped.
pub worker_pass_lem :
    (now : ℕ) (e : ThreadPoolExecutor)
    → ((task : Task) (rest : List Task)
        → worker_pass now e ≡ Pass.takes task rest
        → Perm e.tasks (task ∷ rest) × (task.schedule_time ≤ now) × IsTop less task rest)
      × ((worker_pass now e ≡ Pass.returns) ↔ ((e.tasks ≡ []) × (e.stop ≡ true)))
unfolding worker_pass
worker_pass_lem now e = (
  λ task rest h.
      let (f, due) = worker_pass_cases now e task rest h in
      let (p, top) = pop_top_lem less less-IsOrder e.tasks f in (p, due, top),
  returns_iff,
)
  where
    empty_of : (ts : List Task) → pop_top less ts ≡ none → ts ≡ []
    empty_of [] f = refl
    empty_of (t ∷ ts) f = absurd (pop_top-ne-none less t ts f)

    returns_iff : (worker_pass now e ≡ Pass.returns) ↔ ((e.tasks ≡ []) × (e.stop ≡ true))
    returns_iff = elim (Option-cases (pop_top less e.tasks)) [
      | inl f ↦ (λ h. (empty_of e.tasks f, ground (arith, f)), λ h. ground (arith, f))
      | inr ((top, others), f) ↦
          (λ h. absurd (ground (arith, f)), λ h. absurd (pop_top-empty top others f h.0))
    ]
      where
        pop_top-empty :
            (top : Task) (others : List Task)
            → pop_top less e.tasks ≡ some (top, others)
            → e.tasks ≡ []
            → ⊥
        pop_top-empty top others f g = ground (arith, ap (pop_top less) g, pop_top-nil less)

after-bounded :
    (now : ℕ) (e : ThreadPoolExecutor) (p : Pass)
    → worker_pass now e ≡ p
    → queue_size e ≤ e.max_queue_size
    → (queue_size (after e p) ≤ (after e p).max_queue_size)
      × ((after e p).max_queue_size ≡ e.max_queue_size)
after-bounded now e (Pass.takes task rest) f h =
    let (popped, due) = worker_pass_cases now e task rest f in
    (omega (arith, length-pop_top less e.tasks popped), refl)
after-bounded now e Pass.waits f h = (h, refl)
after-bounded now e Pass.returns f h = (h, refl)
after-bounded now e Pass.not_due f h = (h, refl)

step-bounded :
    (e : ThreadPoolExecutor) (v : Event)
    → queue_size e ≤ e.max_queue_size
    → (queue_size (step e v) ≤ (step e v).max_queue_size)
      × ((step e v).max_queue_size ≡ e.max_queue_size)
unfolding step submit submit_with_priority schedule_after shut_down
step-bounded e (submits now func) h = elim (Option-cases (submit now e func)) [
  | inl f ↦ rw (f, step) (h, refl)
  | inr (e', f) ↦ rw (f, step) (push_task-bounded e e' _ f)
]
step-bounded e (submits_with_priority now priority func) h =
    elim (Option-cases (submit_with_priority now e priority func)) [
      | inl f ↦ rw (f, step) (h, refl)
      | inr (e', f) ↦ rw (f, step) (push_task-bounded e e' _ f)
    ]
step-bounded e (schedules now delay func) h =
    elim (Option-cases (schedule_after now e delay func)) [
      | inl f ↦ rw (f, step) (h, refl)
      | inr (e', f) ↦ rw (f, step) (push_task-bounded e e' _ f)
    ]
step-bounded e (works now) h = after-bounded now e (worker_pass now e) refl h
step-bounded e shuts_down h = (h, refl)

-- A queue within its bound stays within it, whatever calls and passes of workers follow, and the bound
-- stays the same.
pub run-bounded :
    (e : ThreadPoolExecutor) (vs : List Event)
    → queue_size e ≤ e.max_queue_size
    → (queue_size (run e vs) ≤ (run e vs).max_queue_size)
      × ((run e vs).max_queue_size ≡ e.max_queue_size)
unfolding run
run-bounded e [] h = (h, refl)
run-bounded e (v ∷ vs) h =
    let (bound, same) = step-bounded e v h in
    let (bound', same') = run-bounded (step e v) vs bound in (bound', same' ∙ same)
