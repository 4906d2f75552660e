-- ===== src/Scheduler/Priority/Worker.antt =====
-- What a worker of `PriorityScheduler` takes, and what keeps it from taking anything.
use mathlib.Core.List.{Perm, mem-cons, mem-cons_self}
use mathlib.Core.List.Perm
use mathlib.Core.Logic.Or
use mathlib.Core.Bool.{Bool-set}
use native.Mathlib.Bridge.{le_prop}
use async_toolkit.Base.{
  Bool-cases, Option-cases, leb, leb-false, leb→le, ℕ, ◌≤◌, ◌<◌, ◌≡◌, refl, sym, ◌∙◌, subst, inl,
  inr, false, Option, none, some, List, ◌∷◌, arith,
}
use async_toolkit.PriorityQueue.{pop_top, pop_top_lem, IsTop, All, All-mem}
use async_toolkit.Scheduler.Priority.{Task, less, less-IsOrder, PriorityScheduler, take_ready}

pub take_ready_cases :
    (now : ℕ) (s t : PriorityScheduler) (task : Task)
    → take_ready now s ≡ some (task, t)
    → (pop_top less s.tasks ≡ some (task, t.tasks))
      × (task.schedule_time ≤ now)
      × (t.next_task_id ≡ s.next_task_id)
      × (t.stop ≡ s.stop)
unfolding take_ready
take_ready_cases now s t task e = elim (Option-cases (pop_top less s.tasks)) [
  | inl f ↦ absurd (none_taken (rw (f, take_ready) at e))
  | inr ((u, rest), f) ↦ elim (Bool-cases (leb u.schedule_time now)) [
    | inl due ↦
        let g : ◌≡◌ {A = Option (Task × PriorityScheduler)} (some (u, record s { tasks = rest }))
            (some (task, t)) =
          rw (f, due, take_ready) at e in
        (f ∙ ground arith, ground (arith, leb→le _ _ due), ground arith, ground arith)
    | inr early ↦ absurd (none_taken (rw (f, early, take_ready) at e))
  ]
]
  where
    none_taken : ◌≡◌ {A = Option (Task × PriorityScheduler)} none (some (task, t)) → ⊥
    none_taken f = cc

-- The task that a worker takes was pending and is due, no pending task comes before it in the order of
-- the scheduler, and the others stay pending.
pub take_ready_lem :
    (now : ℕ) (s t : PriorityScheduler) (task : Task)
    → take_ready now s ≡ some (task, t)
    → Perm s.tasks (task ∷ t.tasks) × (task.schedule_time ≤ now) × IsTop less task t.tasks
take_ready_lem now s t task e =
    let (f, due, _, _) = take_ready_cases now s t task e in
    let (p, top) = pop_top_lem less less-IsOrder s.tasks f in (p, due, top)

module _ (now : ℕ) (first : Task) (others tasks : List Task) (p : Perm tasks (first ∷ others))
    (early : now < first.schedule_time)
    (above : All (λ u. u.priority < first.priority) others) where
  -- The top is the first task, so it is not due.
  first_late :
      (u : Task) (rest : List Task)
      → Perm tasks (u ∷ rest)
      → IsTop less u rest
      → now < u.schedule_time
  unfolding less
  first_late u rest q top =
      Or.elim le_prop (mem-cons.0 ((Perm.mem_iff q).0 ((Perm.mem_iff p).1 mem-cons_self)))
        (λ e. subst (λ v. now < v.schedule_time) e early)
        (λ m.
          let not_above = All-mem (λ a. Bool-set _ _) first rest top m in
          Or.elim le_prop (mem-cons.0 ((Perm.mem_iff p).0 ((Perm.mem_iff q).1 mem-cons_self)))
            (λ e. subst (λ v. now < v.schedule_time) (sym e) early)
            (λ k. absurd (lower u (All-mem (λ a. le_prop) u others above k) not_above)))
    where
      lower : (v : Task) → v.priority < first.priority → less v first ≡ false → ⊥
      lower v h e = ground arith

-- A worker takes nothing while a task that is not due has a higher priority than every other
-- pending task, whether or not those are due.
pub take_ready_blocked :
    (now : ℕ) (s : PriorityScheduler) (first : Task) (others : List Task)
    → Perm s.tasks (first ∷ others)
    → now < first.schedule_time
    → All (λ u. u.priority < first.priority) others
    → take_ready now s ≡ none
unfolding take_ready
take_ready_blocked now s first others p early above = elim (Option-cases (pop_top less s.tasks)) [
  | inl e ↦ rw (e, take_ready) refl
  | inr ((u, rest), e) ↦
      let (q, top) = pop_top_lem less less-IsOrder s.tasks e in
      rw
        (
          e,
          leb-false _ _ (first_late now first others s.tasks p early above u rest q top),
          take_ready,
        )
        refl
]
