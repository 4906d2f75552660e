-- ===== src/Scheduler/Batch.antt =====
-- `WorkStealingScheduler::submit_batch` of
-- include/async_toolkit/scheduler/work_stealing_scheduler.hpp, as the sequence of its pushes: the index
-- of a queue and the task.
use native.Mathlib.Nat.{mod-lt}
use mathlib.Core.List.{append-nil, map-append}
use async_toolkit.Base.{
  ==-false, if◌then◌else◌, length, ◌==◌, ℕ, zero, suc, ◌+◌, ◌/◌, ◌%◌, ◌<◌, ◌≡◌, refl, sym, ap, ◌∙◌,
  Option, none, some, List, [], ◌∷◌, ◌++◌, map, arith,
}

module _ {ℓ} {T : Type ℓ} where
  -- The inner loop: `count` tasks at most go to queue `q`. What is left comes second.
  unfoldable pub fill : (count q : ℕ) → List T → List (ℕ × T) × List T
  fill zero q tasks = ([], tasks)
  fill (suc j) q [] = ([], [])
  fill (suc j) q (task ∷ tasks) = let (pushes, rest) = fill j q tasks in ((q, task) ∷ pushes, rest)

  -- The outer loop with `rounds` rounds left, of `queues` in all. The last round takes all that is left.
  unfoldable pub deal : (rounds queues per_queue q : ℕ) → List T → List (ℕ × T)
  deal zero queues per_queue q tasks = []
  deal (suc r) queues per_queue q [] = []
  deal (suc r) queues per_queue q (task ∷ tasks) =
      let (pushes, rest) =
        fill (if r == 0 then length (task ∷ tasks) else per_queue) q (task ∷ tasks) in
      pushes ++ deal r queues per_queue ((q + 1) % queues) rest

  -- `none` is the division by the number of queues when there is none.
  unfoldable pub submit_batch : (queues index : ℕ) → List T → Option (List (ℕ × T))
  unfolding deal
  submit_batch queues index tasks =
      if queues == 0 then none else some (deal queues queues (length tasks / queues) index tasks)

  abbrev pub tasks_of : List (ℕ × T) → List T
  tasks_of = map λ (q, task). task

  abbrev pub Below : ℕ → List (ℕ × T) → Type 0
  Below n [] = Unit
  Below n ((q, task) ∷ pushes) = (q < n) × Below n pushes

  Below-append : (n : ℕ) (xs ys : List (ℕ × T)) → Below n xs → Below n ys → Below n (xs ++ ys)
  Below-append n [] ys h k = k
  Below-append n ((q, task) ∷ xs) ys h k = (h.0, Below-append n xs ys h.1 k)

  fill-Below : (n j q : ℕ) (tasks : List T) → q < n → Below n (fill j q tasks).0
  unfolding fill
  fill-Below n zero q tasks h = tt
  fill-Below n (suc j) q [] h = tt
  fill-Below n (suc j) q (task ∷ tasks) h = (h, fill-Below n j q tasks h)

  fill-tasks :
      (j q : ℕ) (tasks : List T) → tasks_of (fill j q tasks).0 ++ (fill j q tasks).1 ≡ tasks
  unfolding fill
  fill-tasks zero q tasks = refl
  fill-tasks (suc j) q [] = refl
  fill-tasks (suc j) q (task ∷ tasks) = ap (◌∷◌ task) (fill-tasks j q tasks)

  fill_all : (q : ℕ) (tasks : List T) → (fill (length tasks) q tasks).1 ≡ []
  unfolding fill
  fill_all q [] = refl
  fill_all q (task ∷ tasks) = fill_all q tasks

  deal-Below : (n : ℕ) → 0 < n → (r k q : ℕ) (tasks : List T) → q < n → Below n (deal r n k q tasks)
  unfolding deal
  deal-Below n pos zero k q tasks h = tt
  deal-Below n pos (suc r) k q [] h = tt
  deal-Below n pos (suc r) k q (task ∷ tasks) h =
      Below-append n _ _ (fill-Below n _ q (task ∷ tasks) h)
        (deal-Below n pos r k ((q + 1) % n) _ (mod-lt _ pos))

  deal-tasks : (n r k q : ℕ) (tasks : List T) → tasks_of (deal (suc r) n k q tasks) ≡ tasks
  unfolding deal
  deal-tasks n r k q [] = refl
  deal-tasks n zero k q (task ∷ tasks) =
      rw (append-nil, ← append-nil (tasks_of (fill (length (task ∷ tasks)) q (task ∷ tasks)).0))
        (ap (◌++◌ _) (sym (fill_all q (task ∷ tasks))) ∙ fill-tasks _ q (task ∷ tasks))
  deal-tasks n (suc r) k q (task ∷ tasks) = rw (==-false (suc r) 0 (omega arith)) (
      map-append _ _ _
      ∙ ap (◌++◌ _) (deal-tasks n r k ((q + 1) % n) (fill k q (task ∷ tasks)).1)
      ∙ fill-tasks k q (task ∷ tasks))

  -- With at least one queue, a batch that starts at a queue of the scheduler is pushed whole, every task
  -- once and in the given order, and only to queues of the scheduler; with no queue the call divides by
  -- zero.
  pub submit_batch_all :
      (queues index : ℕ) (tasks : List T)
      → index < queues
      → ((pushes : List (ℕ × T)) × (submit_batch queues index tasks ≡ some pushes)
          × (tasks_of pushes ≡ tasks)
          × Below queues pushes)
        × (submit_batch 0 index tasks ≡ none)
  unfolding submit_batch
  submit_batch_all (suc n) index tasks h = (
    (
      deal (suc n) (suc n) (length tasks / suc n) index tasks,
      rw (==-false (suc n) 0 (omega arith)),
      deal-tasks (suc n) n (length tasks / suc n) index tasks,
      deal-Below (suc n) (omega arith) (suc n) (length tasks / suc n) index tasks h,
    ),
    refl,
  )
  submit_batch_all zero index tasks h = absurd (omega arith)
