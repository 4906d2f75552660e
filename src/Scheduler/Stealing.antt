-- ===== src/Scheduler/Stealing.antt =====
-- `WorkStealingQueue` and `WorkStealingScheduler` of
-- include/async_toolkit/scheduler/work_stealing_scheduler.hpp. Each call of a queue holds that queue's
-- mutex, so a run is a sequence of such calls. A task is a number; running it is an entry of a log.
pub mod Conserve
use mathlib.Core.Option
use mathlib.Core.Option.{get_or}
use async_toolkit.Base.{
  get_elem?, if◌then◌else◌, ltb, map-eq-some, map-ne-none_of, set, ◌==◌, ◌>>=◌, ℕ, ◌≡◌, refl, ap,
  ◌∙◌, ◌≢◌, ◌↔◌, Option, none, some, List, [], ◌∷◌, ◌++◌, map, arith,
}

-- The deque, front first.
module _ {ℓ} {T : Type ℓ} where
  unfoldable pub push : T → List T → List T
  push task tasks = tasks ++ task ∷ []

  unfoldable pub try_pop : List T → Option (T × List T)
  try_pop [] = none
  try_pop (task ∷ []) = some (task, [])
  try_pop (task ∷ next ∷ tasks) =
      Option.map (λ (last, rest). (last, task ∷ rest)) (try_pop (next ∷ tasks))

  unfoldable pub try_steal : List T → Option (T × List T)
  try_steal [] = none
  try_steal (task ∷ tasks) = some (task, tasks)

  -- The owner takes back what it pushed last, and a thief what was pushed first.
  try_pop-snoc : (xs : List T) (x : T) → try_pop (xs ++ x ∷ []) ≡ some (x, xs)
  unfolding try_pop
  try_pop-snoc [] x = refl
  try_pop-snoc (y ∷ []) x = refl
  try_pop-snoc (y ∷ z ∷ xs) x = rw (try_pop-snoc (z ∷ xs) x)

  nonempty : {y : T} {xs : List T} → y ∷ xs ≢ []
  nonempty e = cc

  try_pop_empty : (xs : List T) → (try_pop xs ≡ none) ↔ (xs ≡ [])
  unfolding try_pop
  try_pop_empty [] = (λ e. refl, λ e. refl)
  try_pop_empty (x ∷ []) = (λ e. cc, λ e. cc)
  try_pop_empty (x ∷ y ∷ xs) = (
    λ e. absurd (
        map-ne-none_of _ _
          (λ (d : try_pop (y ∷ xs) ≡ none). nonempty ((try_pop_empty (y ∷ xs)).0 d)) e),
    λ e. cc,
  )

  try_steal_empty : (xs : List T) → (try_steal xs ≡ none) ↔ (xs ≡ [])
  unfolding try_steal
  try_steal_empty [] = (λ e. refl, λ e. refl)
  try_steal_empty (x ∷ xs) = (λ e. cc, λ e. cc)

  -- A queue gives its owner the task that was pushed last and leaves the others, gives a thief the task
  -- at the other end, and gives nothing exactly when it is empty.
  pub pop-push_steal-push :
      (first : T) (tasks : List T) (task : T)
      → (try_pop (push task tasks) ≡ some (task, tasks))
        × (try_steal (push task (first ∷ tasks)) ≡ some (first, push task tasks))
        × ((try_pop tasks ≡ none) ↔ (tasks ≡ []))
        × ((try_steal tasks ≡ none) ↔ (tasks ≡ []))
  unfolding push try_steal
  pop-push_steal-push first tasks task =
      (try_pop-snoc tasks task, refl, try_pop_empty tasks, try_steal_empty tasks)

  -- What `try_pop` and `try_steal` take is the only change to the queue.
  pub try_pop-append :
      (xs : List T) {x : T} {ys : List T} → try_pop xs ≡ some (x, ys) → xs ≡ ys ++ x ∷ []
  unfolding try_pop
  try_pop-append [] e = cc
  try_pop-append (y ∷ []) e = cc
  try_pop-append (y ∷ z ∷ xs) {x} {ys} e =
      let ((last, rest), got, made) = map-eq-some _ (try_pop (z ∷ xs)) e in
      let ih = try_pop-append (z ∷ xs) got in ap (◌∷◌ y) ih ∙ ground arith

-- The queues of the scheduler, and the tasks that its workers took to run, latest first.
pub record Scheduler : Type 0 where
  pub queues : List (List ℕ)
  pub taken : List ℕ

abbrev pub replaced : Scheduler → ℕ → ℕ × List ℕ → Scheduler
replaced s i (task, rest) = record { queues = set s.queues i rest; taken = task ∷ s.taken }

-- The calls that change the state, in the order in which they take the mutexes: a push by `submit` or
-- `submit_batch`, and the two tries in a round of `worker_loop`, on the worker's own queue and on that of
-- a random victim.
pub data Event : Type 0 where
  submits : (index task : ℕ) → Event
  pops : (index : ℕ) → Event
  steals : (index victim : ℕ) → Event

-- `none` when the call finds no task, or names no queue.
unfoldable pub pop_own : Scheduler → ℕ → Option Scheduler
pop_own s index = Option.map (replaced s index) (get_elem? s.queues index >>= try_pop)

unfoldable pub steal_from : Scheduler → ℕ → ℕ → Option Scheduler
steal_from s index victim =
    if victim == index
    then none
    else Option.map (replaced s victim) (get_elem? s.queues victim >>= try_steal)

unfoldable pub submit : Scheduler → ℕ → ℕ → Option Scheduler
submit s index task =
    Option.map (λ q. record s { queues = set s.queues index (push task q) })
      (get_elem? s.queues index)

unfoldable pub step : Scheduler → Event → Scheduler
unfolding pop_own steal_from submit
step s (submits index task) = get_or (submit s index task) s
step s (pops index) = get_or (pop_own s index) s
step s (steals index victim) = get_or (steal_from s index victim) s

unfoldable pub run : Scheduler → List Event → Scheduler
unfolding step
run s [] = s
run s (e ∷ es) = run (step s e) es

-- The tasks of a history's pushes to queues of the scheduler, of which there are `n`.
abbrev pub submitted : ℕ → List Event → List ℕ
submitted n [] = []
submitted n (submits index task ∷ es) =
    if ltb index n then task ∷ submitted n es else submitted n es
submitted n (pops index ∷ es) = submitted n es
submitted n (steals index victim ∷ es) = submitted n es
