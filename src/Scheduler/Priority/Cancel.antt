-- ===== src/Scheduler/Priority/Cancel.antt =====
-- `cancel` of `PriorityScheduler`, and the numbers of the tasks.
use mathlib.Core.List.{append-nil, Perm, Permᴰ, Perm-prop, perm_middle}
use mathlib.Core.Logic.{∥∥₁_elim}
use mathlib.Core.Path.{subst₂}
use mathlib.Core.List.Perm
use async_toolkit.Base.{
  ==-refl, Bool-cases, Option-cases, count, count-perm, if◌then◌else◌, length, ltb, lt→ltb, ◌==◌, ℕ,
  zero, suc, ◌+◌, ◌^◌, ◌≤◌, ◌<◌, ◌≡◌, refl, ◌∙◌, subst, inl, inr, Bool, true, false, ◌||◌, none,
  some, List, [], ◌∷◌, ◌++◌, map, arith,
}
use async_toolkit.PriorityQueue.{pop_top, pop_top_lem, length-pop_top, pop_top-ne-none, pop_top-nil}
use async_toolkit.Scheduler.Priority.Worker.{take_ready_cases}
use async_toolkit.Scheduler.Priority.{
  Task, less, less-IsOrder, PriorityScheduler, schedule_at, drain, cancel, take_ready,
}

-- The tasks with another number, and the numbers of tasks.
abbrev pub without : ℕ → List Task → List Task
without id [] = []
without id (t ∷ ts) = if t.task_id == id then without id ts else t ∷ without id ts

abbrev pub ids : List Task → List ℕ
ids = map λ t. t.task_id

without-cons :
    (id : ℕ) (t : Task) (xs ys : List Task)
    → Perm (without id xs) (without id ys)
    → Perm (without id (t ∷ xs)) (without id (t ∷ ys))
without-cons id t xs ys p = elim (Bool-cases (t.task_id == id)) [
  | inl hit ↦ rw hit p
  | inr miss ↦ rw miss (Perm.cons t p)
]

without-swap :
    (id : ℕ) (t u : Task) (xs : List Task)
    → Perm (without id (t ∷ u ∷ xs)) (without id (u ∷ t ∷ xs))
without-swap id t u xs = elim (Bool-cases (t.task_id == id)) [
  | inl hit ↦ rw hit (Perm.refl _)
  | inr miss ↦ elim (Bool-cases (u.task_id == id)) [
    | inl hit ↦ rw (miss, hit) (Perm.refl _)
    | inr other ↦ rw (miss, other) (Perm.swap u t _)
  ]
]

without-permᴰ : (id : ℕ) {xs ys : List Task} → Permᴰ xs ys → Perm (without id xs) (without id ys)
without-permᴰ id Permᴰ.nil = Perm.refl []
without-permᴰ id (Permᴰ.cons {a} {l₁} {l₂} e p) =
    subst (λ b. Perm (without id (a ∷ l₁)) (without id (b ∷ l₂))) e
      (without-cons id a l₁ l₂ (without-permᴰ id p))
without-permᴰ id (Permᴰ.swap {a} {b} {l} e f) =
    subst₂ (λ c d. Perm (without id (a ∷ b ∷ l)) (without id (c ∷ d ∷ l))) f e
      (without-swap id a b l)
without-permᴰ id (Permᴰ.trans p q) = Perm.trans (without-permᴰ id p) (without-permᴰ id q)

without-perm : (id : ℕ) {xs ys : List Task} → Perm xs ys → Perm (without id xs) (without id ys)
without-perm id p = ∥∥₁_elim p Perm-prop (without-permᴰ id)

step-perm :
    (id : ℕ) (task : Task) (tasks rest temp : List Task)
    → Perm tasks (task ∷ rest)
    → Perm
        (without id rest ++ (if task.task_id == id then temp else task ∷ temp))
        (without id tasks ++ temp)
step-perm id task tasks rest temp p =
    Perm.trans moved (Perm.append_right temp (Perm.symm (without-perm id p)))
  where
    moved :
        Perm
          (without id rest ++ (if task.task_id == id then temp else task ∷ temp))
          (without id (task ∷ rest) ++ temp)
    moved = elim (Bool-cases (task.task_id == id)) [
      | inl hit ↦ rw hit (Perm.refl _)
      | inr miss ↦ rw miss (perm_middle (without id rest) temp)
    ]

drain-without :
    (fuel id : ℕ) (tasks temp : List Task) (found : Bool)
    → length tasks ≤ fuel
    → Perm (drain fuel id tasks temp found).0 (without id tasks ++ temp)
      × ((drain fuel id tasks temp found).1 ≡ (found || ltb 0 (count id (ids tasks))))
unfolding drain
drain-without zero id [] temp found h = (Perm.refl temp, ground arith)
drain-without zero id (t ∷ ts) temp found h = absurd (omega arith)
drain-without (suc fuel) id [] temp found h =
    rw (pop_top-nil less, drain) (Perm.refl temp, ground arith)
drain-without (suc fuel) id (t ∷ ts) temp found h = elim (Option-cases (pop_top less (t ∷ ts))) [
  | inl e ↦ absurd (popped e)
  | inr ((task, rest), e) ↦
      let (p, _) = pop_top_lem less less-IsOrder (t ∷ ts) e in
      let (q, f) =
        drain-without fuel id rest (if task.task_id == id then temp else task ∷ temp)
          (if task.task_id == id then true else found)
          (omega (arith, length-pop_top less (t ∷ ts) e)) in
      rw (e, drain)
        (
          Perm.trans q (step-perm id task (t ∷ ts) rest temp p),
          f ∙ ground (arith, count-perm id (Perm.map (λ (u : Task). u.task_id) p)),
        )
]
  where
    popped : pop_top less (t ∷ ts) ≡ none → ⊥
    popped = pop_top-ne-none less t ts

-- `cancel` says whether a task of that number was pending, removes every such task, keeps all others, and
-- leaves the number for the next task.
pub cancel-without :
    (s : PriorityScheduler) (id : ℕ)
    → ((cancel s id).0 ≡ ltb 0 (count id (ids s.tasks)))
      × Perm (cancel s id).1.tasks (without id s.tasks)
      × ((cancel s id).1.next_task_id ≡ s.next_task_id)
unfolding cancel
cancel-without s id =
    let (p, f) = drain-without (length s.tasks) id s.tasks [] false (omega arith) in
    (f, rw append-nil at p, refl)

-- Every pending number was given out, and to one task only.
pub record IsValid (s : PriorityScheduler) : Type 0 where
  pub once : (a : ℕ) → count a (ids s.tasks) ≤ 1
  pub given : (a : ℕ) → 0 < count a (ids s.tasks) → a < s.next_task_id

count-without : (a id : ℕ) (ts : List Task) → count a (ids (without id ts)) ≤ count a (ids ts)
count-without a id [] = omega arith
count-without a id (t ∷ ts) = ground (arith, count-without a id ts)

count-without_self : (id : ℕ) (ts : List Task) → count id (ids (without id ts)) ≡ 0
count-without_self id [] = refl
count-without_self id (t ∷ ts) = ground (arith, count-without_self id ts)

without_absent : (id : ℕ) (ts : List Task) → count id (ids ts) ≡ 0 → without id ts ≡ ts
without_absent id [] h = refl
without_absent id (t ∷ ts) h = ground (arith, without_absent id ts)

pub cancel-IsValid : (s : PriorityScheduler) (id : ℕ) → IsValid s → IsValid (cancel s id).1
cancel-IsValid s id v =
    let (_, p, n) = cancel-without s id in
    let same = λ (a : ℕ). count-perm a (Perm.map (λ (u : Task). u.task_id) p) in
    record {
      once = λ a. omega (arith, same a, count-without a id s.tasks, v.once a);
      given = λ a h. ground (arith, same a, count-without a id s.tasks, v.given a, n);
    }

pub schedule_at-IsValid :
    (s : PriorityScheduler) (time priority : ℕ)
    → s.next_task_id + 1 < 2 ^ 64
    → IsValid s
    → IsValid (schedule_at s time priority).1
unfolding schedule_at
schedule_at-IsValid s time priority h v = record {
  once = λ a. ground (arith, v.once a, v.given a);
  given = λ a k. ground (arith, v.given a);
}

pub take_ready-IsValid :
    (now : ℕ) (s t : PriorityScheduler) (task : Task)
    → take_ready now s ≡ some (task, t)
    → IsValid s
    → IsValid t
take_ready-IsValid now s t task e v =
    let (f, _, n, _) = take_ready_cases now s t task e in
    let (p, _) = pop_top_lem less less-IsOrder s.tasks f in
    let same = λ (a : ℕ). count-perm a (Perm.map (λ (u : Task). u.task_id) p) in
    record {
      once = λ a. ground (arith, same a, v.once a);
      given = λ a h. ground (arith, same a, v.given a, n);
    }

-- When the pending numbers are below the next one and each stands once, a task can be cancelled by
-- the number that `schedule_at` returned for it: `cancel` finds it, and what is pending then is
-- what was pending before.
pub cancel-schedule_at :
    (s : PriorityScheduler) (time priority : ℕ)
    → IsValid s
    → let (id, t) = schedule_at s time priority in
      ((cancel t id).0 ≡ true) × Perm (cancel t id).1.tasks s.tasks
unfolding schedule_at
cancel-schedule_at s time priority v =
    let id = s.next_task_id in
    let t = (schedule_at s time priority).1 in
    let (f, p, _) = cancel-without t id in
    let absent : count id (ids s.tasks) ≡ 0 = ground (arith, v.given id) in
    let left : without id t.tasks ≡ s.tasks = rw (==-refl id) (without_absent id s.tasks absent) in
    (f ∙ lt→ltb _ _ (ground arith), subst (λ l. Perm (cancel t id).1.tasks l) left p)
