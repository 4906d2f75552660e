-- ===== src/Scheduler/Stealing/Conserve.antt =====
-- No task is lost or taken twice by the work-stealing scheduler.
use mathlib.Core.Option
use mathlib.Core.Option.{get_or}
use async_toolkit.Base.{
  >>=-eq-some, Bool-cases, Option-cases, count, count-append, count_all, count_all-set, get_elem?,
  get_elem?-none, get_elem?-some, if◌then◌else◌, length, length-replicate, length-set, ltb,
  ltb-false, lt→ltb, replicate, ◌==◌, ◌>>=◌, ℕ, zero, suc, ◌+◌, ◌≡◌, refl, ap, ◌∙◌, inl, inr,
  Option, some, List, [], ◌∷◌, ◌++◌, arith, dec_lt,
}
use async_toolkit.Scheduler.Stealing.{
  Scheduler, Event, submits, pops, steals, replaced, push, try_pop, try_steal, try_pop-append,
  submit, pop_own, steal_from, step, run, submitted,
}

abbrev has : Scheduler → ℕ → ℕ
has s a = count a s.taken + count_all a s.queues

Taken :
    (a : ℕ) (s : Scheduler) (i : ℕ) (q rest : List ℕ) (task : ℕ)
    → get_elem? s.queues i ≡ some q
    → count a q ≡ count a (task ∷ rest)
    → (has (replaced s i (task, rest)) a ≡ has s a)
      × (length (replaced s i (task, rest)).queues ≡ length s.queues)
Taken a s i q rest task e h =
    (omega (arith, count_all-set a s.queues i q rest e), length-set s.queues i rest)

Keeps : ℕ → Scheduler → Scheduler → ℕ → Type 0
Keeps a s t k = (has t a ≡ has s a + k) × (length t.queues ≡ length s.queues)

taken-Keeps :
    (a : ℕ) (s : Scheduler) (i : ℕ) (try : List ℕ → Option (ℕ × List ℕ))
    → ((q rest : List ℕ) (task : ℕ) → try q ≡ some (task, rest) → count a q ≡ count a (task ∷ rest))
    → Keeps a s (get_or (Option.map (replaced s i) (get_elem? s.queues i >>= try)) s) 0
unfolding Keeps
taken-Keeps a s i try same = elim (Option-cases (get_elem? s.queues i >>= try)) [
  | inl e ↦ rw e (omega arith, refl)
  | inr ((task, rest), e) ↦
      let (q, found, got) = >>=-eq-some (get_elem? s.queues i) try e in
      let (kept, long) = Taken a s i q rest task found (same q rest task got) in
      rw e (omega (arith, kept), long)
]

pop-count :
    (a : ℕ) (q rest : List ℕ) (task : ℕ)
    → try_pop q ≡ some (task, rest)
    → count a q ≡ count a (task ∷ rest)
pop-count a q rest task e =
    ap (count a) (try_pop-append q e) ∙ omega (arith, count-append a rest (task ∷ []))

steal-count :
    (a : ℕ) (q rest : List ℕ) (task : ℕ)
    → try_steal q ≡ some (task, rest)
    → count a q ≡ count a (task ∷ rest)
unfolding try_steal
steal-count a [] rest task e = cc
steal-count a (x ∷ q) rest task e = ground arith

submit-Keeps :
    (a : ℕ) (s : Scheduler) (index task : ℕ)
    → Keeps a s
        (get_or (submit s index task) s)
        (count a (if ltb index (length s.queues) then task ∷ [] else []))
unfolding Keeps submit push
submit-Keeps a s index task = elim (dec_lt index (length s.queues)) [
  | yes h ↦
      let (q, e) = get_elem?-some s.queues index h in
      rw (lt→ltb _ _ h, e)
        (
          omega (
            arith,
            count_all-set a s.queues index q (q ++ task ∷ []) e,
            count-append a q (task ∷ []),
          ),
          length-set s.queues index (q ++ task ∷ []),
        )
  | no h ↦
      rw
        (
          ltb-false index (length s.queues) (omega arith),
          get_elem?-none s.queues index (omega arith),
        )
        (omega arith, refl)
]

step-Keeps :
    (a : ℕ) (s : Scheduler) (e : Event)
    → Keeps a s (step s e) (count a (submitted (length s.queues) (e ∷ [])))
unfolding step pop_own steal_from
step-Keeps a s (submits index task) = submit-Keeps a s index task
step-Keeps a s (pops index) = taken-Keeps a s index try_pop (pop-count a)
step-Keeps a s (steals index victim) = elim (Bool-cases (victim == index)) [
  | inl own ↦ rw own (unfold Keeps in (omega arith, refl))
  | inr other ↦ rw other (taken-Keeps a s victim try_steal (steal-count a))
]

submitted-cons :
    (a n : ℕ) (e : Event) (es : List Event)
    → count a (submitted n (e ∷ es)) ≡ count a (submitted n (e ∷ [])) + count a (submitted n es)
submitted-cons a n (submits index task) es = ground arith
submitted-cons a n (pops index) es = omega arith
submitted-cons a n (steals index victim) es = omega arith

run-Keeps :
    (a : ℕ) (s : Scheduler) (es : List Event)
    → Keeps a s (run s es) (count a (submitted (length s.queues) es))
unfolding run Keeps
run-Keeps a s [] = (omega arith, refl)
run-Keeps a s (e ∷ es) =
    let (one, long) = step-Keeps a s e in
    let (more, longer) = run-Keeps a (step s e) es in
    (
      omega (
        arith,
        one,
        more,
        ap (λ n. count a (submitted n es)) long,
        submitted-cons a (length s.queues) e es,
      ),
      longer ∙ long,
    )

-- With any number of workers in any order, every task that was submitted is, as often as it was
-- submitted, either in one of the queues or taken by exactly one worker: none is lost and none runs
-- twice.
pub run_conserves :
    (n : ℕ) (es : List Event) (a : ℕ)
    → let s = run (record { queues = replicate n []; taken = [] }) es in
      count a s.taken + count_all a s.queues ≡ count a (submitted n es)
unfolding Keeps
run_conserves n es a =
    let start : Scheduler = record { queues = replicate n []; taken = [] } in
    let (h, _) = run-Keeps a start es in
    omega
      (arith, h, nothing n, ap (λ k. count a (submitted k es)) (length-replicate {A = List ℕ} n []))
  where
    nothing : (k : ℕ) → count_all a (replicate k []) ≡ 0
    nothing zero = refl
    nothing (suc k) = omega (arith, nothing k)
