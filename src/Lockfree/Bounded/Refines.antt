-- ===== src/Lockfree/Bounded/Refines.antt =====
-- Calls of an `MPMCQueue` that do not overlap act on a bounded first-in first-out queue.
use mathlib.Core.Option
use async_toolkit.Base.{
  if◌then◌else◌, length, ltb, ◌>>=◌, ℕ, ◌+◌, ◌^◌, ◌<◌, ◌≡◌, refl, ap, subst, inl, Option, some,
  List, [], ◌∷◌, ◌++◌, arith,
}
use async_toolkit.Lockfree.Bounded.{
  Nodes, new_queue, try_enqueue, try_dequeue, Call, enqueues, dequeues, Answer, sent, got,
}
use async_toolkit.Lockfree.Bounded.Ends.{Inv}
use async_toolkit.Lockfree.Bounded.Enqueue.{try_enqueue_lem}
use async_toolkit.Lockfree.Bounded.Dequeue.{head?, tail, try_dequeue_lem}

module _ {A : Type 0} where
  -- One call, with fuel for its failures and three rounds more; `none` is a fault or too little fuel.
  unfoldable pub step : Nodes A → Call A → Option (Answer A × Nodes A)
  unfolding try_enqueue try_dequeue
  step q (enqueues value fails) =
      Option.map (λ (done, r). (sent done, r)) (try_enqueue (length fails + 3) fails q value)
  step q (dequeues fails) =
      try_dequeue (length fails + 3) fails q >>= λ o. Option.map (λ (value, r). (got value, r)) o

  -- The answers of the calls and the queue after them.
  unfoldable pub run : Nodes A → List (Call A) → Option (List (Answer A) × Nodes A)
  unfolding step
  run q [] = some ([], q)
  run q (c ∷ cs) = step q c >>= λ (answer, r).
      Option.map (λ (answers, last). (answer ∷ answers, last)) (run r cs)

  -- The bounded queue as a list.
  abbrev pub spec_step : (capacity : ℕ) → List A → Call A → Answer A × List A
  spec_step capacity queue (enqueues value fails) =
      let room = ltb (length queue) capacity in
      (sent room, if room then queue ++ value ∷ [] else queue)
  spec_step capacity queue (dequeues fails) = (got (head? queue), tail queue)

  abbrev pub spec_run : (capacity : ℕ) → List A → List (Call A) → List (Answer A) × List A
  spec_run capacity queue [] = ([], queue)
  spec_run capacity queue (c ∷ cs) =
      let (answer, queue') = spec_step capacity queue c in
      let (answers, last) = spec_run capacity queue' cs in (answer ∷ answers, last)

  step_lem :
      (q : Nodes A) (xs : List ℕ) (queue : List A) (c : Call A)
      → Inv q xs queue
      → (r : Nodes A) × (step q c ≡ some ((spec_step q.capacity queue c).0, r))
        × (r.capacity ≡ q.capacity)
        × ((ys : List ℕ) × Inv r ys (spec_step q.capacity queue c).1)
  unfolding step
  step_lem q xs queue (enqueues value fails) v =
      let (r, e, cap, after) =
        try_enqueue_lem q xs queue v value (length fails + 3) fails (omega arith) in
      (r, rw e refl, cap, after)
  step_lem q xs queue (dequeues fails) v =
      let (r, e, cap, after) =
        try_dequeue_lem q xs queue v (length fails + 3) fails (omega arith) in
      (r, rw e refl, cap, after)

  run_lem :
      (q : Nodes A) (xs : List ℕ) (queue : List A) (cs : List (Call A))
      → Inv q xs queue
      → (r : Nodes A) × (run q cs ≡ some ((spec_run q.capacity queue cs).0, r))
        × ((ys : List ℕ) × Inv r ys (spec_run q.capacity queue cs).1)
  unfolding run
  run_lem q xs queue [] v = (q, refl, (xs, v))
  run_lem q xs queue (c ∷ cs) v =
      let (r, e, cap, (ys, v')) = step_lem q xs queue c v in
      let (z, f, (zs, v'')) = run_lem r ys (spec_step q.capacity queue c).1 cs v' in
      let same : ◌≡◌ {A = List (Answer A) × List A}
          (spec_run r.capacity (spec_step q.capacity queue c).1 cs)
          (spec_run q.capacity (spec_step q.capacity queue c).1 cs) =
        ap (λ n. spec_run n (spec_step q.capacity queue c).1 cs) cap in
      (
        z,
        rw (e, f) (ap (λ a. some ((spec_step q.capacity queue c).0 ∷ a.0, z)) same),
        (zs, subst (λ a. Inv z zs a.1) same v''),
      )

  -- Any sequence of calls of a new queue with a capacity below 2^64, whatever exchanges fail for no reason: all
  -- calls return, none reads through a null pointer, each answers what a first-in first-out queue of this
  -- capacity answers, and in the end `size_` is the length of that queue.
  pub run-refines :
      (blank : A) (capacity : ℕ) (cs : List (Call A))
      → capacity < 2 ^ 64
      → (r : Nodes A) × (run (new_queue blank capacity) cs ≡ some ((spec_run capacity [] cs).0, r))
        × (r.size ≡ length (spec_run capacity [] cs).1)
  run-refines blank capacity cs h =
      let (r, e, (ys, v)) = run_lem (new_queue blank capacity) [] [] cs (record {
        chain = refl;
        values = refl;
        ascending = omega arith;
        head_set = omega arith;
        at_end = inl refl;
        on = omega arith;
        tail_old = omega arith;
        counted = refl;
        bounded = omega arith;
        representable = h;
      }) in
      (r, e, v.counted)
