-- ===== src/Lockfree/Channel/Runs.antt =====
-- Sequences of calls of an `MPMCChannel`.
use mathlib.Core.Option
use async_toolkit.Base.{
  Bool-cases, if◌then◌else◌, length, ltb, ◌>>=◌, ℕ, ◌+◌, ◌^◌, ◌<◌, ◌≡◌, refl, ap, ◌∙◌, subst, inl,
  inr, Bool, ◌&&◌, Option, some, List, [], ◌∷◌, ◌++◌, arith,
}
use async_toolkit.Lockfree.Bounded.{Nodes, new_queue}
use async_toolkit.Lockfree.Bounded.Dequeue.{tail}
use async_toolkit.Lockfree.Channel.{try_send, try_receive}
use async_toolkit.Lockfree.Channel.Refines.{Valid, try_send_lem, try_receive_impl_lem, moved_head}

-- A call, with its timeout, the clock and the failing exchanges.
pub data Call (A : Type 0) : Type 0 where
  sends : A → (timeout : ℕ) → (clock fails : List Bool) → Call A
  receives : (timeout : ℕ) → (clock fails : List Bool) → Call A

pub data Answer (A : Type 0) : Type 0 where
  sent : Bool → Answer A
  received : Option A → Answer A

module _ {A : Type 0} (moved : A → A) where
  try_receive_lem :
      (q : Nodes A) (xs : List ℕ) (queue : List A) (timeout : ℕ) (clock : List Bool)
      → Valid q xs queue
      → (fuel : ℕ) (fails : List Bool) → length fails < fuel
      → (r : Nodes A) × (try_receive moved fuel fails q timeout clock
          ≡ some (moved_head moved fails queue, r))
        × (r.capacity ≡ q.capacity)
        × ((ys : List ℕ) × Valid r ys (tail queue))
  unfolding try_receive
  try_receive_lem q xs queue timeout [] v fuel fails h =
      try_receive_impl_lem moved q xs queue v fuel fails h
  try_receive_lem q xs (value ∷ rest) timeout (before ∷ clock) v fuel fails h =
      let (r, e, cap, after) = try_receive_impl_lem moved q xs (value ∷ rest) v fuel fails h in
      (r, rw e refl, cap, after)
  try_receive_lem q xs [] timeout (before ∷ clock) v fuel fails h =
      let (r, e, cap, (ys, v')) = try_receive_impl_lem moved q xs [] v fuel fails h in
      elim (Bool-cases (ltb 0 timeout && before)) [
        | inl more ↦
            let (z, f, cap', after) = try_receive_lem r ys [] timeout clock v' fuel fails h in
            (z, rw e (rw more f), cap' ∙ cap, after)
        | inr over ↦ (r, rw e (rw over refl), cap, (ys, v'))
      ]

  -- One call, with fuel for its failures; `none` is too little fuel.
  unfoldable pub step : Nodes A → Call A → Option (Answer A × Nodes A)
  unfolding try_send try_receive
  step q (sends value timeout clock fails) =
      Option.map (λ (done, r). (sent done, r))
        (try_send (length fails + 1) fails q value timeout clock)
  step q (receives timeout clock fails) =
      Option.map (λ (value, r). (received value, r))
        (try_receive moved (length fails + 1) fails q timeout clock)

  unfoldable pub run : Nodes A → List (Call A) → Option (List (Answer A) × Nodes A)
  unfolding step
  run q [] = some ([], q)
  run q (c ∷ cs) = step q c >>= λ (answer, r).
      Option.map (λ (answers, last). (answer ∷ answers, last)) (run r cs)

  -- The channel as a list.
  abbrev pub spec_step : (capacity : ℕ) → List A → Call A → Answer A × List A
  spec_step capacity queue (sends value timeout clock fails) =
      let room = ltb (length queue) capacity in
      (sent room, if room then queue ++ value ∷ [] else queue)
  spec_step capacity queue (receives timeout clock fails) =
      (received (moved_head moved fails queue), tail queue)

  abbrev pub spec_run : (capacity : ℕ) → List A → List (Call A) → List (Answer A) × List A
  spec_run capacity queue [] = ([], queue)
  spec_run capacity queue (c ∷ cs) =
      let (answer, queue') = spec_step capacity queue c in
      let (answers, last) = spec_run capacity queue' cs in (answer ∷ answers, last)

  step_lem :
      (q : Nodes A) (xs : List ℕ) (queue : List A) (c : Call A)
      → Valid q xs queue
      → (r : Nodes A) × (step q c ≡ some ((spec_step q.capacity queue c).0, r))
        × (r.capacity ≡ q.capacity)
        × ((ys : List ℕ) × Valid r ys (spec_step q.capacity queue c).1)
  unfolding step
  step_lem q xs queue (sends value timeout clock fails) v =
      let (r, e, cap, after) =
        try_send_lem q xs queue value timeout clock v (length fails + 1) fails (omega arith) in
      (r, rw e refl, cap, after)
  step_lem q xs queue (receives timeout clock fails) v =
      let (r, e, cap, after) =
        try_receive_lem q xs queue timeout clock v (length fails + 1) fails (omega arith) in
      (r, rw e refl, cap, after)

  run_lem :
      (q : Nodes A) (xs : List ℕ) (queue : List A) (cs : List (Call A))
      → Valid q xs queue
      → (r : Nodes A) × (run q cs ≡ some ((spec_run q.capacity queue cs).0, r))
        × ((ys : List ℕ) × Valid r ys (spec_run q.capacity queue cs).1)
  unfolding run
  run_lem q xs queue [] v = (q, refl, (xs, v))
  run_lem q xs queue (c ∷ cs) v =
      let (r, e, cap, (ys, v')) = step_lem q xs queue c v in
      let (z, f, (zs, v'')) = run_lem r ys (spec_step q.capacity queue c).1 cs v' in
      let same : ◌≡◌ {A = List (Answer A) × List A}
          (spec_run r.capacity (spec_step q.capacity queue c).1 cs)
          (spec_run q.capacity (spec_step q.capacity queue c).1 cs) =
        ap (λ n. spec_run n (spec_step q.capacity queue c).1 cs) cap in
      (
        z,
        rw (e, f) (ap (λ a. some ((spec_step q.capacity queue c).0 ∷ a.0, z)) same),
        (zs, subst (λ a. Valid z zs a.1) same v''),
      )

  -- Any sequence of calls of a new channel with a capacity below 2^64, with any timeouts and failing exchanges: all
  -- calls return and answer what a first-in first-out queue of this capacity answers, where a received value
  -- has been moved from once for each exchange that failed before it was taken; in the end `size_` is the
  -- length of that queue.
  pub channel_run-refines :
      (blank : A) (capacity : ℕ) (cs : List (Call A))
      → capacity < 2 ^ 64
      → (r : Nodes A) × (run (new_queue blank capacity) cs ≡ some ((spec_run capacity [] cs).0, r))
        × (r.size ≡ length (spec_run capacity [] cs).1)
  channel_run-refines blank capacity cs h =
      let (r, e, (ys, (v, t))) = run_lem (new_queue blank capacity) [] [] cs (
        record {
          chain = refl;
          values = refl;
          ascending = omega arith;
          head_set = omega arith;
          at_end = inl refl;
          on = omega arith;
          tail_old = omega arith;
          counted = refl;
          bounded = omega arith;
          representable = h;
        },
        refl,
      ) in
      (r, e, v.counted)
