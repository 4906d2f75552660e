-- ===== src/Lockfree/Channel/Refines.antt =====
-- Calls of an `MPMCChannel` that do not overlap act on a bounded first-in first-out queue, but for what failing
-- exchanges do to received values.
use mathlib.Core.Path.{ap₂}
use async_toolkit.Base.{
  ==-false, ==-refl, Bool-cases, count, if◌then◌else◌, leb, length, ltb, ltb→lt, ℕ, zero, suc, ◌+◌,
  ◌-◌, ◌%◌, ◌^◌, ◌<◌, ◌≡◌, refl, sym, ap, ◌∙◌, subst, ◌≢◌, inl, inr, Bool, true, false, ◌&&◌,
  Option, none, some, List, [], ◌∷◌, ◌++◌, map, arith,
}
use async_toolkit.Lockfree.Bounded.{update, Nodes, allocate}
use async_toolkit.Lockfree.Bounded.Ends.{last, Ascending, last-append, count-last, Inv}
use async_toolkit.Lockfree.Bounded.Enqueue.{longer, longer-Inv, end_facts}
use async_toolkit.Lockfree.Bounded.Dequeue.{shorter, shorter-Inv, tail}
use async_toolkit.Lockfree.Channel.{
  send_loop, try_send_impl, try_send, receive_loop, try_receive_impl,
}

-- The queue, whose tail is its last node.
abbrev pub Valid : {A : Type 0} → Nodes A → List ℕ → List A → Type 0
Valid q xs queue = Inv q xs queue × (q.tail ≡ last q.head xs)

-- How often the first exchanges fail in a row.
abbrev pub failing : List Bool → ℕ
failing [] = 0
failing (true ∷ fs) = suc (failing fs)
failing (false ∷ fs) = 0

abbrev pub repeat : {A : Type 0} → ℕ → (A → A) → A → A
repeat zero f a = a
repeat (suc n) f a = repeat n f (f a)

module _ {A : Type 0} where
  sends :
      (fuel : ℕ) (fails : List Bool) (q : Nodes A) (node next : ℕ)
      → next ≡ 0
      → q.next q.tail ≡ 0
      → length fails < fuel
      → send_loop fuel fails q node q.tail next
        ≡ some (record q {
          next = update q.next q.tail node;
          tail = node;
          size = (q.size + 1) % 2 ^ 64;
        })
  unfolding send_loop
  sends zero fails q node next z e h = absurd (omega arith)
  sends (suc k) [] q node next z e h = rw (==-refl q.tail, z) refl
  sends (suc k) (false ∷ fs) q node next z e h = rw (==-refl q.tail, z) refl
  sends (suc k) (true ∷ fs) q node next z e h =
      rw (==-refl q.tail, z) (sends k fs q node (q.next q.tail) e e (omega arith))

  try_send_impl_lem :
      (q : Nodes A) (xs : List ℕ) (queue : List A) (value : A)
      → Valid q xs queue
      → (fuel : ℕ) (fails : List Bool) → length fails < fuel
      → (r : Nodes A) × (try_send_impl fuel fails q value ≡ some (ltb (length queue) q.capacity, r))
        × (r.capacity ≡ q.capacity)
        × ((ys : List ℕ) × Valid r ys
              (if ltb (length queue) q.capacity then queue ++ value ∷ [] else queue))
        × (ltb (length queue) q.capacity ≡ false → r ≡ q)
  unfolding try_send_impl
  try_send_impl_lem q xs queue value (v, t) fuel fails h =
      elim (Bool-cases (ltb (length queue) q.capacity)) [
        | inl room ↦
            let (_, _, null, _) = end_facts q xs queue v value in
            let open_still : leb q.capacity q.size ≡ false = ground (arith, v.counted, room) in
            let at : (allocate q value).next q.tail ≡ 0 = ap (allocate q value).next t ∙ null in
            let done = sends fuel fails (allocate q value) q.fresh _ at at h in
            let r = longer q xs queue v value q.fresh in
            let same : record (allocate q value) {
              next = update (allocate q value).next q.tail q.fresh;
              tail = q.fresh;
              size = (q.size + 1) % 2 ^ 64;
            }
                ≡ r =
              ap
                (λ e. record (allocate q value) {
                  next = update (allocate q value).next e q.fresh;
                  tail = q.fresh;
                  size = (q.size + 1) % 2 ^ 64;
                })
                t in
            rw (room, open_still, done)
              (
                r,
                ap (λ z. some (true, z)) same,
                refl,
                (
                  xs ++ q.fresh ∷ [],
                  (
                    longer-Inv q xs queue v value q.fresh (inl refl) (ltb→lt _ _ room),
                    sym (last-append q.head q.fresh xs),
                  ),
                ),
                λ f. absurd (cc f),
              )
        | inr full ↦
            let closed : leb q.capacity q.size ≡ true = ground (arith, v.counted, full) in
            rw (full, closed) (q, refl, refl, (xs, (v, t)), λ f. refl)
      ]

  -- `try_send` answers `false` exactly when the channel is full, however long it tries, and else puts the value at the
  -- end.
  pub try_send_lem :
      (q : Nodes A) (xs : List ℕ) (queue : List A) (value : A) (timeout : ℕ) (clock : List Bool)
      → Valid q xs queue
      → (fuel : ℕ) (fails : List Bool) → length fails < fuel
      → (r : Nodes A) × (try_send fuel fails q value timeout clock
          ≡ some (ltb (length queue) q.capacity, r))
        × (r.capacity ≡ q.capacity)
        × ((ys : List ℕ) × Valid r ys
              (if ltb (length queue) q.capacity then queue ++ value ∷ [] else queue))
  unfolding try_send
  try_send_lem q xs queue value timeout [] v fuel fails h =
      let (r, e, cap, after, _) = try_send_impl_lem q xs queue value v fuel fails h in
      (r, e, cap, after)
  try_send_lem q xs queue value timeout (before ∷ clock) v fuel fails h =
      let (r, e, cap, after, _) = try_send_impl_lem q xs queue value v fuel fails h in
      elim (Bool-cases (ltb (length queue) q.capacity)) [
        | inl room ↦ (r, rw e (rw room refl), cap, after)
        | inr full ↦ elim (Bool-cases (ltb 0 timeout && before)) [
          | inl more ↦
              let kept : Valid r after.0 queue =
                subst (λ b. Valid r after.0 (if b then queue ++ value ∷ [] else queue)) full
                  after.1 in
              let (z, f, cap', after') =
                try_send_lem r after.0 queue value timeout clock kept fuel fails h in
              let same = ap (λ n. ltb (length queue) n) cap in
              (
                z,
                rw e (rw (full, more) (f ∙ ap (λ b. some (b, z)) (same ∙ full))),
                cap' ∙ cap,
                subst (λ b. (ys : List ℕ) × Valid z ys (if b then queue ++ value ∷ [] else queue))
                    same after',
              )
          | inr over ↦ (r, rw e (rw (full, over) refl), cap, after)
        ]
      ]

  -- The loop takes the value in the first node after as many moves as exchanges fail, and touches no other one.
  receives :
      (moved : A → A) (fuel : ℕ) (fails : List Bool) (q : Nodes A) (first next : ℕ)
      → next ≡ first
      → q.next q.head ≡ first
      → first ≢ 0
      → length fails < fuel
      → (c : ℕ → A) × ((a : ℕ) → a ≢ first → c a ≡ q.content a)
        × (receive_loop moved fuel fails q q.head next
            ≡ some (
              some (repeat (failing fails) moved (q.content first)),
              record q {
                content = c;
                head = first;
                freed = q.head ∷ q.freed;
                size = (q.size + 2 ^ 64 - 1) % 2 ^ 64;
              },
            ))
  unfolding receive_loop
  receives moved zero fails q first next z e n h = absurd (omega arith)
  receives moved (suc k) [] q first next z e n h = (
    update q.content first (moved (q.content first)),
    (λ a o. ground arith),
    rw (z, ==-refl q.head, ==-false first 0 n) refl,
  )
  receives moved (suc k) (false ∷ fs) q first next z e n h = (
    update q.content first (moved (q.content first)),
    (λ a o. ground arith),
    rw (z, ==-refl q.head, ==-false first 0 n) refl,
  )
  receives moved (suc k) (true ∷ fs) q first next z e n h =
      let q' = record q { content = update q.content first (moved (q.content first)) } in
      let (c, others, r) = receives moved k fs q' first (q.next q.head) e e n (omega arith) in
      (
        c,
        (λ a o. others a o ∙ ground arith),
        rw (z, ==-refl q.head, ==-false first 0 n)
            (r
              ∙ ap
                  (λ w. some (
                    some (repeat (failing fs) moved w),
                    record q {
                      content = c;
                      head = first;
                      freed = q.head ∷ q.freed;
                      size = (q.size + 2 ^ 64 - 1) % 2 ^ 64;
                    },
                  ))
                  (ground arith)),
      )

  map-agree :
      (f g : ℕ → A) (p : ℕ) (xs : List ℕ) (fresh : ℕ)
      → Ascending p xs fresh
      → ((a : ℕ) → p < a → f a ≡ g a)
      → map f xs ≡ map g xs
  map-agree f g p [] fresh a h = refl
  map-agree f g p (x ∷ xs) fresh a h =
      ap₂ ◌∷◌ (h x a.0) (map-agree f g x xs fresh a.1 (λ b l. h b (omega (arith, a.0))))

  -- The first value, moved as often as exchanges fail before one succeeds.
  abbrev pub moved_head : (A → A) → List Bool → List A → Option A
  moved_head moved fails [] = none
  moved_head moved fails (value ∷ rest) = some (repeat (failing fails) moved value)

  pub try_receive_impl_lem :
      (moved : A → A) (q : Nodes A) (xs : List ℕ) (queue : List A)
      → Valid q xs queue
      → (fuel : ℕ) (fails : List Bool) → length fails < fuel
      → (r : Nodes A) × (try_receive_impl moved fuel fails q
          ≡ some (moved_head moved fails queue, r))
        × (r.capacity ≡ q.capacity)
        × ((ys : List ℕ) × Valid r ys (tail queue))
  unfolding try_receive_impl receive_loop
  try_receive_impl_lem moved q [] [] (v, t) zero fails h = absurd (omega arith)
  try_receive_impl_lem moved q [] [] (v, t) (suc k) fails h =
      let null : q.next q.head ≡ 0 = v.chain in
      (q, rw (null, ==-refl q.head) refl, refl, ([], (v, t)))
  try_receive_impl_lem moved q [] (value ∷ rest) (v, t) fuel fails h = absurd (cc (v.values))
  try_receive_impl_lem moved q (first ∷ xs) [] (v, t) fuel fails h = absurd (cc (v.values))
  try_receive_impl_lem moved q (first ∷ xs) (value ∷ rest) (v, t) fuel fails h =
      let (c, others, e) =
        receives moved fuel fails q first (q.next q.head) v.chain.0 v.chain.0
          (λ z. omega (arith, v.chain.1, z)) h in
      let first_value : q.content first ≡ value = cc (v.values) in
      let old : map q.content xs ≡ rest = cc (v.values) in
      let values : map c xs ≡ rest =
        map-agree c q.content first xs q.fresh v.ascending.1
          (λ a l. others a (λ z. omega (arith, z)))
        ∙ old in
      let q' = record q { content = c } in
      let v' : Inv q' (first ∷ xs) (c first ∷ rest) = record {
        chain = v.chain;
        values = ap (◌∷◌ (c first)) values;
        ascending = v.ascending;
        head_set = v.head_set;
        at_end = v.at_end;
        on = v.on;
        tail_old = v.tail_old;
        counted = v.counted;
        bounded = v.bounded;
        representable = v.representable;
      } in
      let after =
        shorter-Inv q' first xs (c first ∷ rest) v' q.tail (c first) rest refl (inl t)
          (subst (λ a. 0 < count a (first ∷ xs)) (sym t) (count-last first xs)) v.tail_old values in
      (
        shorter q' first xs (c first ∷ rest) v' q.tail,
        e
            ∙ ap
                (λ w. some (
                  some (repeat (failing fails) moved w),
                  shorter q' first xs (c first ∷ rest) v' q.tail,
                ))
                first_value,
        refl,
        (xs, (after, t)),
      )
