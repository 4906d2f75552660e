-- ===== src/Lockfree/Bounded/Dequeue.antt =====
-- `try_dequeue` of an `MPMCQueue`.
use async_toolkit.Base.{
  ==-false, ==-refl, count, if◌then◌else◌, length, ◌==◌, ℕ, zero, suc, ◌+◌, ◌-◌, ◌%◌, ◌^◌, ◌<◌, ◌≡◌,
  refl, sym, ap, ◌∙◌, subst, ◌≢◌, ◌⊎◌, inl, inr, Bool, true, false, ◌&&◌, Option, none, some, List,
  [], ◌∷◌, map, arith, ℕ_discrete,
}
use async_toolkit.Lockfree.Bounded.{Nodes, later, Taken, takes, dequeue_loop, try_dequeue}
use async_toolkit.Lockfree.Bounded.Ends.{last, last_lt, Inv}

and_false : (b : Bool) → (b && false) ≡ false
and_false true = refl
and_false false = refl

abbrev pub head? : {A : Type 0} → List A → Option A
head? [] = none
head? (a ∷ rest) = some a

abbrev pub tail : {A : Type 0} → List A → List A
tail [] = []
tail (a ∷ rest) = rest

module _ {A : Type 0} where
  abbrev Took : Nodes A → (first : ℕ) → Taken A
  Took q first = takes (record q { head = first }) q.head (q.content first)

  -- Where the local tail is not the head, the loop takes the first node as soon as the exchange does not fail.
  loop_takes :
      (fuel : ℕ) (fails : List Bool) (q : Nodes A) (first tail : ℕ)
      → q.next q.head ≡ first
      → first ≢ 0
      → q.head ≢ tail
      → length fails < fuel
      → dequeue_loop fuel fails q q.head tail ≡ some (Took q first)
  unfolding dequeue_loop
  loop_takes zero fails q first tail e n a h = absurd (omega arith)
  loop_takes (suc k) [] q first tail e n a h =
      rw (==-refl q.head, ==-false q.head tail a, e, ==-false first 0 n) refl
  loop_takes (suc k) (false ∷ fs) q first tail e n a h =
      rw (==-refl q.head, ==-false q.head tail a, e, ==-false first 0 n) refl
  loop_takes (suc k) (true ∷ fs) q first tail e n a h =
      rw (==-refl q.head, ==-false q.head tail a, e, ==-false first 0 n)
        (loop_takes k fs q first tail e n a (omega arith))

  -- Where the local tail is the head and the tail is not, the loop loads the tail first.
  loop_reloads :
      (fuel : ℕ) (fails : List Bool) (q : Nodes A) (first : ℕ)
      → q.next q.head ≡ first
      → first ≢ 0
      → q.tail ≢ q.head
      → length fails + 1 < fuel
      → dequeue_loop fuel fails q q.head q.head ≡ some (Took q first)
  unfolding dequeue_loop
  loop_reloads zero fails q first e n a h = absurd (omega arith)
  loop_reloads (suc k) fails q first e n a h =
      rw (==-refl q.head, e, ==-false first 0 n, ==-false q.tail q.head a)
        (loop_takes k (later fails) q first q.tail e n (λ z. a (sym z)) (shorter fails h))
    where
      shorter : (fs : List Bool) → length fs + 1 < suc k → length (later fs) < k
      shorter [] l = omega arith
      shorter (b ∷ fs) l = omega arith

  -- Where the tail is the head although a node follows, the loop moves the tail first.
  loop_helps :
      (fuel : ℕ) (fails : List Bool) (q : Nodes A) (first : ℕ)
      → q.next q.head ≡ first
      → first ≢ 0
      → q.tail ≡ q.head
      → first ≢ q.head
      → length fails + 2 < fuel
      → dequeue_loop fuel fails q q.head q.head ≡ some (Took (record q { tail = first }) first)
  unfolding dequeue_loop
  loop_helps zero fails q first e n a d h = absurd (omega arith)
  loop_helps (suc k) [] q first e n a d h =
      rw (==-refl q.head, e, ==-false first 0 n, a, ==-refl q.head)
        (loop_reloads k [] (record q { tail = first }) first e n d (omega arith))
  loop_helps (suc k) (false ∷ fs) q first e n a d h =
      rw (==-refl q.head, e, ==-false first 0 n, a, ==-refl q.head)
        (loop_reloads k fs (record q { tail = first }) first e n d (omega arith))
  loop_helps (suc k) (true ∷ fs) q first e n a d h =
      rw (==-refl q.head, e, ==-false first 0 n, and_false (q.tail == q.head))
        (ap (dequeue_loop k fs q q.head) a ∙ loop_helps k fs q first e n a d (omega arith))

  module _ (q : Nodes A) (first : ℕ) (xs : List ℕ) (queue : List A)
      (v : Inv q (first ∷ xs) queue) where
    -- The queue after its first node became the dummy, with the tail at `tail`.
    abbrev pub shorter : ℕ → Nodes A
    shorter tail = record q {
      tail = tail;
      head = first;
      freed = q.head ∷ q.freed;
      size = (q.size + 2 ^ 64 - 1) % 2 ^ 64;
    }

    linked : (q.next q.head ≡ first) × (first ≢ 0) × (q.head < first)
    linked = (v.chain.0, (λ e. omega (arith, v.chain.1, e)), v.ascending.0)

    pub shorter-Inv :
        (tail : ℕ) (value : A) (rest : List A)
        → value ∷ rest ≡ queue
        → (tail ≡ last first xs) ⊎ (q.next tail ≡ last first xs)
        → 0 < count tail (first ∷ xs)
        → tail < q.fresh
        → map q.content xs ≡ rest
        → Inv (shorter tail) xs rest
    shorter-Inv tail value rest e at_end on old values =
        let long : suc (length rest) ≡ length queue = ap length e in
        record {
          chain = v.chain.2;
          values = values;
          ascending = v.ascending.1;
          head_set = v.chain.1;
          at_end = at_end;
          on = on;
          tail_old = old;
          counted = omega (arith, v.counted, long, v.bounded, v.representable);
          bounded = omega (arith, long, v.bounded);
          representable = v.representable;
        }

    -- The tail that is left: the first node, if the tail had been the dummy before it.
    abbrev new_tail : ℕ
    new_tail = if q.tail == q.head then first else q.tail

    takes_first :
        (fuel : ℕ) (fails : List Bool)
        → length fails + 2 < fuel
        → dequeue_loop fuel fails q q.head q.tail ≡ some (Took (record q { tail = new_tail }) first)
    takes_first fuel fails h = elim (ℕ_discrete q.tail q.head) [
      | yes same ↦
          ap (dequeue_loop fuel fails q q.head) same
          ∙ loop_helps fuel fails q first linked.0 linked.1 same (λ e. omega (arith, linked.2, e)) h
          ∙ ap (λ t. some (Took (record q { tail = t }) first)) (ground (arith, same))
      | no apart ↦
          loop_takes fuel fails q first q.tail linked.0 linked.1 (λ e. apart (sym e)) (omega arith)
          ∙ ap (λ t. some (Took (record q { tail = t }) first)) (ground (arith, apart))
    ]

    abbrev IsEnd : ℕ → Type 0
    IsEnd t = (t ≡ last first xs) ⊎ (q.next t ≡ last first xs)

    new_tail-IsEnd : IsEnd new_tail
    new_tail-IsEnd = elim (ℕ_discrete q.tail q.head) [
      | yes same ↦ subst IsEnd {x = first} {y = new_tail} (ground (arith, same)) (
          inl (elim v.at_end [
            | inl e ↦
                absurd (omega (arith, e, same, linked.2, last_lt first xs q.fresh v.ascending.1))
            | inr e ↦ sym linked.0 ∙ ap q.next (sym same) ∙ e
          ]))
      | no apart ↦ subst IsEnd {x = q.tail} {y = new_tail} (ground (arith, apart)) v.at_end
    ]

    new_tail_on : (0 < count new_tail (first ∷ xs)) × (new_tail < q.fresh)
    new_tail_on = ground (arith, v.on, v.tail_old, last_lt first xs q.fresh v.ascending.1)

  -- `try_dequeue` with enough fuel never reads through a null pointer: on an empty queue it answers nothing and does
  -- nothing, and else it takes the first value.
  pub try_dequeue_lem :
      (q : Nodes A) (xs : List ℕ) (queue : List A)
      → Inv q xs queue
      → (fuel : ℕ) (fails : List Bool) → length fails + 2 < fuel
      → (r : Nodes A) × (try_dequeue fuel fails q ≡ some (some (head? queue, r)))
        × (r.capacity ≡ q.capacity)
        × ((ys : List ℕ) × Inv r ys (tail queue))
  unfolding try_dequeue
  try_dequeue_lem q [] [] v fuel fails h =
      let none_left : (q.size == 0) ≡ true = ground (arith, v.counted) in
      rw none_left (q, refl, refl, ([], v))
  try_dequeue_lem q [] (value ∷ rest) v fuel fails h = absurd (cc (v.values))
  try_dequeue_lem q (first ∷ xs) [] v fuel fails h = absurd (cc (v.values))
  try_dequeue_lem q (first ∷ xs) (value ∷ rest) v fuel fails h =
      let some_left : (q.size == 0) ≡ false = ground (arith, v.counted) in
      let t = new_tail q first xs (value ∷ rest) v in
      let (on, old) = new_tail_on q first xs (value ∷ rest) v in
      let first_value : q.content first ≡ value = cc (v.values) in
      let others : map q.content xs ≡ rest = cc (v.values) in
      rw (some_left, takes_first q first xs (value ∷ rest) v fuel fails h)
        (
          shorter q first xs (value ∷ rest) v t,
          ap (λ w. some (some (some w, shorter q first xs (value ∷ rest) v t))) first_value,
          refl,
          (
            xs,
            shorter-Inv q first xs (value ∷ rest) v t value rest refl
                (new_tail-IsEnd q first xs (value ∷ rest) v) on old others,
          ),
        )
