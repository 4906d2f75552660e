-- ===== src/Lockfree/Bounded/Enqueue.antt =====
-- `try_enqueue` of an `MPMCQueue`.
use mathlib.Core.List.{map-append}
use mathlib.Core.Path.{ap₂}
use native.Mathlib.Nat.{mod-eq_of_lt}
use async_toolkit.Base.{
  ==-false, ==-refl, Bool-cases, count-append, if◌then◌else◌, leb, length, length-append, ltb,
  ltb→lt, ◌==◌, ℕ, zero, suc, ◌+◌, ◌%◌, ◌^◌, ◌<◌, ◌≡◌, refl, sym, ap, ◌∙◌, ◌≢◌, ◌⊎◌, inl, inr, Bool,
  true, false, not, ◌&&◌, some, List, [], ◌∷◌, ◌++◌, arith,
}
use async_toolkit.Lockfree.Bounded.{update, Nodes, spurious, allocate, enqueue_loop, try_enqueue}
use async_toolkit.Lockfree.Bounded.Ends.{
  last, next-last, last_lt, count-last, last-append, Ascending-append, Chain-append, map-update,
  Inv,
}

module _ {A : Type 0} where
  abbrev Linked : Nodes A → (node end : ℕ) → Nodes A
  Linked q node end = record q { next = update q.next end node; tail = end }

  -- At the last node the loop links as soon as the exchange does not fail.
  loop_at_end :
      (fuel : ℕ) (fails : List Bool) (q : Nodes A) (node : ℕ)
      → q.next q.tail ≡ 0
      → length fails < fuel
      → (fails' : List Bool) × (enqueue_loop fuel fails q node q.tail
          ≡ some (Linked q node q.tail, q.tail, fails'))
  unfolding enqueue_loop
  loop_at_end zero fails q node e h = absurd (omega arith)
  loop_at_end (suc k) [] q node e h = ([], rw (==-refl q.tail, e) refl)
  loop_at_end (suc k) (false ∷ fs) q node e h = (fs, rw (==-refl q.tail, e) refl)
  loop_at_end (suc k) (true ∷ fs) q node e h =
      let (fs', ih) = loop_at_end k fs q node e (omega arith) in (fs', rw (==-refl q.tail, e) ih)

  -- One node before the last one, it moves the tail first.
  loop_behind :
      (fuel : ℕ) (fails : List Bool) (q : Nodes A) (node end : ℕ)
      → q.next q.tail ≡ end
      → end ≢ 0
      → q.next end ≡ 0
      → length fails + 1 < fuel
      → (fails' : List Bool) × (enqueue_loop fuel fails q node q.tail
          ≡ some (Linked q node end, end, fails'))
  unfolding enqueue_loop
  loop_behind zero fails q node end e n f h = absurd (omega arith)
  loop_behind (suc k) [] q node end e n f h =
      let (fs', ih) = loop_at_end k [] (record q { tail = end }) node f (omega arith) in
      (fs', rw (==-refl q.tail, e, ==-false end 0 n) ih)
  loop_behind (suc k) (false ∷ fs) q node end e n f h =
      let (fs', ih) = loop_at_end k fs (record q { tail = end }) node f (omega arith) in
      (fs', rw (==-refl q.tail, e, ==-false end 0 n) ih)
  loop_behind (suc k) (true ∷ fs) q node end e n f h =
      let (fs', ih) = loop_behind k fs q node end e n f (omega arith) in
      (fs', rw (==-refl q.tail, e, ==-false end 0 n) ih)

  module _ (q : Nodes A) (xs : List ℕ) (queue : List A) (v : Inv q xs queue) (value : A) where
    abbrev pub end : ℕ
    end = last q.head xs

    abbrev pub q' : Nodes A
    q' = allocate q value

    pub end_facts : (0 < end) × (end < q.fresh) × (q'.next end ≡ 0) × (q.next end ≡ 0)
    end_facts =
        let (below, above) = last_lt q.head xs q.fresh v.ascending in
        let null = next-last q.next q.head xs v.chain in
        (omega (arith, v.head_set), below, ground (arith, null), null)

    links :
        (fuel : ℕ) (fails : List Bool)
        → length fails + 1 < fuel
        → (fails' : List Bool) × (enqueue_loop fuel fails q' q.fresh q'.tail
            ≡ some (Linked q' q.fresh end, end, fails'))
    links fuel fails h = elim v.at_end [
      | inl e ↦
          let (fs', r) =
            loop_at_end fuel fails q' q.fresh (ground (arith, e, end_facts)) (omega arith) in
          (fs', r ∙ ap (λ t. some (Linked q' q.fresh t, t, fs')) e)
      | inr e ↦
          loop_behind fuel fails q' q.fresh end (ground (arith, e, v.tail_old))
            (λ z. omega (arith, end_facts.0, z)) end_facts.2 h
    ]

    -- The queue with the value at its end, where the last exchange put the tail at `tail`.
    abbrev pub longer : ℕ → Nodes A
    longer tail = record q' {
      next = update q'.next end q.fresh;
      tail = tail;
      size = (q.size + 1) % 2 ^ 64;
    }

    pub longer-Inv :
        (tail : ℕ)
        → (tail ≡ q.fresh) ⊎ (tail ≡ end)
        → length queue < q.capacity
        → Inv (longer tail) (xs ++ q.fresh ∷ []) (queue ++ value ∷ [])
    longer-Inv tail t room =
        let size = length-append queue (value ∷ []) in
        record {
          chain =
              Chain-append q.next q.head xs q.fresh (omega (arith, end_facts.1)) v.chain
                v.ascending;
          values =
              map-append (update q.content q.fresh value) xs (q.fresh ∷ [])
              ∙ ap₂ ◌++◌ (map-update q.content q.head xs q.fresh value v.ascending ∙ v.values)
                  (ground arith);
          ascending = Ascending-append q.head xs q.fresh v.ascending;
          head_set = v.head_set;
          at_end = elim t [
            | inl e ↦ inl (e ∙ sym (last-append q.head q.fresh xs))
            | inr e ↦ inr (ground (arith, e) ∙ sym (last-append q.head q.fresh xs))
          ];
          on = elim t [
            | inl e ↦ ground (arith, e, count-append tail xs (q.fresh ∷ []))
            | inr e ↦ ground (arith, e, count-append tail xs (q.fresh ∷ []), count-last q.head xs)
          ];
          tail_old = elim t [ inl e ↦ omega (arith, e) | inr e ↦ omega (arith, e, end_facts.1) ];
          counted =
              mod-eq_of_lt (omega (arith, v.counted, v.bounded, v.representable))
              ∙ omega (arith, v.counted, size);
          bounded = omega (arith, size);
          representable = v.representable;
        }

    -- `try_enqueue` with enough fuel answers `false` and does nothing exactly when the queue is full, and else puts the
    -- value at the end of it.
    pub try_enqueue_lem :
        (fuel : ℕ) (fails : List Bool)
        → length fails + 1 < fuel
        → (r : Nodes A) × (try_enqueue fuel fails q value ≡ some (ltb (length queue) q.capacity, r))
          × (r.capacity ≡ q.capacity)
          × ((ys : List ℕ) × Inv r ys
                (if ltb (length queue) q.capacity then queue ++ value ∷ [] else queue))
    unfolding try_enqueue
    try_enqueue_lem fuel fails h = elim (Bool-cases (ltb (length queue) q.capacity)) [
      | inl room ↦
          let (fs', e) = links fuel fails h in
          let tail = if end == end && not (spurious fs') then q.fresh else end in
          let open_still : leb q.capacity q.size ≡ false = ground (arith, v.counted, room) in
          rw (room, open_still, e)
            (
              longer tail,
              refl,
              refl,
              (xs ++ q.fresh ∷ [], longer-Inv tail (ground arith) (ltb→lt _ _ room)),
            )
      | inr full ↦
          let closed : leb q.capacity q.size ≡ true = ground (arith, v.counted, full) in
          rw (full, closed) (q, refl, refl, (xs, v))
    ]
