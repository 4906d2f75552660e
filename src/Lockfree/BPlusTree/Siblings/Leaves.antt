-- ===== src/Lockfree/BPlusTree/Siblings/Leaves.antt =====
-- `find` over two neighbouring leaves, before and after `merge_nodes` borrows an entry or joins the leaves.
use async_toolkit.Base.{
  Bool-cases, Option-eq, if◌then◌else◌, leb, leb-false, leb-true, ◌==◌, ℕ, zero, suc, ◌+◌, ◌-◌, ◌≤◌,
  ◌<◌, ◌≡◌, refl, ◌∙◌, ◌⊎◌, inl, inr, Option, some, arith, dec_lt,
}
use async_toolkit.Lockfree.BPlusTree.Arrays.{shift_right_lem}
use async_toolkit.Lockfree.BPlusTree.Leaf.{
  Leaf, find, find_position, IsSorted, IsPosition, find_of_position,
}
use async_toolkit.Lockfree.BPlusTree.Siblings.{borrow_last}

module _ {V : Type 0} where
  -- The leaf has the value at the key.
  abbrev pub Holds : Leaf V → ℕ → V → Type 0
  Holds l key v = (i : ℕ) × (i < l.size) × (l.keys i ≡ key) × (l.values i ≡ v)

  -- Two neighbours with ascending keys, those of the low one below the separator and no others.
  pub record IsPair (low : Leaf V) (key : ℕ) (high : Leaf V) : Type 0 where
    pub low_sorted : IsSorted low
    pub high_sorted : IsSorted high
    pub below : (i : ℕ) → i < low.size → low.keys i < key
    pub above : (i : ℕ) → i < high.size → key ≤ high.keys i

  -- What a search that is sent by the separator finds.
  abbrev pub find_pair : Leaf V → ℕ → Leaf V → ℕ → Option V
  find_pair low key high j = if leb key j then find high j else find low j

  pub find-Holds : (l : Leaf V) (j : ℕ) (v : V) → IsSorted l → Holds l j v → find l j ≡ some v
  find-Holds l j v sorted (i, h, k, e) =
      let here : IsPosition l j i = record {
        bound = omega arith;
        before = λ m lt. omega (arith, sorted m i lt h, k);
        at = λ _. omega (arith, k);
      } in
      find_of_position l j i here ∙ ground arith

  pub Holds-find : (l : Leaf V) (j : ℕ) (v : V) → find l j ≡ some v → Holds l j v
  unfolding find
  Holds-find l j v e = (find_position l j, ground arith, ground arith, ground arith)

  -- The pair finds what either leaf holds.
  find_pair-low :
      (low high : Leaf V) (key j : ℕ) (v : V)
      → IsPair low key high
      → Holds low j v
      → find_pair low key high j ≡ some v
  find_pair-low low high key j v p (i, h, k, e) =
      rw (leb-false key j (omega (arith, p.below i h, k)))
        (find-Holds low j v p.low_sorted (i, h, k, e))

  find_pair-high :
      (low high : Leaf V) (key j : ℕ) (v : V)
      → IsPair low key high
      → Holds high j v
      → find_pair low key high j ≡ some v
  find_pair-high low high key j v p (i, h, k, e) =
      rw (leb-true key j (omega (arith, p.above i h, k)))
        (find-Holds high j v p.high_sorted (i, h, k, e))

  pub found :
      (low high : Leaf V) (key j : ℕ) (v : V)
      → IsPair low key high
      → Holds low j v ⊎ Holds high j v
      → find_pair low key high j ≡ some v
  found low high key j v p (inl h) = find_pair-low low high key j v p h
  found low high key j v p (inr h) = find_pair-high low high key j v p h

  pub Holds-find_pair :
      (low high : Leaf V) (key j : ℕ) (v : V)
      → find_pair low key high j ≡ some v
      → Holds low j v ⊎ Holds high j v
  Holds-find_pair low high key j v e = elim (Bool-cases (leb key j)) [
    | inl up ↦ inr (Holds-find high j v (ground arith))
    | inr down ↦ inl (Holds-find low j v (ground arith))
  ]

  -- Two pairs that hold the same find the same.
  pub find_pair-eq :
      (low high low' high' : Leaf V) (key key' : ℕ)
      → IsPair low key high
      → IsPair low' key' high'
      → ((j : ℕ) (v : V) → Holds low j v ⊎ Holds high j v → Holds low' j v ⊎ Holds high' j v)
      → ((j : ℕ) (v : V) → Holds low' j v ⊎ Holds high' j v → Holds low j v ⊎ Holds high j v)
      → (j : ℕ) → find_pair low' key' high' j ≡ find_pair low key high j
  find_pair-eq low high low' high' key key' p p' to from j =
      Option-eq (find_pair low' key' high' j) (find_pair low key high j)
        (λ v e. found low high key j v p (from j v (Holds-find_pair low' high' key' j v e)))
        (λ v e. found low' high' key' j v p' (to j v (Holds-find_pair low high key j v e)))

  -- The node's entries come after the one that is borrowed.
  module _ (left node : Leaf V) where
    abbrev taken : Leaf V
    taken = (borrow_last left node).1

    taken_at :
        (i : ℕ)
        → i < node.size + 1
        → (taken.keys i ≡ (if i == 0 then left.keys (left.size - 1) else node.keys (i - 1)))
          × (taken.values i ≡ (if i == 0 then left.values (left.size - 1) else node.values (i - 1)))
    unfolding borrow_last
    taken_at i h = (
      ground (arith, shift_right_lem node.size node.size node.keys i),
      ground (arith, shift_right_lem node.size node.size node.values i),
    )

    borrow_last-to :
        (j : ℕ) (v : V)
        → Holds left j v ⊎ Holds node j v
        → Holds (borrow_last left node).0 j v ⊎ Holds taken j v
    unfolding borrow_last
    borrow_last-to j v (inl (i, h, k, e)) = elim (dec_lt i (left.size - 1)) [
      | yes low ↦ inl (i, low, k, e)
      | no last ↦
          let same : i ≡ left.size - 1 = omega arith in
          inr (0, omega arith, ground (arith, taken_at 0), ground (arith, taken_at 0))
    ]
    borrow_last-to j v (inr (i, h, k, e)) =
        inr (i + 1, omega arith, ground (arith, taken_at (i + 1)), ground (arith, taken_at (i + 1)))

    borrow_last-from :
        0 < left.size
        → (j : ℕ) (v : V) → Holds (borrow_last left node).0 j v ⊎ Holds taken j v
        → Holds left j v ⊎ Holds node j v
    unfolding borrow_last
    borrow_last-from pos j v (inl (i, h, k, e)) = inl (i, omega arith, k, e)
    borrow_last-from pos j v (inr (zero, h, k, e)) =
        inl (left.size - 1, omega arith, ground (arith, taken_at 0), ground (arith, taken_at 0))
    borrow_last-from pos j v (inr (suc i, h, k, e)) =
        inr (i, omega arith, ground (arith, taken_at (suc i)), ground (arith, taken_at (suc i)))

    module _ (key : ℕ) (p : IsPair left key node) (pos : 0 < left.size) where
      borrow_last-IsPair :
          IsPair
            (borrow_last left node).0
            ((borrow_last left node).1.keys 0)
            (borrow_last left node).1
      unfolding borrow_last
      borrow_last-IsPair = record {
        low_sorted = λ i j h k. p.low_sorted i j h (omega arith);
        high_sorted = λ i j h k. ground (
          arith,
          taken_at i (omega arith),
          taken_at j k,
          p.high_sorted (i - 1) (j - 1),
          p.below (left.size - 1),
          p.above (j - 1),
        );
        below = λ i h. ground (arith, taken_at 0, p.low_sorted i (left.size - 1));
        above = λ i h.
            ground (arith, taken_at 0, taken_at i h, p.below (left.size - 1), p.above (i - 1));
      }

  -- When a node's left sibling lends its last entry, the two stay a pair for the new separator, which is
  -- the first key of the node; a search over the pair finds at each key what it found before; and one
  -- entry has moved.
  pub borrow_last_lem :
      (left : Leaf V) (key : ℕ) (node : Leaf V)
      → IsPair left key node
      → 0 < left.size
      → let (left', node') = borrow_last left node in
        IsPair left' (node'.keys 0) node'
        × ((j : ℕ) → find_pair left' (node'.keys 0) node' j ≡ find_pair left key node j)
        × (left'.size + 1 ≡ left.size)
        × (node'.size ≡ node.size + 1)
  unfolding borrow_last
  borrow_last_lem left key node p pos =
      let pair = borrow_last-IsPair left node key p pos in
      (
        pair,
        find_pair-eq left node _ _ key _ p pair (borrow_last-to left node)
            (borrow_last-from left node pos),
        omega arith,
        refl,
      )
