-- ===== src/Lockfree/BPlusTree/Siblings/Right.antt =====
-- `find` over a leaf and its right sibling, before and after `merge_nodes` borrows an entry from the sibling,
-- and over two leaves that it joins.
use async_toolkit.Base.{
  Option-eq, if◌then◌else◌, leb, ltb, ℕ, zero, suc, ◌+◌, ◌-◌, ◌<◌, ◌≡◌, refl, ◌⊎◌, inl, inr, ◌&&◌,
  arith, dec_lt,
}
use async_toolkit.Lockfree.BPlusTree.Arrays.{shift_left_lem, copy_lem}
use async_toolkit.Lockfree.BPlusTree.Leaf.{Leaf, find, IsSorted}
use async_toolkit.Lockfree.BPlusTree.Siblings.{borrow_first, join_leaves}
use async_toolkit.Lockfree.BPlusTree.Siblings.Leaves.{
  Holds, IsPair, find_pair, find-Holds, Holds-find, found, Holds-find_pair, find_pair-eq,
}

module _ {V : Type 0} where
  module _ (node right : Leaf V) where
    rest_at :
        (i : ℕ)
        → i + 1 < right.size
        → ((borrow_first node right).1.keys i ≡ right.keys (i + 1))
          × ((borrow_first node right).1.values i ≡ right.values (i + 1))
    unfolding borrow_first
    rest_at i h = (
      ground (arith, shift_left_lem (right.size - 1) 0 right.keys i),
      ground (arith, shift_left_lem (right.size - 1) 0 right.values i),
    )

    borrow_first-to :
        (j : ℕ) (v : V)
        → Holds node j v ⊎ Holds right j v
        → Holds (borrow_first node right).0 j v ⊎ Holds (borrow_first node right).1 j v
    unfolding borrow_first
    borrow_first-to j v (inl (i, h, k, e)) = inl (i, omega arith, ground arith, ground arith)
    borrow_first-to j v (inr (zero, h, k, e)) =
        inl (node.size, omega arith, ground arith, ground arith)
    borrow_first-to j v (inr (suc i, h, k, e)) =
        inr (i, omega arith, ground (arith, rest_at i), ground (arith, rest_at i))

    borrow_first-from :
        0 < right.size
        → (j : ℕ) (v : V)
        → Holds (borrow_first node right).0 j v ⊎ Holds (borrow_first node right).1 j v
        → Holds node j v ⊎ Holds right j v
    unfolding borrow_first
    borrow_first-from pos j v (inl (i, h, k, e)) = elim (dec_lt i node.size) [
      | yes old ↦ inl (i, old, ground arith, ground arith)
      | no new ↦ inr (0, pos, ground arith, ground arith)
    ]
    borrow_first-from pos j v (inr (i, h, k, e)) =
        inr (i + 1, omega arith, ground (arith, rest_at i), ground (arith, rest_at i))

    borrow_first-IsPair :
        (key : ℕ)
        → IsPair node key right
        → 1 < right.size
        → IsPair
            (borrow_first node right).0
            ((borrow_first node right).1.keys 0)
            (borrow_first node right).1
    unfolding borrow_first
    borrow_first-IsPair key p pos = record {
      low_sorted = λ i j h k. ground (arith, p.low_sorted i j, p.below i, p.above 0);
      high_sorted = λ i j h k.
          ground (
            arith,
            rest_at i (omega arith),
            rest_at j (omega arith),
            p.high_sorted (i + 1) (j + 1),
          );
      below = λ i h. ground (arith, rest_at 0, p.below i, p.above 1, p.high_sorted 0 1);
      above = λ i h. ground (arith, rest_at 0, rest_at i (omega arith), p.high_sorted 1 (i + 1));
    }

  -- When a node's right sibling, which has more than one entry, lends its first one, the two stay a pair
  -- for the new separator, which is the sibling's new first key; a search over the pair finds at each
  -- key what it found before; and one entry has moved.
  pub borrow_first_lem :
      (node : Leaf V) (key : ℕ) (right : Leaf V)
      → IsPair node key right
      → 1 < right.size
      → let (node', right') = borrow_first node right in
        IsPair node' (right'.keys 0) right'
        × ((j : ℕ) → find_pair node' (right'.keys 0) right' j ≡ find_pair node key right j)
        × (node'.size ≡ node.size + 1)
        × (right'.size + 1 ≡ right.size)
  unfolding borrow_first
  borrow_first_lem node key right p pos =
      let pair = borrow_first-IsPair node right key p pos in
      (
        pair,
        find_pair-eq node right _ _ key _ p pair (borrow_first-to node right)
            (borrow_first-from node right (omega arith)),
        refl,
        omega arith,
      )

  module _ (left right : Leaf V) where
    joined_at :
        (i : ℕ)
        → ((join_leaves left right).keys i ≡ (
            if leb left.size i && ltb i (left.size + right.size)
            then right.keys (i - left.size)
            else left.keys i))
          × ((join_leaves left right).values i ≡ (
              if leb left.size i && ltb i (left.size + right.size)
              then right.values (i - left.size)
              else left.values i))
    unfolding join_leaves
    joined_at i = (
      ground (arith, copy_lem right.size 0 left.size right.keys left.keys i),
      ground (arith, copy_lem right.size 0 left.size right.values left.values i),
    )

    join_leaves-to :
        (j : ℕ) (v : V) → Holds left j v ⊎ Holds right j v → Holds (join_leaves left right) j v
    unfolding join_leaves
    join_leaves-to j v (inl (i, h, k, e)) =
        (i, omega arith, ground (arith, joined_at i), ground (arith, joined_at i))
    join_leaves-to j v (inr (i, h, k, e)) = (
      left.size + i,
      omega arith,
      ground (arith, joined_at (left.size + i)),
      ground (arith, joined_at (left.size + i)),
    )

    join_leaves-from :
        (j : ℕ) (v : V) → Holds (join_leaves left right) j v → Holds left j v ⊎ Holds right j v
    unfolding join_leaves
    join_leaves-from j v (i, h, k, e) = elim (dec_lt i left.size) [
      | yes old ↦ inl (i, old, ground (arith, joined_at i), ground (arith, joined_at i))
      | no new ↦
          inr (i - left.size, omega arith, ground (arith, joined_at i), ground (arith, joined_at i))
    ]

    join_leaves-IsSorted : (key : ℕ) → IsPair left key right → IsSorted (join_leaves left right)
    unfolding join_leaves
    join_leaves-IsSorted key p i j h k = ground (
      arith,
      joined_at i,
      joined_at j,
      p.low_sorted i j,
      p.high_sorted (i - left.size) (j - left.size),
      p.below i,
      p.above (j - left.size),
    )

  -- Two neighbouring leaves that are joined give a leaf with ascending keys and with all their entries, that
  -- takes the right one's place in the list of leaves, and `find` gives in it at each key what a search
  -- over the pair found.
  pub join_leaves_lem :
      (left : Leaf V) (key : ℕ) (right : Leaf V)
      → IsPair left key right
      → let joined = join_leaves left right in
        IsSorted joined
        × ((j : ℕ) → find joined j ≡ find_pair left key right j)
        × (joined.size ≡ left.size + right.size)
        × (joined.next_leaf ≡ right.next_leaf)
  unfolding join_leaves
  join_leaves_lem left key right p =
      let sorted = join_leaves-IsSorted left right key p in
      (
        sorted,
        λ j.
            Option-eq (find (join_leaves left right) j) (find_pair left key right j)
              (λ v e.
                found left right key j v p (join_leaves-from left right j v (Holds-find _ j v e)))
              (λ v e.
                find-Holds _ j v sorted
                  (join_leaves-to left right j v (Holds-find_pair left right key j v e))),
        refl,
        refl,
      )
