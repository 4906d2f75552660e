-- ===== src/Lockfree/BPlusTree/Merge/Joined.antt =====
-- What a search finds below a parent of leaves after two neighbours are joined, as in `merge_nodes`.
use async_toolkit.Base.{
  if◌then◌else◌, leb, ltb, ltb-false, lt→ltb, ℕ, ◌+◌, ◌-◌, ◌≤◌, ◌<◌, ◌≡◌, refl, sym, ap, ◌∙◌, subst,
  ◌≢◌, ◌⊎◌, inl, inr, arith, dec_lt, ℕ_discrete,
}
use async_toolkit.Lockfree.BPlusTree.Arrays.{shift_left_lem}
use async_toolkit.Lockfree.BPlusTree.Leaf.{Leaf, find, IsSorted}
use async_toolkit.Lockfree.BPlusTree.Internal.{Internal}
use async_toolkit.Lockfree.BPlusTree.Siblings.{remove_child}
use async_toolkit.Lockfree.BPlusTree.Siblings.Leaves.{
  IsPair, find_pair, find-Holds, Holds-find_pair,
}
use async_toolkit.Lockfree.BPlusTree.Route.{IsRoute, route, route-IsRoute}
use async_toolkit.Lockfree.BPlusTree.Merge.Parent.{
  find_below, IsParent, find_below_of_route, IsPair-at,
}

-- The entries of the parent that are left.
module _ (n : Internal) (i : ℕ) where
  pub left_key :
      (m : ℕ)
      → m + 1 < n.size
      → (remove_child n i).keys m ≡ (if ltb m i then n.keys m else n.keys (m + 1))
  unfolding remove_child
  left_key m h = ground (arith, shift_left_lem (n.size - 1 - i) i n.keys m)

  pub left_child :
      (m : ℕ)
      → m < n.size
      → (remove_child n i).children m ≡ (if leb m i then n.children m else n.children (m + 1))
  unfolding remove_child
  left_child m h = ground (arith, shift_left_lem (n.size - 1 - i) (i + 1) n.children m)

  pub left_size : 0 < n.size → (remove_child n i).size + 1 ≡ n.size
  unfolding remove_child
  left_size h = omega arith

-- Each child that is left was one before.
pub fewer_child :
    (n : Internal) (i m : ℕ)
    → i < n.size
    → m ≤ (remove_child n i).size
    → (k : ℕ) × (k ≤ n.size) × ((remove_child n i).children m ≡ n.children k)
fewer_child n i m h k =
    let size = left_size n i (omega arith) in
    (if leb m i then m else m + 1, ground (arith, size), ground (arith, left_child n i m, size))

module _ {V : Type 0} (n : Internal) (leaves leaves' : ℕ → Leaf V) (parent : IsParent n leaves)
    (i : ℕ) (inside : i < n.size) (joined : Leaf V)
    (others : (m : ℕ)
      → m ≤ n.size
      → m ≢ i
      → m ≢ i + 1
      → leaves' (n.children m) ≡ leaves (n.children m))
    (at_low : leaves' (n.children i) ≡ joined) (sorted : IsSorted joined)
    (same : (j : ℕ)
      → find joined j
        ≡ find_pair (leaves (n.children i)) (n.keys i) (leaves (n.children (i + 1))) j) where
  abbrev fewer : Internal
  fewer = remove_child n i

  fewer_size : fewer.size + 1 ≡ n.size
  fewer_size = left_size n i (omega arith)

  -- Where a position of the parent goes.
  abbrev place : ℕ → ℕ
  place p = if leb p i then p else p - 1

  fewer-IsRoute : (j p : ℕ) → IsRoute n j p → IsRoute fewer j (place p)
  fewer-IsRoute j p r = record {
    bound = ground (arith, r.bound, fewer_size);
    before = λ m h. ground (arith, r.before m, r.before (m + 1), left_key n i m, r.bound);
    after = λ h.
        ground (arith, r.after, left_key n i (place p), fewer_size, parent.keys_sorted p (p + 1));
  }

  leaf_low : (m : ℕ) → m < i → leaves' (fewer.children m) ≡ leaves (n.children m)
  leaf_low m h =
      ap leaves' (left_child n i m (omega arith) ∙ ground arith)
      ∙ others m (omega arith) (λ e. omega arith) (λ e. omega arith)

  leaf_mid : leaves' (fewer.children i) ≡ joined
  leaf_mid = ap leaves' (left_child n i i inside ∙ ground arith) ∙ at_low

  leaf_high :
      (m : ℕ) → i < m → m < n.size → leaves' (fewer.children m) ≡ leaves (n.children (m + 1))
  leaf_high m h k =
      ap leaves' (left_child n i m k ∙ ground arith)
      ∙ others (m + 1) (omega arith) (λ e. omega arith) (λ e. omega arith)

  below_joined :
      (j p : ℕ)
      → IsRoute n j p
      → place p ≡ i
      → (p ≡ i) ⊎ (p ≡ i + 1)
      → find (leaves' (fewer.children (place p))) j ≡ find (leaves (n.children p)) j
  below_joined j p r e at =
      ap (λ c. find (leaves' (fewer.children c)) j) e
      ∙ ap (λ l. find l j) leaf_mid
      ∙ same j
      ∙ ground (arith, at, r.before i, r.after)

  below_other :
      (j p : ℕ)
      → IsRoute n j p
      → p ≢ i
      → p ≢ i + 1
      → find (leaves' (fewer.children (place p))) j ≡ find (leaves (n.children p)) j
  below_other j p r a b = elim (dec_lt p i) [
    | yes low ↦
        ap (λ c. find (leaves' (fewer.children c)) j) (ground (arith, low))
        ∙ ap (λ l. find l j) (leaf_low p low)
    | no high ↦
        let at : place p + 1 ≡ p = ground (arith, high, a) in
        ap (λ l. find l j)
          (leaf_high (place p) (ground (arith, high, a, b)) (omega (arith, r.bound)))
        ∙ ap (λ c. find (leaves (n.children c)) j) at
  ]

  -- A search through the parent finds what it found before.
  pub fewer-find_below : (j : ℕ) → find_below fewer leaves' j ≡ find_below n leaves j
  fewer-find_below j =
      let p = route n j in
      let r = route-IsRoute n j in
      find_below_of_route fewer leaves' j (place p) (fewer-IsRoute j p r)
      ∙ (elim (ℕ_discrete p i) [
        | yes e ↦ below_joined j p r (ground (arith, e)) (inl e)
        | no a ↦ elim (ℕ_discrete p (i + 1)) [
          | yes e ↦ below_joined j p r (ground (arith, e)) (inr e)
          | no b ↦ below_other j p r a b
        ]
      ])
      ∙ sym (find_below_of_route n leaves j p r)

  fewer-IsSorted : (m : ℕ) → m < n.size → IsSorted (leaves' (fewer.children m))
  fewer-IsSorted m h = elim (dec_lt m i) [
    | yes low ↦ rw (leaf_low m low) (parent.sorted m (omega arith))
    | no a ↦ elim (ℕ_discrete m i) [
      | yes e ↦ subst (λ c. IsSorted (leaves' (fewer.children c))) (sym e) (rw leaf_mid sorted)
      | no b ↦ rw (leaf_high m (omega arith) h) (parent.sorted (m + 1) (omega arith))
    ]
  ]

  -- The joined leaf has only entries of the two leaves.
  held :
      (k : ℕ)
      → k < joined.size
      → (0 < i → n.keys (i - 1) ≤ joined.keys k) × (i + 1 < n.size → joined.keys k < n.keys (i + 1))
  held k h =
      let e =
        sym (same (joined.keys k))
        ∙ find-Holds joined (joined.keys k) (joined.values k) sorted (k, h, refl, refl) in
      let own = parent.pair i inside in
      elim (Holds-find_pair _ _ (n.keys i) (joined.keys k) (joined.values k) e) [
        | inl (m, a, b, c) ↦ (
          λ pos. omega (
            arith,
            (IsPair-at n leaves parent (i - 1) i (omega arith) (omega arith)).above m a,
            b,
          ),
          λ pos. omega (arith, own.below m a, b, parent.keys_sorted i (i + 1) (omega arith) pos),
        )
        | inr (m, a, b, c) ↦ (
          λ pos. omega (arith, own.above m a, b, parent.keys_sorted (i - 1) i (omega arith) inside),
          λ pos. omega (arith, (parent.pair (i + 1) pos).below m a, b),
        )
      ]

  IsPair-low : (m : ℕ) → m + 1 ≡ i → IsPair (leaves (n.children m)) (n.keys m) joined
  IsPair-low m e =
      let old = IsPair-at n leaves parent m i e (omega arith) in
      let at : i - 1 ≡ m = omega arith in
      record {
        low_sorted = old.low_sorted;
        high_sorted = sorted;
        below = old.below;
        above = λ k h. omega (arith, (held k h).0 (omega arith), ap n.keys at);
      }

  IsPair-high : i + 1 < n.size → IsPair joined (n.keys (i + 1)) (leaves (n.children (i + 1 + 1)))
  IsPair-high inner =
      let old = parent.pair (i + 1) inner in
      record {
        low_sorted = sorted;
        high_sorted = old.high_sorted;
        below = λ k h. (held k h).1 inner;
        above = old.above;
      }

  fewer-IsPair :
      (m : ℕ)
      → m + 1 < n.size
      → IsPair (leaves' (fewer.children m)) (fewer.keys m) (leaves' (fewer.children (m + 1)))
  fewer-IsPair m h = elim (ℕ_discrete (m + 1) i) [
    | yes next ↦
        let mid : leaves' (fewer.children (m + 1)) ≡ joined =
          ap (λ c. leaves' (fewer.children c)) next ∙ leaf_mid in
        rw (leaf_low m (omega arith), mid, left_key n i m h, lt→ltb m i (omega arith))
          (IsPair-low m next)
    | no a ↦ elim (ℕ_discrete m i) [
      | yes here ↦
          subst
            (λ c.
              IsPair (leaves' (fewer.children c)) (fewer.keys c) (leaves' (fewer.children (c + 1))))
            (sym here)
            (rw
              (
                leaf_mid,
                leaf_high (i + 1) (omega arith) (omega arith),
                left_key n i i (omega arith),
                ltb-false i i (omega arith),
              )
              (IsPair-high (omega arith)))
      | no b ↦ elim (dec_lt m i) [
        | yes low ↦
            rw (leaf_low m low, leaf_low (m + 1) (omega arith), left_key n i m h, lt→ltb m i low)
              (parent.pair m (omega arith))
        | no high ↦
            rw
              (
                leaf_high m (omega arith) (omega arith),
                leaf_high (m + 1) (omega arith) h,
                left_key n i m h,
                ltb-false m i (omega arith),
              )
              (parent.pair (m + 1) h)
      ]
    ]
  ]

  fewer-distinct : (a b : ℕ) → a < b → b < n.size → fewer.children a ≢ fewer.children b
  fewer-distinct a b h k e =
      parent.distinct (if leb a i then a else a + 1) (if leb b i then b else b + 1) (ground arith)
        (ground arith) (ground (arith, left_child n i a, left_child n i b, e))

  -- The parent stays one.
  pub fewer-IsParent : IsParent fewer leaves'
  fewer-IsParent = record {
    keys_sorted = λ a b h k. ground (
      arith,
      left_key n i a,
      left_key n i b,
      fewer_size,
      parent.keys_sorted a b,
      parent.keys_sorted a (b + 1),
      parent.keys_sorted (a + 1) (b + 1),
    );
    distinct = λ a b h k. fewer-distinct a b h (omega (arith, fewer_size));
    sorted = λ m h. fewer-IsSorted m (omega (arith, fewer_size));
    pair = λ m h. fewer-IsPair m (omega (arith, fewer_size));
  }
