-- ===== src/Lockfree/BPlusTree/Merge/Moved.antt =====
-- What a search finds below a parent of leaves, when two neighbours change their entries among each other,
-- as in `merge_nodes`.
use async_toolkit.Base.{
  ==-false, ==-refl, Bool-cases, if◌then◌else◌, leb, ℕ, ◌+◌, ◌-◌, ◌≤◌, ◌<◌, ◌≡◌, refl, sym, ap, ◌∙◌,
  subst, ◌≢◌, ◌⊎◌, inl, inr, arith, ℕ_discrete,
}
use async_toolkit.Lockfree.BPlusTree.Arrays.{write}
use async_toolkit.Lockfree.BPlusTree.Leaf.{Leaf, IsSorted}
use async_toolkit.Lockfree.BPlusTree.Internal.{Internal}
use async_toolkit.Lockfree.BPlusTree.Siblings.Leaves.{
  Holds, IsPair, find_pair, found, Holds-find_pair,
}
use async_toolkit.Lockfree.BPlusTree.Route.{IsRoute, route, route-IsRoute}
use async_toolkit.Lockfree.BPlusTree.Merge.Parent.{
  find_below, IsParent, find_below_of_route, IsPair-at,
}

module _ {V : Type 0} where
  -- The leaves at `i` and `i + 1` and the separator between them change.
  module _ (n : Internal) (leaves leaves' : ℕ → Leaf V) (parent : IsParent n leaves) (i : ℕ)
      (inside : i < n.size) (key' : ℕ) (low' high' : Leaf V)
      (others : (m : ℕ)
        → m ≤ n.size
        → m ≢ i
        → m ≢ i + 1
        → leaves' (n.children m) ≡ leaves (n.children m))
      (at_low : leaves' (n.children i) ≡ low') (at_high : leaves' (n.children (i + 1)) ≡ high')
      (pair' : IsPair low' key' high')
      (same : (j : ℕ)
        → find_pair low' key' high' j
          ≡ find_pair (leaves (n.children i)) (n.keys i) (leaves (n.children (i + 1))) j)
      (over : 0 < i → n.keys (i - 1) < key') (under : i + 1 < n.size → key' < n.keys (i + 1)) where
    abbrev moved : Internal
    moved = record n { keys = write n.keys i key' }

    moved-IsRoute : (j p : ℕ) → IsRoute n j p → p ≢ i → p ≢ i + 1 → IsRoute moved j p
    moved-IsRoute j p r a b = record {
      bound = r.bound;
      before = λ m h. ground (arith, r.before m h, r.before (i + 1), under);
      after = λ h. ground (arith, r.after, over, parent.keys_sorted p (i - 1));
    }

    moved-IsRoute_pair :
        (j p : ℕ)
        → IsRoute n j p
        → (p ≡ i) ⊎ (p ≡ i + 1)
        → IsRoute moved j (if leb key' j then i + 1 else i)
    moved-IsRoute_pair j p r a = elim (Bool-cases (leb key' j)) [
      | inl up ↦ rw up (record {
        bound = omega arith;
        before = λ m h. ground (arith, up, a, r.before m);
        after = λ h. ground (arith, a, r.after, parent.keys_sorted i (i + 1));
      })
      | inr down ↦ rw down (record {
        bound = omega arith;
        before = λ m h. ground (arith, a, r.before m);
        after = λ h. ground (arith, down);
      })
    ]

    old_pair :
        (j p : ℕ)
        → IsRoute n j p
        → (p ≡ i) ⊎ (p ≡ i + 1)
        → find_below n leaves j
          ≡ find_pair (leaves (n.children i)) (n.keys i) (leaves (n.children (i + 1))) j
    old_pair j p r a = find_below_of_route n leaves j p r ∙ ground (arith, a, r.before i, r.after)

    moved-find_below_pair :
        (j p : ℕ)
        → IsRoute n j p
        → (p ≡ i) ⊎ (p ≡ i + 1)
        → find_below moved leaves' j ≡ find_below n leaves j
    moved-find_below_pair j p r a =
        find_below_of_route moved leaves' j _ (moved-IsRoute_pair j p r a)
        ∙ (elim (Bool-cases (leb key' j)) [
          | inl up ↦ rw (up, at_high) (sym (old_pair j p r a ∙ sym (same j) ∙ ground (arith, up)))
          | inr down ↦
              rw (down, at_low) (sym (old_pair j p r a ∙ sym (same j) ∙ ground (arith, down)))
        ])

    pub moved-find_below : (j : ℕ) → find_below moved leaves' j ≡ find_below n leaves j
    moved-find_below j =
        let p = route n j in
        let r = route-IsRoute n j in
        elim (ℕ_discrete p i) [
          | yes low ↦ moved-find_below_pair j p r (inl low)
          | no a ↦ elim (ℕ_discrete p (i + 1)) [
            | yes high ↦ moved-find_below_pair j p r (inr high)
            | no b ↦
                find_below_of_route moved leaves' j p (moved-IsRoute j p r a b)
                ∙ rw (others p r.bound a b) (sym (find_below_of_route n leaves j p r))
          ]
        ]

    -- What either new leaf holds, one of the old ones did.
    came_from :
        (j : ℕ) (v : V)
        → Holds low' j v ⊎ Holds high' j v
        → Holds (leaves (n.children i)) j v ⊎ Holds (leaves (n.children (i + 1))) j v
    came_from j v h =
        Holds-find_pair _ _ (n.keys i) j v (sym (same j) ∙ found low' high' key' j v pair' h)

    held_bounds :
        (j : ℕ) (v : V)
        → Holds (leaves (n.children i)) j v ⊎ Holds (leaves (n.children (i + 1))) j v
        → (0 < i → n.keys (i - 1) ≤ j) × (i + 1 < n.size → j < n.keys (i + 1))
    held_bounds j v (inl (m, h, k, e)) = (
      λ pos.
          let before = IsPair-at n leaves parent (i - 1) i (omega arith) (omega arith) in
          omega (arith, before.above m h, k),
      λ pos.
          let own = parent.pair i inside in
          omega (arith, own.below m h, k, parent.keys_sorted i (i + 1) (omega arith) pos),
    )
    held_bounds j v (inr (m, h, k, e)) = (
      λ pos.
          let own = parent.pair i inside in
          omega (arith, own.above m h, k, parent.keys_sorted (i - 1) i (omega arith) inside),
      λ pos. let next = parent.pair (i + 1) pos in omega (arith, next.below m h, k),
    )

    at_index :
        (m : ℕ) (l : Leaf V) → m ≡ i → leaves' (n.children i) ≡ l → leaves' (n.children m) ≡ l
    at_index m l e h = ap (λ c. leaves' (n.children c)) e ∙ h

    moved-IsSorted : (m : ℕ) → m ≤ n.size → IsSorted (leaves' (n.children m))
    moved-IsSorted m h = elim (ℕ_discrete m i) [
      | yes low ↦
          subst (λ c. IsSorted (leaves' (n.children c))) (sym low) (rw at_low pair'.low_sorted)
      | no a ↦ elim (ℕ_discrete m (i + 1)) [
        | yes high ↦
            subst (λ c. IsSorted (leaves' (n.children c))) (sym high) (rw at_high pair'.high_sorted)
        | no b ↦ rw (others m h a b) (parent.sorted m h)
      ]
    ]

    IsPair-low : (m : ℕ) → m + 1 ≡ i → IsPair (leaves (n.children m)) (n.keys m) low'
    IsPair-low m e =
        let old = IsPair-at n leaves parent m i e (omega arith) in
        record {
          low_sorted = old.low_sorted;
          high_sorted = pair'.low_sorted;
          below = old.below;
          above = λ k h.
              let from = came_from (low'.keys k) (low'.values k) (inl (k, h, refl, refl)) in
              let at : i - 1 ≡ m = omega arith in
              omega (arith, (held_bounds _ _ from).0 (omega arith), ap n.keys at);
        }

    IsPair-high : i + 1 < n.size → IsPair high' (n.keys (i + 1)) (leaves (n.children (i + 1 + 1)))
    IsPair-high inner =
        let old = parent.pair (i + 1) inner in
        record {
          low_sorted = pair'.high_sorted;
          high_sorted = old.high_sorted;
          below = λ k h.
              let from = came_from (high'.keys k) (high'.values k) (inr (k, h, refl, refl)) in
              (held_bounds _ _ from).1 inner;
          above = old.above;
        }

    moved-IsPair :
        (m : ℕ)
        → m < n.size
        → IsPair (leaves' (n.children m)) (write n.keys i key' m) (leaves' (n.children (m + 1)))
    moved-IsPair m h = elim (ℕ_discrete m i) [
      | yes here ↦
          subst
            (λ c.
              IsPair (leaves' (n.children c)) (write n.keys i key' c)
                (leaves' (n.children (c + 1))))
            (sym here) (rw (at_low, at_high, ==-refl i) pair')
      | no a ↦ elim (ℕ_discrete (m + 1) i) [
        | yes next ↦
            rw
              (
                others m (omega arith) (λ e. omega arith) (λ e. omega arith),
                at_index (m + 1) low' next at_low,
                ==-false m i a,
              )
              (IsPair-low m next)
        | no b ↦ elim (ℕ_discrete m (i + 1)) [
          | yes above ↦
              let inner : i + 1 < n.size = omega arith in
              let far = others (i + 1 + 1) (omega arith) (λ e. omega arith) (λ e. omega arith) in
              subst
                (λ c.
                  IsPair (leaves' (n.children c)) (write n.keys i key' c)
                    (leaves' (n.children (c + 1))))
                (sym above)
                (rw (at_high, far, ==-false (i + 1) i (λ e. omega arith)) (IsPair-high inner))
          | no c ↦
              rw
                (
                  others m (omega arith) a c,
                  others (m + 1) (omega arith) b (λ e. omega arith),
                  ==-false m i a,
                )
                (parent.pair m h)
        ]
      ]
    ]

    pub moved-IsParent : IsParent moved leaves'
    moved-IsParent = record {
      keys_sorted = λ a b h k. ground (
        arith,
        parent.keys_sorted a b,
        over,
        under,
        parent.keys_sorted a (i - 1),
        parent.keys_sorted (i + 1) b,
      );
      distinct = parent.distinct;
      sorted = λ m h. moved-IsSorted m h;
      pair = λ m h. moved-IsPair m h;
    }
