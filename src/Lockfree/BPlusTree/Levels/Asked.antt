-- ===== src/Lockfree/BPlusTree/Levels/Asked.antt =====
-- What the children of a node answer to a key that is sent down to them, when two neighbours change or are joined.
use async_toolkit.Base.{
  Bool-cases, if◌then◌else◌, ltb, leb, ℕ, ◌+◌, ◌-◌, ◌≤◌, ◌<◌, ◌≡◌, sym, ap, ◌∙◌, ◌≢◌, ◌⊎◌, inl, inr,
  arith, ℕ_discrete,
}
use async_toolkit.Lockfree.BPlusTree.Arrays.{shift_left_lem}
use async_toolkit.Lockfree.BPlusTree.Internal.{Internal, find_child}
use async_toolkit.Lockfree.BPlusTree.Siblings.{remove_child}
use async_toolkit.Lockfree.BPlusTree.Siblings.Routes.{IsSorted}
use async_toolkit.Lockfree.BPlusTree.Route.{IsRoute, route, route-IsRoute, find_child_of_route}
use async_toolkit.Lockfree.BPlusTree.Merge.{set_key}

-- Children answer by `ask` before and by `ask'` after; those at `i` and `i + 1` change.
module _ (n : Internal) (sorted : IsSorted n) (ask ask' : ℕ → ℕ → ℕ) (i : ℕ) (inside : i < n.size)
    (others : (m j : ℕ)
      → m ≤ n.size
      → m ≢ i
      → m ≢ i + 1
      → ask' (n.children m) j ≡ ask (n.children m) j) where
  -- The answer of the two before.
  abbrev pub pair : ℕ → ℕ
  pair j = if leb (n.keys i) j then ask (n.children (i + 1)) j else ask (n.children i) j

  of_pair : (j p : ℕ) → IsRoute n j p → (p ≡ i) ⊎ (p ≡ i + 1) → ask (n.children p) j ≡ pair j
  of_pair j p r a = ground (arith, a, r.before i, r.after)

  asked :
      (m : Internal) (ask'' : ℕ → ℕ → ℕ) (j p : ℕ)
      → IsRoute m j p
      → ask'' (find_child m j) j ≡ ask'' (m.children p) j
  asked m ask'' j p r = ap (λ c. ask'' c j) (find_child_of_route m j p r)

  -- The separator between them moves.
  module _ (key' : ℕ)
      (same : (j : ℕ)
        → (if leb key' j then ask' (n.children (i + 1)) j else ask' (n.children i) j) ≡ pair j)
      (over : 0 < i → n.keys (i - 1) < key') (under : i + 1 < n.size → key' < n.keys (i + 1)) where
    moved_other-IsRoute :
        (j p : ℕ) → IsRoute n j p → p ≢ i → p ≢ i + 1 → IsRoute (set_key n i key') j p
    moved_other-IsRoute j p r a b = record {
      bound = r.bound;
      before = λ m h. ground (arith, r.before m h, r.before (i + 1), under);
      after = λ h. ground (arith, r.after, over, sorted p (i - 1));
    }

    moved_pair-IsRoute :
        (j p : ℕ)
        → IsRoute n j p
        → (p ≡ i) ⊎ (p ≡ i + 1)
        → IsRoute (set_key n i key') j (if leb key' j then i + 1 else i)
    moved_pair-IsRoute j p r a = elim (Bool-cases (leb key' j)) [
      | inl up ↦ rw up (record {
        bound = omega arith;
        before = λ m h. ground (arith, up, a, r.before m);
        after = λ h. ground (arith, a, r.after, sorted i (i + 1));
      })
      | inr down ↦ rw down (record {
        bound = omega arith;
        before = λ m h. ground (arith, a, r.before m);
        after = λ h. ground (arith, down);
      })
    ]

    moved_pair :
        (j p : ℕ)
        → IsRoute n j p
        → (p ≡ i) ⊎ (p ≡ i + 1)
        → ask' (find_child (set_key n i key') j) j ≡ ask (find_child n j) j
    moved_pair j p r a =
        asked (set_key n i key') ask' j _ (moved_pair-IsRoute j p r a)
        ∙ ground arith
        ∙ same j
        ∙ sym (of_pair j p r a)
        ∙ sym (asked n ask j p r)

    pub moved_asked : (j : ℕ) → ask' (find_child (set_key n i key') j) j ≡ ask (find_child n j) j
    moved_asked j =
        let p = route n j in
        let r = route-IsRoute n j in
        elim (ℕ_discrete p i) [
          | yes low ↦ moved_pair j p r (inl low)
          | no a ↦ elim (ℕ_discrete p (i + 1)) [
            | yes high ↦ moved_pair j p r (inr high)
            | no b ↦
                asked (set_key n i key') ask' j p (moved_other-IsRoute j p r a b)
                ∙ others p j r.bound a b
                ∙ sym (asked n ask j p r)
          ]
        ]

  -- The child at `i` stands for both, and the other one is gone.
  module _ (same : (j : ℕ) → ask' (n.children i) j ≡ pair j) where
    abbrev fewer : Internal
    fewer = remove_child n i

    fewer_key :
        (m : ℕ) → m + 1 < n.size → fewer.keys m ≡ (if ltb m i then n.keys m else n.keys (m + 1))
    unfolding remove_child
    fewer_key m h = ground (arith, shift_left_lem (n.size - 1 - i) i n.keys m)

    fewer_child :
        (m : ℕ)
        → m < n.size
        → fewer.children m ≡ (if leb m i then n.children m else n.children (m + 1))
    unfolding remove_child
    fewer_child m h = ground (arith, shift_left_lem (n.size - 1 - i) (i + 1) n.children m)

    fewer_size : fewer.size + 1 ≡ n.size
    unfolding remove_child
    fewer_size = omega arith

    abbrev place : ℕ → ℕ
    place p = if leb p i then p else p - 1

    place-IsRoute : (j p : ℕ) → IsRoute n j p → IsRoute fewer j (place p)
    place-IsRoute j p r = record {
      bound = ground (arith, r.bound, fewer_size);
      before = λ m h. ground (arith, r.before m, r.before (m + 1), fewer_key m, r.bound);
      after = λ h. ground (arith, r.after, fewer_key (place p), fewer_size, sorted p (p + 1));
    }

    at_place : (j p : ℕ) → IsRoute n j p → ask' (fewer.children (place p)) j ≡ ask (n.children p) j
    at_place j p r = elim (ℕ_discrete p i) [
      | yes e ↦
          ap (λ c. ask' c j) (ground (arith, fewer_child i, e))
          ∙ same j
          ∙ sym (of_pair j p r (inl e))
      | no a ↦ elim (ℕ_discrete p (i + 1)) [
        | yes e ↦
            ap (λ c. ask' c j) (ground (arith, fewer_child i, e))
            ∙ same j
            ∙ sym (of_pair j p r (inr e))
        | no b ↦
            ap (λ c. ask' c j) (ground (arith, fewer_child (place p), r.bound, a, b))
            ∙ others p j r.bound a b
      ]
    ]

    pub fewer_asked : (j : ℕ) → ask' (find_child fewer j) j ≡ ask (find_child n j) j
    fewer_asked j =
        let p = route n j in
        let r = route-IsRoute n j in
        asked fewer ask' j (place p) (place-IsRoute j p r)
        ∙ at_place j p r
        ∙ sym (asked n ask j p r)
