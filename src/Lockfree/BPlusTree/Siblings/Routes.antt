-- ===== src/Lockfree/BPlusTree/Siblings/Routes.antt =====
-- Where a search goes from two neighbouring internal nodes, before and after `merge_internal_node` joins
-- them.
use async_toolkit.Base.{
  Bool-cases, if◌then◌else◌, leb, ltb, ◌==◌, ℕ, ◌+◌, ◌-◌, ◌≤◌, ◌<◌, ◌≡◌, refl, sym, ◌∙◌, inl, inr,
  true, false, ◌&&◌, arith,
}
use async_toolkit.Lockfree.BPlusTree.Arrays.{write, copy_lem}
use async_toolkit.Lockfree.BPlusTree.Internal.{Internal, find_child}
use async_toolkit.Lockfree.BPlusTree.Siblings.{join_internals}
use async_toolkit.Lockfree.BPlusTree.Route.{IsRoute, route, route-IsRoute, find_child_of_route}

-- The child to which the separator and the two nodes send the key.
abbrev pub child_of_pair : Internal → ℕ → Internal → ℕ → ℕ
child_of_pair left key right j = if leb key j then find_child right j else find_child left j

abbrev pub IsSorted : Internal → Type 0
IsSorted n = (i j : ℕ) → i < j → j < n.size → n.keys i < n.keys j

pub child_of_pair_right :
    (left right : Internal) (key j q : ℕ)
    → leb key j ≡ true
    → IsRoute right j q
    → child_of_pair left key right j ≡ right.children q
child_of_pair_right left right key j q up r = rw up (find_child_of_route right j q r)

pub child_of_pair_left :
    (left right : Internal) (key j p : ℕ)
    → leb key j ≡ false
    → IsRoute left j p
    → child_of_pair left key right j ≡ left.children p
child_of_pair_left left right key j p down r = rw down (find_child_of_route left j p r)

module _ (left : Internal) (down : ℕ) (node : Internal)
    (below : (i : ℕ) → i < left.size → left.keys i ≤ down) where
  joined_key :
      (i : ℕ)
      → (join_internals left down node).keys i ≡ (
          if leb (left.size + 1) i && ltb i (left.size + 1 + node.size)
          then node.keys (i - (left.size + 1))
          else if i == left.size
          then down
          else left.keys i)
  unfolding join_internals
  joined_key i =
      ground
        (arith, copy_lem node.size 0 (left.size + 1) node.keys (write left.keys left.size down) i)

  joined_child :
      (i : ℕ)
      → i ≤ left.size + 1 + node.size
      → (join_internals left down node).children i
        ≡ (if leb (left.size + 1) i then node.children (i - (left.size + 1)) else left.children i)
  unfolding join_internals
  joined_child i h =
      ground (arith, copy_lem node.size 0 (left.size + 1) node.children left.children i)

  joined_size : (join_internals left down node).size ≡ left.size + 1 + node.size
  unfolding join_internals
  joined_size = refl

  -- Two neighbours that are joined, with their separator between their keys, send each key to the child
  -- where it went before, if no key of the left one is above the separator; the number of keys is theirs
  -- and one more.
  pub join_internals_lem :
      ((j : ℕ) → find_child (join_internals left down node) j ≡ child_of_pair left down node j)
      × ((join_internals left down node).size ≡ left.size + 1 + node.size)
  join_internals_lem = (
    λ j. elim (Bool-cases (leb down j)) [
      | inl up ↦
          let q = route node j in
          let r = route-IsRoute node j in
          find_child_of_route _ j (left.size + 1 + q) (record {
            bound = omega (arith, joined_size, r.bound);
            before = λ i h.
                ground (arith, joined_key i, below i, up, r.bound, r.before (i - (left.size + 1)));
            after = λ h. ground (arith, joined_key (left.size + 1 + q), joined_size, r.after);
          })
          ∙ ground (arith, joined_child (left.size + 1 + q), r.bound)
          ∙ sym (child_of_pair_right left node down j q up r)
      | inr under ↦
          let p = route left j in
          let r = route-IsRoute left j in
          find_child_of_route _ j p (record {
            bound = omega (arith, joined_size, r.bound);
            before = λ i h. ground (arith, joined_key i, r.bound, r.before i);
            after = λ h. ground (arith, joined_key p, r.bound, r.after, under);
          })
          ∙ ground (arith, joined_child p, r.bound)
          ∙ sym (child_of_pair_left left node down j p under r)
    ],
    joined_size,
  )
