-- ===== src/Lockfree/BPlusTree/Leaf/Remove.antt =====
-- `LeafNode::remove` on a leaf with ascending keys.
use async_toolkit.Base.{
  Bool-cases, if◌then◌else◌, leb, ltb, ◌==◌, ℕ, ◌+◌, ◌-◌, ◌≤◌, ◌<◌, ◌≡◌, refl, ap, ◌∙◌, inl, inr,
  true, false, none, arith,
}
use async_toolkit.Lockfree.BPlusTree.Arrays.{shift_left, shift_left_lem}
use async_toolkit.Lockfree.BPlusTree.Leaf.{
  Leaf, find_position, hit, find, remove, IsSorted, IsPosition, find_position-IsPosition,
  find_of_position, position_mono, find_miss,
}

module _ {V : Type 0} (l : Leaf V) (sorted : IsSorted l) where
  module _ (key : ℕ) where
    abbrev p : ℕ
    p = find_position l key

    at_p : IsPosition l key p
    at_p = find_position-IsPosition l key

    abbrev q : ℕ → ℕ
    q j = find_position l j

    at_q : (j : ℕ) → IsPosition l j (q j)
    at_q j = find_position-IsPosition l j

    order_pq : (j : ℕ) → (j < key → q j ≤ p) × (key < j → p ≤ q j)
    order_pq j = position_mono l j key p (q j) at_p (at_q j)

    module _ (present : hit l key p ≡ true) where
      abbrev removed : Leaf V
      removed = record l {
        size = l.size - 1;
        keys = shift_left (l.size - 1 - p) p l.keys;
        values = shift_left (l.size - 1 - p) p l.values;
      }

      left_keys :
          (i : ℕ) → i < l.size - 1 → removed.keys i ≡ (if leb p i then l.keys (i + 1) else l.keys i)
      left_keys i h = ground (arith, shift_left_lem (l.size - 1 - p) p l.keys i, at_p.bound)

      left_values :
          (i : ℕ)
          → i < l.size - 1
          → removed.values i ≡ (if leb p i then l.values (i + 1) else l.values i)
      left_values i h = ground (arith, shift_left_lem (l.size - 1 - p) p l.values i, at_p.bound)

      removed-IsSorted : IsSorted removed
      removed-IsSorted i j h k =
          ground
            (arith, left_keys i, left_keys j, sorted i j, sorted i (j + 1), sorted (i + 1) (j + 1))

      abbrev left_place : ℕ → ℕ
      left_place j = if ltb key j then q j - 1 else q j

      left_place-IsPosition : (j : ℕ) → IsPosition removed j (left_place j)
      left_place-IsPosition j = record {
        bound = ground (
          arith,
          at_p.bound,
          (at_q j).bound,
          order_pq j,
          present,
          (at_q j).before p,
          (at_q j).at,
        );
        before = λ i h. ground (
          arith,
          left_keys i,
          (at_q j).before i,
          (at_q j).before (i + 1),
          (at_q j).bound,
          order_pq j,
          present,
        );
        at = λ h. ground (
          arith,
          left_keys (left_place j),
          (at_q j).bound,
          (at_q j).at,
          order_pq j,
          present,
          sorted p (p + 1),
          at_p.before (q j),
        );
      }

      find-removed : (j : ℕ) → find removed j ≡ (if key == j then none else find l j)
      find-removed j =
          find_of_position removed j (left_place j) (left_place-IsPosition j)
          ∙ ground (
            arith,
            find_of_position l j (q j) (at_q j),
            left_values (left_place j),
            left_keys (left_place j),
            at_p.bound,
            (at_q j).bound,
            (at_q j).at,
            (at_q j).before p,
            order_pq j,
            present,
            sorted p (p + 1),
            ap q {x = key} {y = j},
          )

  -- In a leaf whose keys ascend: when `remove` finds the key, the keys still ascend, the leaf is
  -- one entry shorter, and `find` gives nothing at the key and what it gave before elsewhere; when
  -- it does not, `find` gives nothing at the key and the leaf is unchanged.
  pub remove_lem :
      (key : ℕ)
      → let r = remove l key in
        (r.0 ≡ true
          → IsSorted r.1
            × ((j : ℕ) → find r.1 j ≡ (if key == j then none else find l j))
            × (r.1.size + 1 ≡ l.size))
        × (r.0 ≡ false → (r.1 ≡ l) × (find l key ≡ none))
  unfolding remove
  remove_lem key = elim (Bool-cases (hit l key (find_position l key))) [
    | inl present ↦ rw present (
      (λ d. (removed-IsSorted key present, find-removed key present, ground (arith, present))),
      λ d. cc,
    )
    | inr absent ↦ rw absent ((λ d. cc), λ d. (refl, find_miss l key absent))
  ]
