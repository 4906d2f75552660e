-- ===== src/Lockfree/BPlusTree/Leaf/Insert.antt =====
-- `LeafNode::insert`: a leaf with ascending keys stays one, and is a map.
use async_toolkit.Base.{
  Bool-cases, if◌then◌else◌, leb, leb→le, ltb, ◌==◌, ℕ, ◌+◌, ◌-◌, ◌≤◌, ◌<◌, ◌≡◌, refl, ap, ◌∙◌, inl,
  inr, true, false, none, some, arith, ℕ_discrete,
}
use async_toolkit.Lockfree.BPlusTree.Arrays.{write, shift_right, shift_right_lem}
use async_toolkit.Lockfree.BPlusTree.Leaf.{
  Leaf, find_position, hit, find, insert, IsSorted, IsPosition, find_position-IsPosition,
  find_of_position, position_mono, find_miss,
}

module _ {V : Type 0} (order : ℕ) (l : Leaf V) (sorted : IsSorted l) where
  module _ (key : ℕ) (value : V) where
    abbrev p : ℕ
    p = find_position l key

    at_p : IsPosition l key p
    at_p = find_position-IsPosition l key

    abbrev inserted : Leaf V
    inserted = record l {
      size = l.size + 1;
      keys = write (shift_right (l.size - p) l.size l.keys) p key;
      values = write (shift_right (l.size - p) l.size l.values) p value;
    }

    keys_at :
        (i : ℕ)
        → i ≤ l.size
        → inserted.keys i ≡ (if i == p then key else if ltb p i then l.keys (i - 1) else l.keys i)
    keys_at i h = ground (arith, shift_right_lem (l.size - p) l.size l.keys i, at_p.bound)

    values_at :
        (i : ℕ)
        → i ≤ l.size
        → inserted.values i
          ≡ (if i == p then value else if ltb p i then l.values (i - 1) else l.values i)
    values_at i h = ground (arith, shift_right_lem (l.size - p) l.size l.values i, at_p.bound)

    abbrev q : ℕ → ℕ
    q j = find_position l j

    at_q : (j : ℕ) → IsPosition l j (q j)
    at_q j = find_position-IsPosition l j

    order_pq : (j : ℕ) → (j < key → q j ≤ p) × (key < j → p ≤ q j)
    order_pq j = position_mono l j key p (q j) at_p (at_q j)

    module _ (absent : hit l key p ≡ false) where
      inserted-IsSorted : IsSorted inserted
      inserted-IsSorted i j h k = ground (
        arith,
        keys_at i,
        keys_at j,
        at_p.before i,
        at_p.at,
        at_p.bound,
        sorted i j,
        sorted (i - 1) (j - 1),
        sorted p (j - 1),
      )

      abbrev place : ℕ → ℕ
      place j =
          if key == j then p else if ltb j key then find_position l j else find_position l j + 1

      place-IsPosition : (j : ℕ) → IsPosition inserted j (place j)
      place-IsPosition j = record {
        bound = ground (arith, at_p.bound, (at_q j).bound);
        before = λ i h. ground (
          arith,
          keys_at i,
          at_p.before i,
          (at_q j).before i,
          (at_q j).before (i - 1),
          at_p.bound,
          (at_q j).bound,
          order_pq j,
        );
        at = λ h.
            ground (arith, keys_at (place j), at_p.bound, (at_q j).bound, (at_q j).at, order_pq j);
      }

      find-inserted : (j : ℕ) → find inserted j ≡ (if key == j then some value else find l j)
      find-inserted j =
          find_of_position inserted j (place j) (place-IsPosition j)
          ∙ ground (
            arith,
            find_of_position l j (q j) (at_q j),
            values_at (place j),
            keys_at (place j),
            at_p.bound,
            at_p.at,
            (at_q j).bound,
            order_pq j,
          )

    module _ (present : hit l key p ≡ true) where
      abbrev replaced : Leaf V
      replaced = record l { values = write l.values p value }

      find-replaced : (j : ℕ) → find replaced j ≡ (if key == j then some value else find l j)
      find-replaced j =
          find_of_position replaced j (q j)
            (record { bound = (at_q j).bound; before = (at_q j).before; at = (at_q j).at })
          ∙ elim (ℕ_discrete key j) [
            | yes e ↦ ground (arith, present, ap q e)
            | no e ↦ ground (arith, present, find_of_position l j (q j) (at_q j))
          ]

  -- In a leaf whose keys ascend: `insert` succeeds if there is room; when it succeeds, the keys
  -- still ascend and `find` gives the new value at the key and what it gave before elsewhere; when
  -- it refuses, the leaf is full, has no such key and is unchanged. A leaf within the order stays
  -- within it.
  pub insert_lem :
      (key : ℕ) (value : V)
      → let r = insert order l key value in
        (r.0 ≡ true
          → IsSorted r.1 × ((j : ℕ) → find r.1 j ≡ (if key == j then some value else find l j)))
        × (r.0 ≡ false → (r.1 ≡ l) × (order ≤ l.size) × (find l key ≡ none))
        × (l.size < order → r.0 ≡ true)
        × (l.size ≤ order → r.1.size ≤ order)
  unfolding insert
  insert_lem key value = elim (Bool-cases (hit l key (find_position l key))) [
    | inl present ↦
        rw present
          ((λ d. (sorted, find-replaced key value present)), (λ d. cc), (λ d. refl), λ d. d)
    | inr absent ↦ elim (Bool-cases (leb order l.size)) [
      | inl full ↦
          rw (absent, full)
            (
              (λ d. cc),
              (λ d. (refl, leb→le _ _ full, find_miss l key absent)),
              (λ d. absurd (ground (arith, full))),
              λ d. d,
            )
      | inr room ↦
          rw (absent, room)
            (
              (λ d. (inserted-IsSorted key value absent, find-inserted key value absent)),
              (λ d. cc),
              (λ d. refl),
              λ d. ground (arith, room),
            )
    ]
  ]
