-- ===== src/Lockfree/BPlusTree/Leaf.antt =====
-- `LeafNode` of include/async_toolkit/lockfree/bptree.hpp.
pub mod Insert
pub mod Remove
use async_toolkit.Base.{
  Bool-cases, if◌then◌else◌, leb, ltb, ◌==◌, ℕ, zero, suc, ◌+◌, ◌-◌, ◌≤◌, ◌<◌, ◌≡◌, ap, inl, inr,
  Bool, true, false, ◌&&◌, Option, none, some, arith,
}
use async_toolkit.Lockfree.BPlusTree.Arrays.{write, shift_right, shift_left}

pub record Leaf (V : Type 0) : Type 0 where
  pub size : ℕ
  pub keys : ℕ → ℕ
  pub values : ℕ → V
  pub next_leaf : ℕ

-- The loop of `find_position` with `left` entries left, from `pos` on.
unfoldable pub scan : (left pos : ℕ) → (ℕ → ℕ) → ℕ → ℕ
scan zero pos keys key = pos
scan (suc k) pos keys key =
    let rest = scan k (pos + 1) keys key in if ltb (keys pos) key then rest else pos

module _ {V : Type 0} where
  unfoldable pub find_position : Leaf V → ℕ → ℕ
  unfolding scan
  find_position l key = scan l.size 0 l.keys key

  -- The test that `insert`, `find` and `remove` make at the position.
  abbrev pub hit : Leaf V → ℕ → ℕ → Bool
  hit l key pos = ltb pos l.size && (l.keys pos == key)

  unfoldable pub find : Leaf V → ℕ → Option V
  find l key = let pos = find_position l key in if hit l key pos then some (l.values pos) else none

  unfoldable pub insert : (order : ℕ) → Leaf V → ℕ → V → Bool × Leaf V
  insert order l key value =
      let pos = find_position l key in
      if hit l key pos
      then (true, record l { values = write l.values pos value })
      else if leb order l.size
      then (false, l)
      else (
        true,
        record l {
          size = l.size + 1;
          keys = write (shift_right (l.size - pos) l.size l.keys) pos key;
          values = write (shift_right (l.size - pos) l.size l.values) pos value;
        },
      )

  unfoldable pub remove : Leaf V → ℕ → Bool × Leaf V
  remove l key =
      let pos = find_position l key in
      if hit l key pos
      then (
        true,
        record l {
          size = l.size - 1;
          keys = shift_left (l.size - 1 - pos) pos l.keys;
          values = shift_left (l.size - 1 - pos) pos l.values;
        },
      )
      else (false, l)

  -- The keys of a leaf ascend.
  abbrev pub IsSorted : Leaf V → Type 0
  IsSorted l = (i j : ℕ) → i < j → j < l.size → l.keys i < l.keys j

  pub record IsPosition (l : Leaf V) (key pos : ℕ) : Type 0 where
    pub bound : pos ≤ l.size
    pub before : (i : ℕ) → i < pos → l.keys i < key
    pub at : pos < l.size → key ≤ l.keys pos

scan-position :
    (k pos : ℕ) (keys : ℕ → ℕ) (key : ℕ)
    → ((i : ℕ) → i < pos → keys i < key)
    → let p = scan k pos keys key in
      (p ≤ pos + k) × ((i : ℕ) → i < p → keys i < key) × (p < pos + k → key ≤ keys p)
unfolding scan
scan-position zero pos keys key h = (omega arith, h, λ p. absurd (omega arith))
scan-position (suc k) pos keys key h = elim (Bool-cases (ltb (keys pos) key)) [
  | inl below ↦
      let (a, b, c) = scan-position k (pos + 1) keys key (λ i l. ground (arith, h i, below)) in
      rw below (omega (arith, a), b, λ p. c (omega arith))
  | inr reached ↦ rw reached (omega arith, h, λ p. ground (arith, reached))
]

module _ {V : Type 0} where
  pub find_position-IsPosition : (l : Leaf V) (key : ℕ) → IsPosition l key (find_position l key)
  unfolding find_position
  find_position-IsPosition l key =
      let (a, b, c) = scan-position l.size 0 l.keys key (λ i h. absurd (omega arith)) in
      record { bound = omega (arith, a); before = b; at = λ p. c (omega arith) }

  pub position_unique : (l : Leaf V) (key p q : ℕ) → IsPosition l key p → IsPosition l key q → p ≡ q
  position_unique l key p q a b = ground (arith, a.before q, b.before p)

  pub find_of_position :
      (l : Leaf V) (key q : ℕ)
      → IsPosition l key q
      → find l key ≡ (if hit l key q then some (l.values q) else none)
  unfolding find
  find_of_position l key q a =
      ap (λ p. if hit l key p then some (l.values p) else none)
        (position_unique l key (find_position l key) q (find_position-IsPosition l key) a)

  -- Positions go up with the keys.
  pub position_mono :
      (l : Leaf V) (j key p q : ℕ)
      → IsPosition l key p
      → IsPosition l j q
      → (j < key → q ≤ p) × (key < j → p ≤ q)
  position_mono l j key p q a b =
      ground (arith, a.before q, b.before p, a.at, b.at, a.bound, b.bound)

  pub find_miss :
      (l : Leaf V) (key : ℕ) → hit l key (find_position l key) ≡ false → find l key ≡ none
  unfolding find
  find_miss l key h = rw h
