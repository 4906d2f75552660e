-- ===== src/Lockfree/BPlusTree/Arrays.antt =====
-- The loops over the arrays of a node. An array is a function of its index; the entries from the node's
-- size on are whatever was left there.
use async_toolkit.Base.{
  if◌then◌else◌, leb, ltb, ◌==◌, ℕ, zero, suc, ◌+◌, ◌-◌, ◌≤◌, ◌≡◌, ◌∙◌, ◌&&◌, arith,
}

abbrev pub write : {A : Type 0} → (ℕ → A) → ℕ → A → ℕ → A
write f i a j = if j == i then a else f j

-- `for (i = last; ...; --i) a[i] = a[i-1]`, for `rounds` rounds.
unfoldable pub shift_right : {A : Type 0} → (rounds last : ℕ) → (ℕ → A) → ℕ → A
shift_right zero i a = a
shift_right (suc k) i a = shift_right k (i - 1) (write a i (a (i - 1)))

-- `for (i = first; ...; ++i) a[i] = a[i+1]`, for `rounds` rounds.
unfoldable pub shift_left : {A : Type 0} → (rounds first : ℕ) → (ℕ → A) → ℕ → A
shift_left zero i a = a
shift_left (suc k) i a = shift_left k (i + 1) (write a i (a (i + 1)))

-- `for (i = 0; i < rounds; ++i) to[target + i] = from[source + i]`
unfoldable pub copy : {A : Type 0} → (rounds source target : ℕ) → (ℕ → A) → (ℕ → A) → ℕ → A
copy zero s t from to = to
copy (suc k) s t from to = copy k (s + 1) (t + 1) from (write to t (from s))

module _ {A : Type 0} where
  pub shift_right_lem :
      (k i : ℕ) (a : ℕ → A) (j : ℕ)
      → k ≤ i
      → shift_right k i a j ≡ (if ltb (i - k) j && leb j i then a (j - 1) else a j)
  unfolding shift_right
  shift_right_lem zero i a j h = ground arith
  shift_right_lem (suc k) i a j h =
      shift_right_lem k (i - 1) (write a i (a (i - 1))) j (omega arith) ∙ ground arith

  pub shift_left_lem :
      (k i : ℕ) (a : ℕ → A) (j : ℕ)
      → shift_left k i a j ≡ (if leb i j && ltb j (i + k) then a (j + 1) else a j)
  unfolding shift_left
  shift_left_lem zero i a j = ground arith
  shift_left_lem (suc k) i a j = shift_left_lem k (i + 1) (write a i (a (i + 1))) j ∙ ground arith

  pub copy_lem :
      (k s t : ℕ) (from to : ℕ → A) (j : ℕ)
      → copy k s t from to j ≡ (if leb t j && ltb j (t + k) then from (s + (j - t)) else to j)
  unfolding copy
  copy_lem zero s t from to j = ground arith
  copy_lem (suc k) s t from to j =
      copy_lem k (s + 1) (t + 1) from (write to t (from s)) j ∙ ground arith
