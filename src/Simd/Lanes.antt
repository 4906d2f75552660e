-- ===== src/Simd/Lanes.antt =====
-- The operators of `Vector` lane by lane, whichever way they are compiled, and the scalar product.
use async_toolkit.Base.{
  if◌then◌else◌, leb, ltb, ◌==◌, ℕ, zero, suc, ◌+◌, ◌<◌, ◌≡◌, refl, sym, ap, ◌∙◌, Bool, true, false,
  ◌&&◌, arith,
}
use async_toolkit.Simd.{
  Target, Kind, is_float4, is_double2, is_other, lane_loop, add_assign, sub_assign, mul_assign,
  plus, abs_loop, abs, dot_loop, dot,
}

-- The first `n` lanes of the vector operation are those of the operation on numbers.
abbrev pub IsLanewise : {T : Type 0} → ℕ → ((ℕ → T) → (ℕ → T) → ℕ → T) → (T → T → T) → Type 0
IsLanewise {T} n f op = (a b : ℕ → T) (i : ℕ) → i < n → f a b i ≡ op (a i) (b i)

-- What the intrinsics are documented to do.
pub record IsDocumented {T : Type 0} (m : Target T) : Type 0 where
  pub add_ps : IsLanewise 4 m.mm_add_ps m.add
  pub sub_ps : IsLanewise 4 m.mm_sub_ps m.sub
  pub mul_ps : IsLanewise 4 m.mm_mul_ps m.mul
  pub add_pd : IsLanewise 2 m.mm_add_pd m.add
  pub sub_pd : IsLanewise 2 m.mm_sub_pd m.sub
  pub mul_pd : IsLanewise 2 m.mm_mul_pd m.mul

-- The number of lanes that a kind of vector has.
abbrev pub HasLanes : Kind → ℕ → Type 0
HasLanes is_float4 n = n ≡ 4
HasLanes is_double2 n = n ≡ 2
HasLanes is_other n = Unit

module _ {T : Type 0} where
  lane_loop_lem :
      (op : T → T → T) (k i : ℕ) (a b : ℕ → T) (j : ℕ)
      → lane_loop op k i a b j ≡ (if leb i j && ltb j (i + k) then op (a j) (b j) else a j)
  unfolding lane_loop
  lane_loop_lem op zero i a b j = ground arith
  lane_loop_lem op (suc k) i a b j =
      lane_loop_lem op k (i + 1) (λ l. if l == i then op (a i) (b i) else a l) b j ∙ ground arith

  abs_loop_lem :
      (m : Target T) (k i : ℕ) (v r : ℕ → T) (j : ℕ)
      → abs_loop m k i v r j ≡ (if leb i j && ltb j (i + k) then m.absolute (v j) else r j)
  unfolding abs_loop
  abs_loop_lem m zero i v r j = ground arith
  abs_loop_lem m (suc k) i v r j =
      abs_loop_lem m k (i + 1) v (λ l. if l == i then m.absolute (v i) else r l) j ∙ ground arith

  by_loop : (op : T → T → T) (n : ℕ) → IsLanewise n (lane_loop op n 0) op
  by_loop op n a b i h = lane_loop_lem op n 0 a b i ∙ ground arith

  by_intrinsic :
      (present : Bool) (op : T → T → T) (f : (ℕ → T) → (ℕ → T) → ℕ → T) (k n : ℕ)
      → n ≡ k
      → IsLanewise k f op
      → IsLanewise n (λ a b. if present then f a b else lane_loop op n 0 a b) op
  by_intrinsic true op f k n e h a b i lt = h a b i (omega arith)
  by_intrinsic false op f k n e h a b i lt = by_loop op n a b i lt

  -- On every target whose intrinsics do what they are documented to do, and for every kind of vector, whether it is
  -- compiled to an intrinsic or to a loop: each operator works lane by lane on all lanes, and `abs` fills
  -- all lanes of its result, whatever was there.
  pub operators_lem :
      (m : Target T) (kind : Kind) (n : ℕ)
      → IsDocumented m
      → HasLanes kind n
      → IsLanewise n (add_assign m kind n) m.add
        × IsLanewise n (sub_assign m kind n) m.sub
        × IsLanewise n (mul_assign m kind n) m.mul
        × ((v r : ℕ → T) (i : ℕ) → i < n → abs m n v r i ≡ m.absolute (v i))
  unfolding add_assign sub_assign mul_assign abs
  operators_lem m is_float4 n d lanes = (
    by_intrinsic m.sse m.add m.mm_add_ps 4 n lanes d.add_ps,
    by_intrinsic m.sse m.sub m.mm_sub_ps 4 n lanes d.sub_ps,
    by_intrinsic m.sse m.mul m.mm_mul_ps 4 n lanes d.mul_ps,
    λ v r i h. abs_loop_lem m n 0 v r i ∙ ground arith,
  )
  operators_lem m is_double2 n d lanes = (
    by_intrinsic m.sse2 m.add m.mm_add_pd 2 n lanes d.add_pd,
    by_intrinsic m.sse2 m.sub m.mm_sub_pd 2 n lanes d.sub_pd,
    by_intrinsic m.sse2 m.mul m.mm_mul_pd 2 n lanes d.mul_pd,
    λ v r i h. abs_loop_lem m n 0 v r i ∙ ground arith,
  )
  operators_lem m is_other n d lanes = (
    by_loop m.add n,
    by_loop m.sub n,
    by_loop m.mul n,
    λ v r i h. abs_loop_lem m n 0 v r i ∙ ground arith,
  )

  -- The laws of the numbers that the scalar product needs to be linear; rounding breaks them.
  pub record IsExact (m : Target T) : Type 0 where
    pub zero_zero : m.add m.zero_value m.zero_value ≡ m.zero_value
    pub regroup : (a b c d : T) → m.add (m.add a b) (m.add c d) ≡ m.add (m.add a c) (m.add b d)
    pub distrib : (a b c : T) → m.mul (m.add a b) c ≡ m.add (m.mul a c) (m.mul b c)

  dot_loop-add :
      (m : Target T) (exact : IsExact m) (k i : ℕ) (s r : T) (sum a b c : ℕ → T)
      → ((j : ℕ) → j < i + k → sum j ≡ m.add (a j) (b j))
      → dot_loop m k i (m.add s r) sum c ≡ m.add (dot_loop m k i s a c) (dot_loop m k i r b c)
  unfolding dot_loop
  dot_loop-add m exact zero i s r sum a b c h = refl
  dot_loop-add m exact (suc k) i s r sum a b c h =
      ap (λ t. dot_loop m k (i + 1) t sum c)
        (ap (λ t. m.add (m.add s r) (m.mul t (c i))) (h i (omega arith))
          ∙ ap (m.add (m.add s r)) (exact.distrib (a i) (b i) (c i))
          ∙ exact.regroup s r (m.mul (a i) (c i)) (m.mul (b i) (c i)))
      ∙ dot_loop-add m exact k (i + 1) (m.add s (m.mul (a i) (c i))) (m.add r (m.mul (b i) (c i)))
          sum a b c (λ j l. h j (omega arith))

  -- On a target with documented intrinsics and exact arithmetic, the scalar product of a sum of vectors is the sum
  -- of the scalar products.
  pub dot-plus :
      (m : Target T) (kind : Kind) (n : ℕ) (a b c : ℕ → T)
      → IsDocumented m
      → IsExact m
      → HasLanes kind n
      → dot m n (plus m kind n a b) c ≡ m.add (dot m n a c) (dot m n b c)
  unfolding dot
  dot-plus m kind n a b c d exact lanes =
      let (lanewise, _, _, _) = operators_lem m kind n d lanes in
      ap (λ z. dot_loop m n 0 z (plus m kind n a b) c) (sym exact.zero_zero)
      ∙ dot_loop-add m exact n 0 m.zero_value m.zero_value (plus m kind n a b) a b c
          (λ j h. lanewise a b j (omega arith))
