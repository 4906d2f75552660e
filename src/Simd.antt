-- ===== src/Simd.antt =====
-- `Vector` of include/async_toolkit/simd/simd_ops.hpp: a vector is a function from its lanes. The arithmetic of the
-- lane's type, and the intrinsics with the macros that say which of them there are, are a parameter.
pub mod Lanes
use async_toolkit.Base.{if◌then◌else◌, ◌==◌, ℕ, zero, suc, ◌+◌, Bool}

pub record Target (T : Type 0) : Type 0 where
  pub zero_value : T
  pub add : T → T → T
  pub sub : T → T → T
  pub mul : T → T → T
  pub absolute : T → T
  pub sse : Bool
  pub sse2 : Bool
  pub mm_add_ps : (ℕ → T) → (ℕ → T) → ℕ → T
  pub mm_sub_ps : (ℕ → T) → (ℕ → T) → ℕ → T
  pub mm_mul_ps : (ℕ → T) → (ℕ → T) → ℕ → T
  pub mm_add_pd : (ℕ → T) → (ℕ → T) → ℕ → T
  pub mm_sub_pd : (ℕ → T) → (ℕ → T) → ℕ → T
  pub mm_mul_pd : (ℕ → T) → (ℕ → T) → ℕ → T

-- The cases of `if constexpr`.
pub data Kind : Type 0 where
  is_float4 : Kind
  is_double2 : Kind
  is_other : Kind

module _ {T : Type 0} where
  -- `for (size_t i = 0; i < N; ++i) data_[i] op= rhs.data_[i];` with `left` rounds left, from `i` on.
  unfoldable pub lane_loop : (T → T → T) → (left i : ℕ) → (ℕ → T) → (ℕ → T) → ℕ → T
  lane_loop op zero i lhs rhs = lhs
  lane_loop op (suc k) i lhs rhs =
      lane_loop op k (i + 1) (λ j. if j == i then op (lhs i) (rhs i) else lhs j) rhs

  unfoldable pub add_assign : Target T → Kind → (n : ℕ) → (ℕ → T) → (ℕ → T) → ℕ → T
  unfolding lane_loop
  add_assign m is_float4 n lhs rhs =
      if m.sse then m.mm_add_ps lhs rhs else lane_loop m.add n 0 lhs rhs
  add_assign m is_double2 n lhs rhs =
      if m.sse2 then m.mm_add_pd lhs rhs else lane_loop m.add n 0 lhs rhs
  add_assign m is_other n lhs rhs = lane_loop m.add n 0 lhs rhs

  unfoldable pub sub_assign : Target T → Kind → (n : ℕ) → (ℕ → T) → (ℕ → T) → ℕ → T
  unfolding lane_loop
  sub_assign m is_float4 n lhs rhs =
      if m.sse then m.mm_sub_ps lhs rhs else lane_loop m.sub n 0 lhs rhs
  sub_assign m is_double2 n lhs rhs =
      if m.sse2 then m.mm_sub_pd lhs rhs else lane_loop m.sub n 0 lhs rhs
  sub_assign m is_other n lhs rhs = lane_loop m.sub n 0 lhs rhs

  unfoldable pub mul_assign : Target T → Kind → (n : ℕ) → (ℕ → T) → (ℕ → T) → ℕ → T
  unfolding lane_loop
  mul_assign m is_float4 n lhs rhs =
      if m.sse then m.mm_mul_ps lhs rhs else lane_loop m.mul n 0 lhs rhs
  mul_assign m is_double2 n lhs rhs =
      if m.sse2 then m.mm_mul_pd lhs rhs else lane_loop m.mul n 0 lhs rhs
  mul_assign m is_other n lhs rhs = lane_loop m.mul n 0 lhs rhs

  -- `operator+`, `operator-` and `operator*` take the left vector by value and return it.
  abbrev pub plus : Target T → Kind → (n : ℕ) → (ℕ → T) → (ℕ → T) → ℕ → T
  plus = add_assign

  abbrev pub minus : Target T → Kind → (n : ℕ) → (ℕ → T) → (ℕ → T) → ℕ → T
  minus = sub_assign

  abbrev pub times : Target T → Kind → (n : ℕ) → (ℕ → T) → (ℕ → T) → ℕ → T
  times = mul_assign

  -- The loop of `abs`, which fills `result`.
  unfoldable pub abs_loop : Target T → (left i : ℕ) → (v result : ℕ → T) → ℕ → T
  abs_loop m zero i v result = result
  abs_loop m (suc k) i v result =
      abs_loop m k (i + 1) v (λ j. if j == i then m.absolute (v i) else result j)

  unfoldable pub abs : Target T → (n : ℕ) → (v uninitialised : ℕ → T) → ℕ → T
  unfolding abs_loop
  abs m n v uninitialised = abs_loop m n 0 v uninitialised

  unfoldable pub dot_loop : Target T → (left i : ℕ) → (sum : T) → (a b : ℕ → T) → T
  dot_loop m zero i sum a b = sum
  dot_loop m (suc k) i sum a b = dot_loop m k (i + 1) (m.add sum (m.mul (a i) (b i))) a b

  unfoldable pub dot : Target T → (n : ℕ) → (a b : ℕ → T) → T
  unfolding dot_loop
  dot m n a b = dot_loop m n 0 m.zero_value a b
