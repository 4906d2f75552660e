-- ===== src/Memory/PoolPtr.antt =====
-- `PoolPtr` of include/async_toolkit/memory/memory_pool.hpp. The handles of a program are a list, each the
-- block it owns, with 0 the null pointer; the pool of a handle is null when its block is, and is left out.
-- `returned` logs the calls of the pool's `deallocate`, `made` the blocks that `make` took from it.
use async_toolkit.Base.{
  ==_iff, Bool-cases, Option-cases, count, count-append, get_elem?, get_elem?-set_ne, if◌then◌else◌,
  set, ◌==◌, ℕ, zero, suc, ◌+◌, ◌<◌, ◌≡◌, refl, ◌∙◌, inl, inr, none, some, List, [], ◌∷◌, ◌++◌,
  arith,
}

pub record Handles : Type 0 where
  pub ptrs : List ℕ
  pub returned : List ℕ
  pub made : List ℕ

-- `if (ptr_ && pool_) pool_->deallocate(ptr_)`.
abbrev pub give_back : ℕ → List ℕ → List ℕ
give_back ptr returned = if ptr == 0 then returned else ptr ∷ returned

-- `block` is what the pool's `allocate` answers.
unfoldable pub make : Handles → (block : ℕ) → Handles
make h block = record h { ptrs = h.ptrs ++ block ∷ []; made = block ∷ h.made }

-- The destructor; the handle is null after it.
unfoldable pub destroy : Handles → ℕ → Handles
destroy h i = elim (get_elem? h.ptrs i) [
  | none ↦ h
  | some ptr ↦ record h { ptrs = set h.ptrs i 0; returned = give_back ptr h.returned }
]

-- The move constructor: a new handle takes the block of handle `i`.
unfoldable pub move_construct : Handles → ℕ → Handles
move_construct h i = elim (get_elem? h.ptrs i) [
  | none ↦ h
  | some ptr ↦ record h { ptrs = set h.ptrs i 0 ++ ptr ∷ [] }
]

-- The move assignment from handle `other` to handle `i`.
unfoldable pub move_assign : Handles → (i other : ℕ) → Handles
move_assign h i other = if i == other then h else (elim (get_elem? h.ptrs i) [
  | none ↦ h
  | some ptr ↦ elim (get_elem? h.ptrs other) [
    | none ↦ h
    | some taken ↦ record h {
      ptrs = set (set h.ptrs i taken) other 0;
      returned = give_back ptr h.returned;
    }
  ]
])

pub data Call : Type 0 where
  makes : (block : ℕ) → Call
  destroys : (i : ℕ) → Call
  move_constructs : (i : ℕ) → Call
  move_assigns : (i other : ℕ) → Call

unfoldable pub step : Handles → Call → Handles
unfolding make destroy move_construct move_assign
step h (makes block) = make h block
step h (destroys i) = destroy h i
step h (move_constructs i) = move_construct h i
step h (move_assigns i other) = move_assign h i other

unfoldable pub run : Handles → List Call → Handles
unfolding step
run h [] = h
run h (c ∷ cs) = run (step h c) cs

count-set :
    (a : ℕ) (xs : List ℕ) (i x v : ℕ)
    → get_elem? xs i ≡ some x
    → count a (set xs i v) + (if x == a then 1 else 0) ≡ count a xs + (if v == a then 1 else 0)
count-set a [] i x v e = cc
count-set a (y ∷ xs) zero x v e = ground arith
count-set a (y ∷ xs) (suc i) x v e = omega (arith, count-set a xs i x v e)

abbrev Balance : ℕ → Handles → Type 0
Balance a h = count a h.ptrs + count a h.returned ≡ count a h.made

step-Balance : (a : ℕ) (h : Handles) (c : Call) → 0 < a → Balance a h → Balance a (step h c)
unfolding step make destroy move_construct move_assign
step-Balance a h (makes block) pos b = omega (arith, count-append a h.ptrs (block ∷ []))
step-Balance a h (destroys i) pos b = elim (Option-cases (get_elem? h.ptrs i)) [
  | inl e ↦ rw (e, step, destroy) b
  | inr (ptr, e) ↦ rw (e, step, destroy) (ground (arith, count-set a h.ptrs i ptr 0 e))
]
step-Balance a h (move_constructs i) pos b = elim (Option-cases (get_elem? h.ptrs i)) [
  | inl e ↦ rw (e, step, move_construct) b
  | inr (ptr, e) ↦
      rw (e, step, move_construct)
        (ground (arith, count-set a h.ptrs i ptr 0 e, count-append a (set h.ptrs i 0) (ptr ∷ [])))
]
step-Balance a h (move_assigns i other) pos b = elim (Bool-cases (i == other)) [
  | inl same ↦ rw (same, step, move_assign) b
  | inr apart ↦ elim (Option-cases (get_elem? h.ptrs i)) [
    | inl e ↦ rw (apart, e, step, move_assign) b
    | inr (ptr, e) ↦ elim (Option-cases (get_elem? h.ptrs other)) [
      | inl f ↦ rw (apart, e, f, step, move_assign) b
      | inr (taken, f) ↦
          let there : get_elem? (set h.ptrs i taken) other ≡ some taken =
            get_elem?-set_ne h.ptrs taken (λ k. ground (arith, ==_iff i other)) ∙ f in
          rw (apart, e, f, step, move_assign)
            (ground (
              arith,
              count-set a h.ptrs i ptr taken e,
              count-set a (set h.ptrs i taken) other taken 0 there,
            ))
    ]
  ]
]

run-Balance : (a : ℕ) (h : Handles) (cs : List Call) → 0 < a → Balance a h → Balance a (run h cs)
unfolding run
run-Balance a h [] pos b = b
run-Balance a h (c ∷ cs) pos b = run-Balance a (step h c) cs pos (step-Balance a h c pos b)

abbrev pub no_handles : Handles
no_handles = record { ptrs = []; returned = []; made = [] }

-- Whatever handles are made, moved and destroyed, every block is owned by one handle or was given back
-- once, as often as it was taken from the pool: none leaks, is shared or is given back twice.
pub run_owns_once :
    (cs : List Call) (block : ℕ)
    → 0 < block
    → let h = run no_handles cs in count block h.ptrs + count block h.returned ≡ count block h.made
run_owns_once cs block pos = run-Balance block no_handles cs pos refl
