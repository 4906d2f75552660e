-- ===== src/PriorityQueue.antt =====
-- `std::priority_queue` as the schedulers and the event loop use it: `top` is an element with no greater
-- one. Which of several such elements comes first is not specified, and no theorem rests on the choice
-- made here, the first in the list.
use mathlib.Core.List.{Perm, Mem, mem-cons, not-mem-nil}
use mathlib.Core.Logic.Or
use mathlib.Core.List.Perm
use async_toolkit.Base.{
  Bool-cases, if◌then◌else◌, length, suc, ◌≡◌, refl, sym, subst, ◌≢◌, inl, inr, Bool, true, false,
  Option, none, some, List, [], ◌∷◌, arith,
}

-- What a comparison has to satisfy: a strict weak order.
pub record IsOrder {ℓ} {A : Type ℓ} (less : A → A → Bool) : Type ℓ where
  pub asym : (a b : A) → less a b ≡ true → less b a ≡ false
  pub trans : (a b c : A) → less a b ≡ false → less b c ≡ false → less a c ≡ false

abbrev pub All {ℓ κ} : {A : Type ℓ} → (A → Type κ) → List A → Type κ
All P [] = Unit
All P (x ∷ xs) = P x × All P xs

pub All-map {ℓ κ μ} :
    {A : Type ℓ} {P : A → Type κ} {Q : A → Type μ}
    → ((a : A) → P a → Q a)
    → (xs : List A) → All P xs
    → All Q xs
All-map f [] h = tt
All-map f (x ∷ xs) h = (f x h.0, All-map f xs h.1)

pub All-mem {ℓ κ} :
    {A : Type ℓ} {P : A → Type κ}
    → ((a : A) → IsProp (P a))
    → (a : A) (xs : List A) → All P xs
    → Mem a xs
    → P a
All-mem prop a [] h m = absurd (not-mem-nil m)
All-mem {P} prop a (x ∷ xs) h m =
    Or.elim (prop a) (mem-cons.0 m) (λ e. subst P (sym e) h.0) (All-mem prop a xs h.1)

module _ {ℓ} {A : Type ℓ} (less : A → A → Bool) where
  unfoldable pub select : A → List A → A × List A
  select t [] = (t, [])
  select t (u ∷ us) =
      let (b, rest) = select u us in if less t b then (b, t ∷ rest) else (t, b ∷ rest)

  -- `top` and `pop` together; `none` on the empty queue.
  unfoldable pub pop_top : List A → Option (A × List A)
  unfolding select
  pop_top [] = none
  pop_top (t ∷ ts) = some (select t ts)

  pub select-perm : (t : A) (ts : List A) → Perm (t ∷ ts) ((select t ts).0 ∷ (select t ts).1)
  unfolding select
  select-perm t [] = Perm.refl (t ∷ [])
  select-perm t (u ∷ us) = elim (Bool-cases (less t (select u us).0)) [
    | inl later ↦ rw later (Perm.trans (Perm.cons t (select-perm u us)) (Perm.swap _ t _))
    | inr first ↦ rw first (Perm.cons t (select-perm u us))
  ]

  abbrev pub IsTop : A → List A → Type 0
  IsTop b = All λ u. less b u ≡ false

  pub select-IsTop : IsOrder less → (t : A) (ts : List A) → IsTop (select t ts).0 (select t ts).1
  unfolding select
  select-IsTop o t [] = tt
  select-IsTop o t (u ∷ us) = elim (Bool-cases (less t (select u us).0)) [
    | inl later ↦ rw later (o.asym _ _ later, select-IsTop o u us)
    | inr first ↦ rw first (first, All-map (λ a h. o.trans _ _ _ first h) _ (select-IsTop o u us))
  ]

  -- `top` is not below any other element, and `pop` leaves exactly the others.
  pub pop_top_lem :
      IsOrder less
      → (ts : List A) {b : A} {rest : List A} → pop_top ts ≡ some (b, rest)
      → Perm ts (b ∷ rest) × IsTop b rest
  unfolding pop_top
  pop_top_lem o [] e = cc
  pop_top_lem o (t ∷ ts) {b} {rest} e =
      let made : select t ts ≡ (b, rest) = ground arith in
      (
        subst (λ r. Perm (t ∷ ts) (r.0 ∷ r.1)) made (select-perm t ts),
        subst (λ r. IsTop r.0 r.1) made (select-IsTop o t ts),
      )

  length-select : (t : A) (ts : List A) → length (select t ts).1 ≡ length ts
  unfolding select
  length-select t [] = refl
  length-select t (u ∷ us) = ground (arith, length-select u us)

  pub length-pop_top :
      (ts : List A) {b : A} {rest : List A}
      → pop_top ts ≡ some (b, rest)
      → length ts ≡ suc (length rest)
  unfolding pop_top
  length-pop_top [] e = cc
  length-pop_top (t ∷ ts) e = ground (arith, length-select t ts)

  pub pop_top-ne-none : (t : A) (ts : List A) → pop_top (t ∷ ts) ≢ none
  unfolding pop_top
  pop_top-ne-none t ts e = cc

  pub pop_top-nil : pop_top [] ≡ none
  unfolding pop_top
  pop_top-nil = refl
