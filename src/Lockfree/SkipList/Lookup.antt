-- ===== src/Lockfree/SkipList/Lookup.antt =====
-- What stands under a key in the nodes of the lowest level, before and after a change.
use async_toolkit.Base.{
  Bool-cases, count, if◌then◌else◌, ltb, ◌==◌, ℕ, ◌+◌, ◌≤◌, ◌<◌, ◌≡◌, refl, sym, ◌∙◌, subst, ◌≢◌,
  inl, inr, true, false, Option, none, some, List, [], ◌∷◌, arith,
}
use async_toolkit.Lockfree.SkipList.Row.{Keys, Keys-count, first, after, starts_with, place, drop}

-- The keys of the nodes after a new one took its place, and after one was taken out.
pub Keys-same :
    (key key' : ℕ → ℕ) (low : ℕ) (xs : List ℕ)
    → Keys key low xs
    → ((a : ℕ) → 0 < count a xs → key' a ≡ key a)
    → Keys key' low xs
Keys-same key key' low [] h same = tt
Keys-same key key' low (x ∷ xs) (h, hs) same =
    let e : key' x ≡ key x = same x (ground arith) in
    (
      omega (arith, e, h),
      subst (λ k. Keys key' (k + 1) xs) (sym e)
          (Keys-same key key' (key x + 1) xs hs (λ a i. same a (ground arith))),
    )

pub Keys-lower :
    (key : ℕ → ℕ) (low low' : ℕ) (xs : List ℕ) → Keys key low xs → low' ≤ low → Keys key low' xs
Keys-lower key low low' [] h le = tt
Keys-lower key low low' (x ∷ xs) (h, hs) le = (omega arith, hs)

pub Keys-place :
    (key key' : ℕ → ℕ) (low k n : ℕ) (xs : List ℕ)
    → Keys key low xs
    → low ≤ k
    → count n xs ≡ 0
    → key' n ≡ k
    → ((a : ℕ) → a ≢ n → key' a ≡ key a)
    → starts_with key k (after key k xs) ≡ false
    → Keys key' low (place key k n xs)
Keys-place key key' low k n [] keys le off new same absent = (omega (arith, new), tt)
Keys-place key key' low k n (x ∷ xs) (h, keys) le off new same absent =
    let old : key' x ≡ key x = same x (λ z. absurd (ground (arith, z, off))) in
    elim (Bool-cases (ltb (key x) k)) [
      | inl smaller ↦
          let rest =
            Keys-place key key' (key x + 1) k n xs keys (ground (arith, smaller))
              (ground (arith, off)) new same (rw smaller at absent) in
          rw smaller
            (omega (arith, old), subst (λ j. Keys key' (j + 1) (place key k n xs)) (sym old) rest)
      | inr larger ↦
          let other : (key x == k) ≡ false = rw larger at absent in
          let kept =
            Keys-same key key' (key x + 1) xs keys
              (λ a i. same a (λ z. absurd (ground (arith, z, i, off)))) in
          rw larger (
            omega (arith, new),
            (
              ground (arith, old, new, larger, other),
              subst (λ j. Keys key' (j + 1) xs) (sym old) kept,
            ),
          )
    ]

pub Keys-drop :
    (key : ℕ → ℕ) (low k : ℕ) (xs : List ℕ) → Keys key low xs → Keys key low (drop key k xs)
Keys-drop key low k [] h = tt
Keys-drop key low k (x ∷ xs) (h, keys) = elim (Bool-cases (ltb (key x) k)) [
  | inl smaller ↦ rw smaller (h, Keys-drop key (key x + 1) k xs keys)
  | inr larger ↦ elim (Bool-cases (key x == k)) [
    | inl equal ↦ rw (larger, equal) (Keys-lower key (key x + 1) low xs keys (omega arith))
    | inr other ↦ rw (larger, other) (h, keys)
  ]
]

module _ {V : Type 0} where
  -- The value of the first node with the key.
  abbrev pub lookup : (ℕ → ℕ) → (ℕ → V) → (j : ℕ) → List ℕ → Option V
  lookup key value j [] = none
  lookup key value j (x ∷ xs) =
      let further = lookup key value j xs in if key x == j then some (value x) else further

  pub lookup-below :
      (key : ℕ → ℕ) (value : ℕ → V) (low j : ℕ) (xs : List ℕ)
      → Keys key low xs
      → j < low
      → lookup key value j xs ≡ none
  lookup-below key value low j [] h lt = refl
  lookup-below key value low j (x ∷ xs) (h, keys) lt =
      ground (arith, lookup-below key value (key x + 1) j xs keys (omega arith))

  pub lookup-after :
      (key : ℕ → ℕ) (value : ℕ → V) (low j : ℕ) (xs : List ℕ)
      → Keys key low xs
      → lookup key value j xs ≡ (
          if starts_with key j (after key j xs)
          then some (value (first (after key j xs)))
          else none)
  lookup-after key value low j [] h = refl
  lookup-after key value low j (x ∷ xs) (h, keys) = elim (Bool-cases (ltb (key x) j)) [
    | inl smaller ↦
        let apart : (key x == j) ≡ false = ground (arith, smaller) in
        rw (smaller, apart) (lookup-after key value (key x + 1) j xs keys)
    | inr larger ↦ elim (Bool-cases (key x == j)) [
      | inl equal ↦ rw (larger, equal) refl
      | inr other ↦
          rw (larger, other)
            (lookup-below key value (key x + 1) j xs keys (ground (arith, larger, other)))
    ]
  ]

  pub lookup-same :
      (key key' : ℕ → ℕ) (value value' : ℕ → V) (j : ℕ) (xs : List ℕ)
      → ((a : ℕ) → 0 < count a xs → (key' a ≡ key a) × (value' a ≡ value a))
      → lookup key' value' j xs ≡ lookup key value j xs
  lookup-same key key' value value' j [] same = refl
  lookup-same key key' value value' j (x ∷ xs) same =
      let (k, v) = same x (ground arith) in
      let rest = lookup-same key key' value value' j xs (λ a i. same a (ground arith)) in
      rw (k, v, rest) refl

  pub lookup-place :
      (key key' : ℕ → ℕ) (value value' : ℕ → V) (k n j : ℕ) (xs : List ℕ)
      → count n xs ≡ 0
      → key' n ≡ k
      → ((a : ℕ) → a ≢ n → (key' a ≡ key a) × (value' a ≡ value a))
      → lookup key' value' j (place key k n xs)
        ≡ (if k == j then some (value' n) else lookup key value j xs)
  lookup-place key key' value value' k n j [] off new same = rw new refl
  lookup-place key key' value value' k n j (x ∷ xs) off new same =
      let (kx, vx) = same x (λ z. absurd (ground (arith, z, off))) in
      elim (Bool-cases (ltb (key x) k)) [
        | inl smaller ↦
            let rest = lookup-place key key' value value' k n j xs (ground (arith, off)) new same in
            rw smaller (rw (kx, vx, rest) (ground (arith, smaller)))
        | inr larger ↦
            let rest =
              lookup-same key key' value value' j xs
                (λ a i. same a (λ z. absurd (ground (arith, z, i, off)))) in
            rw larger (rw (new, kx, vx, rest) refl)
      ]

  pub lookup-set :
      (key : ℕ → ℕ) (value value' : ℕ → V) (low k j : ℕ) (v : V) (xs : List ℕ)
      → Keys key low xs
      → starts_with key k (after key k xs) ≡ true
      → value' (first (after key k xs)) ≡ v
      → ((a : ℕ) → a ≢ first (after key k xs) → value' a ≡ value a)
      → lookup key value' j xs ≡ (if k == j then some v else lookup key value j xs)
  lookup-set key value value' low k j v [] keys found new same = absurd (cc found)
  lookup-set key value value' low k j v (x ∷ xs) (h, keys) found new same =
      elim (Bool-cases (ltb (key x) k)) [
        | inl smaller ↦
            let rest =
              lookup-set key value value' (key x + 1) k j v xs keys (rw smaller at found)
                (rw smaller at new) (λ a u. same a (λ z. u (z ∙ rw smaller refl))) in
            let apart : x ≢ first (after key k xs) =
              λ z. absurd (ground (arith, smaller, first-key k xs (rw smaller at found), z)) in
            let old : value' x ≡ value x = same x (λ z. apart (z ∙ rw smaller refl)) in
            rw (old, rest) (ground (arith, smaller))
        | inr larger ↦
            let equal : (key x == k) ≡ true = rw larger at found in
            let here : value' x ≡ v = rw larger at new in
            let at_x : first (after key k (x ∷ xs)) ≡ x = rw larger refl in
            let rest = lookup-same key key value value' j xs (λ a i. (
              refl,
              same a (λ z. absurd (
                  ground (arith, z ∙ at_x, i, Keys-count key (key x + 1) x xs keys (omega arith)))),
            )) in
            rw (here, rest) (ground (arith, equal))
      ]
    where
      first-key :
          (k : ℕ) (ys : List ℕ)
          → starts_with key k (after key k ys) ≡ true
          → key (first (after key k ys)) ≡ k
      first-key k [] e = absurd (cc e)
      first-key k (y ∷ ys) e = elim (Bool-cases (ltb (key y) k)) [
        | inl s ↦ rw s (first-key k ys (rw s at e))
        | inr l ↦ rw l (ground (arith, rw l at e))
      ]

  pub lookup-drop :
      (key : ℕ → ℕ) (value : ℕ → V) (low k j : ℕ) (xs : List ℕ)
      → Keys key low xs
      → lookup key value j (drop key k xs) ≡ (if k == j then none else lookup key value j xs)
  lookup-drop key value low k j [] keys = ground arith
  lookup-drop key value low k j (x ∷ xs) (h, keys) = elim (Bool-cases (ltb (key x) k)) [
    | inl smaller ↦
        rw smaller (rw (lookup-drop key value (key x + 1) k j xs keys) (ground (arith, smaller)))
    | inr larger ↦ elim (Bool-cases (key x == k)) [
      | inl equal ↦
          rw (larger, equal) (ground (arith, equal, lookup-below key value (key x + 1) j xs keys))
      | inr other ↦
          rw (larger, other)
            (ground (arith, larger, other, lookup-below key value (key x + 1) j xs keys))
    ]
  ]
