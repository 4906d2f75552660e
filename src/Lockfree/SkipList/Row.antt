-- ===== src/Lockfree/SkipList/Row.antt =====
-- The nodes of a skip list at its lowest level: a list of addresses with ascending keys, and what it is to
-- put a node in and to take one out.
use async_toolkit.Lockfree.Queue.Chain.{Chain}
use async_toolkit.Base.{
  Bool-cases, count, length, if◌then◌else◌, ltb, ◌==◌, ℕ, suc, ◌+◌, ◌≤◌, ◌<◌, ◌≡◌, refl, sym, ap,
  ◌∙◌, ◌≢◌, inl, inr, Bool, true, false, List, [], ◌∷◌, arith, ℕ_discrete,
}

-- The keys ascend, from `low` on.
abbrev pub Keys : (ℕ → ℕ) → (low : ℕ) → List ℕ → Type 0
Keys key low [] = Unit
Keys key low (x ∷ xs) = (low ≤ key x) × Keys key (key x + 1) xs

-- The last node with a smaller key, behind `p`.
abbrev pub before : (ℕ → ℕ) → (k p : ℕ) → List ℕ → ℕ
before key k p [] = p
before key k p (x ∷ xs) = let further = before key k x xs in if ltb (key x) k then further else p

-- The first address, 0 if there is none.
abbrev pub first : List ℕ → ℕ
first [] = 0
first (x ∷ xs) = x

-- The nodes whose keys are not smaller.
abbrev pub after : (ℕ → ℕ) → (k : ℕ) → List ℕ → List ℕ
after key k [] = []
after key k (x ∷ xs) = let further = after key k xs in if ltb (key x) k then further else x ∷ xs

abbrev pub starts_with : (ℕ → ℕ) → (k : ℕ) → List ℕ → Bool
starts_with key k [] = false
starts_with key k (x ∷ xs) = key x == k

abbrev pub place : (ℕ → ℕ) → (k n : ℕ) → List ℕ → List ℕ
place key k n [] = n ∷ []
place key k n (x ∷ xs) =
    let further = place key k n xs in if ltb (key x) k then x ∷ further else n ∷ x ∷ xs

abbrev pub drop : (ℕ → ℕ) → (k : ℕ) → List ℕ → List ℕ
drop key k [] = []
drop key k (x ∷ xs) =
    let further = drop key k xs in
    if ltb (key x) k then x ∷ further else if key x == k then xs else x ∷ xs

pub Keys-count :
    (key : ℕ → ℕ) (low y : ℕ) (xs : List ℕ) → Keys key low xs → key y < low → count y xs ≡ 0
Keys-count key low y [] h lt = refl
Keys-count key low y (x ∷ xs) (h, hs) lt = elim (ℕ_discrete x y) [
  | yes same ↦ absurd (ground (arith, same))
  | no other ↦ ground (arith, Keys-count key (key x + 1) y xs hs (omega arith))
]

Keys-lower :
    (key : ℕ → ℕ) (low low' : ℕ) (xs : List ℕ) → Keys key low xs → low' ≤ low → Keys key low' xs
Keys-lower key low low' [] h le = tt
Keys-lower key low low' (x ∷ xs) (h, hs) le = (omega arith, hs)

pub count-before : (key : ℕ → ℕ) (k p : ℕ) (xs : List ℕ) → 0 < count (before key k p xs) (p ∷ xs)
count-before key k p [] = ground arith
count-before key k p (x ∷ xs) = ground (arith, count-before key k x xs)

pub count-place :
    (key : ℕ → ℕ) (k n a : ℕ) (xs : List ℕ) → count a (place key k n xs) ≡ count a (n ∷ xs)
count-place key k n a [] = refl
count-place key k n a (x ∷ xs) = ground (arith, count-place key k n a xs)

pub count-drop : (key : ℕ → ℕ) (k a : ℕ) (xs : List ℕ) → count a (drop key k xs) ≤ count a xs
count-drop key k a [] = omega arith
count-drop key k a (x ∷ xs) = ground (arith, count-drop key k a xs)

pub length-place :
    (key : ℕ → ℕ) (k n : ℕ) (xs : List ℕ) → length (place key k n xs) ≡ suc (length xs)
length-place key k n [] = refl
length-place key k n (x ∷ xs) = ground (arith, length-place key k n xs)

pub length-drop : (key : ℕ → ℕ) (k : ℕ) (xs : List ℕ) → length (drop key k xs) ≤ length xs
length-drop key k [] = omega arith
length-drop key k (x ∷ xs) = ground (arith, length-drop key k xs)

-- The node after the last one with a smaller key.
pub next-before :
    (key next : ℕ → ℕ) (k p : ℕ) (xs : List ℕ)
    → Chain next p xs
    → next (before key k p xs) ≡ first (after key k xs)
next-before key next k p [] c = c
next-before key next k p (x ∷ xs) (e, pos, c) = ground (arith, e, next-before key next k x xs c)

Chain-agree :
    (next next' : ℕ → ℕ) (p : ℕ) (xs : List ℕ)
    → Chain next p xs
    → ((a : ℕ) → 0 < count a (p ∷ xs) → next' a ≡ next a)
    → Chain next' p xs
Chain-agree next next' p [] c same = same p (ground arith) ∙ c
Chain-agree next next' p (x ∷ xs) (e, pos, c) same =
    (same p (ground arith) ∙ e, pos, Chain-agree next next' x xs c (λ a h. same a (ground arith)))

pub Chain-place :
    (key next next' : ℕ → ℕ) (low k n p : ℕ) (xs : List ℕ)
    → Chain next p xs
    → Keys key low xs
    → count p xs ≡ 0
    → 0 < n
    → count n (p ∷ xs) ≡ 0
    → next' (before key k p xs) ≡ n
    → next' n ≡ next (before key k p xs)
    → ((a : ℕ) → a ≢ before key k p xs → a ≢ n → next' a ≡ next a)
    → Chain next' p (place key k n xs)
Chain-place key next next' low k n p [] c keys off pos new here on same = (here, pos, on ∙ c)
Chain-place key next next' low k n p (x ∷ xs) (e, above, c) (h, keys) off pos new here on same =
    elim (Bool-cases (ltb (key x) k)) [
      | inl smaller ↦
          let inside = count-before key k x xs in
          let b = before key k x xs in
          let apart : p ≢ b = λ z. absurd (ground (arith, z, inside, off)) in
          let not_new : p ≢ n = λ z. absurd (ground (arith, z, new)) in
          let to_x : next' p ≡ x = same p (λ z. apart (z ∙ rw smaller refl)) not_new ∙ e in
          let rest =
            Chain-place key next next' (key x + 1) k n x xs c keys
              (Keys-count key (key x + 1) x xs keys (omega arith)) pos (ground arith)
              (ap next' (sym (rw smaller refl)) ∙ here) (on ∙ ap next (rw smaller refl))
              (λ a u v. same a (λ z. u (z ∙ rw smaller refl)) v) in
          rw smaller (to_x, above, rest)
      | inr larger ↦
          let at_p : before key k p (x ∷ xs) ≡ p = rw larger refl in
          rw larger (
            ap next' (sym at_p) ∙ here,
            pos,
            (
              on ∙ ap next at_p ∙ e,
              above,
              Chain-agree next next' x xs c (λ a inside.
                  same a (λ z. absurd (ground (arith, z ∙ at_p, inside, off)))
                    (λ z. absurd (ground (arith, z, inside, new)))),
            ),
          )
    ]

Chain-skip :
    (next next' : ℕ → ℕ) (p x : ℕ) (xs : List ℕ)
    → Chain next x xs
    → next' p ≡ next x
    → ((a : ℕ) → 0 < count a xs → next' a ≡ next a)
    → Chain next' p xs
Chain-skip next next' p x [] c e same = e ∙ c
Chain-skip next next' p x (y ∷ ys) (f, pos, c) e same =
    (e ∙ f, pos, Chain-agree next next' y ys c same)

pub Chain-drop :
    (key next next' : ℕ → ℕ) (low k p : ℕ) (xs : List ℕ)
    → Chain next p xs
    → Keys key low xs
    → count p xs ≡ 0
    → starts_with key k (after key k xs) ≡ true
    → next' (before key k p xs) ≡ next (first (after key k xs))
    → ((a : ℕ) → a ≢ before key k p xs → next' a ≡ next a)
    → Chain next' p (drop key k xs)
Chain-drop key next next' low k p [] c keys off found here same = absurd (cc found)
Chain-drop key next next' low k p (x ∷ xs) (e, above, c) (h, keys) off found here same =
    elim (Bool-cases (ltb (key x) k)) [
      | inl smaller ↦
          let inside = count-before key k x xs in
          let b = before key k x xs in
          let apart : p ≢ b = λ z. absurd (ground (arith, z, inside, off)) in
          let to_x : next' p ≡ x = same p (λ z. apart (z ∙ rw smaller refl)) ∙ e in
          let rest =
            Chain-drop key next next' (key x + 1) k x xs c keys
              (Keys-count key (key x + 1) x xs keys (omega arith)) (rw smaller at found)
              (rw smaller at here) (λ a u. same a (λ z. u (z ∙ rw smaller refl))) in
          rw smaller (to_x, above, rest)
      | inr larger ↦
          let equal : (key x == k) ≡ true = rw larger at found in
          let at_p : before key k p (x ∷ xs) ≡ p = rw larger refl in
          let past : next' p ≡ next x = rw larger at here in
          rw (larger, equal)
            (Chain-skip next next' p x xs c past
              (λ a inside. same a (λ z. absurd (ground (arith, z ∙ at_p, inside, off)))))
    ]
