-- ===== src/Lockfree/Queue/Chain.antt =====
-- Linked nodes as a list of addresses, and what the four kinds of writes do to it.
use async_toolkit.Base.{count, ℕ, ◌<◌, ◌≡◌, Option, some, List, [], ◌∷◌, ◌++◌, arith, ℕ_discrete}
use async_toolkit.Lockfree.Queue.{update}

-- Behind node `p` the links lead through `xs` to null.
abbrev pub Chain : (ℕ → ℕ) → ℕ → List ℕ → Type 0
Chain next p [] = next p ≡ 0
Chain next p (x ∷ xs) = (next p ≡ x) × (0 < x) × Chain next x xs

-- A node of the chain with no successor is its last, and a new node can be linked there.
pub Chain-link :
    (next : ℕ → ℕ) (p : ℕ) (xs : List ℕ) (t n : ℕ)
    → Chain next p xs
    → 0 < count t (p ∷ xs)
    → next t ≡ 0
    → 0 < n
    → next n ≡ 0
    → count n (p ∷ xs) ≡ 0
    → Chain (update next t n) p (xs ++ n ∷ [])
Chain-link next p [] t n c on end pos fresh off = ground arith
Chain-link next p (x ∷ xs) t n (e, above, c) on end pos fresh off =
    (ground arith, above, Chain-link next x xs t n c (ground arith) end pos fresh (ground arith))

pub Chain-frame :
    (next : ℕ → ℕ) (p : ℕ) (xs : List ℕ) (n y : ℕ)
    → Chain next p xs
    → count n (p ∷ xs) ≡ 0
    → Chain (update next n y) p xs
Chain-frame next p [] n y c off = ground arith
Chain-frame next p (x ∷ xs) n y (e, above, c) off =
    (ground arith, above, Chain-frame next x xs n y c (ground arith))

-- The successor of a node of the chain is in the chain, behind its first node.
pub Chain-successor :
    (next : ℕ → ℕ) (p : ℕ) (xs : List ℕ) (t x : ℕ)
    → Chain next p xs
    → 0 < count t (p ∷ xs)
    → next t ≡ x
    → 0 < x
    → 0 < count x xs
Chain-successor next p [] t x c on e pos = ground arith
Chain-successor next p (y ∷ xs) t x (here, above, c) on e pos = elim (ℕ_discrete p t) [
  | yes same ↦ ground arith
  | no other ↦ ground (arith, Chain-successor next y xs t x c (ground arith) e pos)
]

module _ {A : Type 0} where
  -- The values in the nodes `xs`.
  abbrev pub Values : (ℕ → Option A) → List ℕ → List A → Type 0
  Values content [] [] = Unit {0}
  Values content (x ∷ xs) (v ∷ q) = (content x ≡ some v) × Values content xs q
  Values content [] (v ∷ q) = ⊥
  Values content (x ∷ xs) [] = ⊥

  pub Values-snoc :
      (content : ℕ → Option A) (xs : List ℕ) (q : List A) (n : ℕ) (v : A)
      → Values content xs q
      → content n ≡ some v
      → Values content (xs ++ n ∷ []) (q ++ v ∷ [])
  Values-snoc content [] [] n v h e = (e, tt)
  Values-snoc content (x ∷ xs) (w ∷ q) n v h e = (h.0, Values-snoc content xs q n v h.1 e)
  Values-snoc content [] (w ∷ q) n v h e = absurd h
  Values-snoc content (x ∷ xs) [] n v h e = absurd h

  pub Values-frame :
      (content : ℕ → Option A) (xs : List ℕ) (q : List A) (n : ℕ) (o : Option A)
      → Values content xs q
      → count n xs ≡ 0
      → Values (update content n o) xs q
  Values-frame content [] [] n o h off = tt
  Values-frame content (x ∷ xs) (w ∷ q) n o h off =
      (ground arith, Values-frame content xs q n o h.1 (ground arith))
  Values-frame content [] (w ∷ q) n o h off = absurd h
  Values-frame content (x ∷ xs) [] n o h off = absurd h
