-- ===== src/Lockfree/Bounded/Ends.antt =====
-- The nodes behind `head_` of an `MPMCQueue`, and where `tail_` may point.
use mathlib.Core.Path.{ap₂}
use async_toolkit.Base.{
  count, length, ℕ, ◌+◌, ◌^◌, ◌≤◌, ◌<◌, ◌≡◌, refl, ◌⊎◌, List, [], ◌∷◌, ◌++◌, map, arith,
}
use async_toolkit.Lockfree.Queue.Chain.{Chain}
use async_toolkit.Lockfree.Bounded.{update, Nodes}

abbrev pub last : ℕ → List ℕ → ℕ
last p [] = p
last p (x ∷ xs) = last x xs

-- The addresses ascend from `p` on, up to what the pool hands out next.
abbrev pub Ascending : ℕ → List ℕ → (fresh : ℕ) → Type 0
Ascending p [] fresh = p < fresh
Ascending p (x ∷ xs) fresh = (p < x) × Ascending x xs fresh

pub next-last : (next : ℕ → ℕ) (p : ℕ) (xs : List ℕ) → Chain next p xs → next (last p xs) ≡ 0
next-last next p [] c = c
next-last next p (x ∷ xs) c = next-last next x xs c.2

pub last_lt :
    (p : ℕ) (xs : List ℕ) (fresh : ℕ) → Ascending p xs fresh → (last p xs < fresh) × (p ≤ last p xs)
last_lt p [] fresh a = (a, omega arith)
last_lt p (x ∷ xs) fresh a = omega (arith, last_lt x xs fresh a.1)

pub count-last : (p : ℕ) (xs : List ℕ) → 0 < count (last p xs) (p ∷ xs)
count-last p [] = ground arith
count-last p (x ∷ xs) = omega (arith, count-last x xs)

pub last-append : (p n : ℕ) (xs : List ℕ) → last p (xs ++ n ∷ []) ≡ n
last-append p n [] = refl
last-append p n (x ∷ xs) = last-append x n xs

pub Ascending-append :
    (p : ℕ) (xs : List ℕ) (fresh : ℕ)
    → Ascending p xs fresh
    → Ascending p (xs ++ fresh ∷ []) (fresh + 1)
Ascending-append p [] fresh a = omega arith
Ascending-append p (x ∷ xs) fresh a = (a.0, Ascending-append x xs fresh a.1)

-- A node with the next address of the pool is linked behind the last one.
pub Chain-append :
    (next : ℕ → ℕ) (p : ℕ) (xs : List ℕ) (n : ℕ)
    → 0 < n
    → Chain next p xs
    → Ascending p xs n
    → Chain (update (update next n 0) (last p xs) n) p (xs ++ n ∷ [])
Chain-append next p [] n pos c a = ground arith
Chain-append next p (x ∷ xs) n pos c a =
    let (below, above) = last_lt x xs n a.1 in
    (ground (arith, above, below, a.0, c.0), c.1, Chain-append next x xs n pos c.2 a.1)

-- What stands at addresses below the pool's next one is not touched.
pub map-update :
    {A : Type 0} (f : ℕ → A) (p : ℕ) (xs : List ℕ) (n : ℕ) (v : A)
    → Ascending p xs n
    → map (update f n v) xs ≡ map f xs
map-update f p [] n v a = refl
map-update f p (x ∷ xs) n v a =
    let (below, above) = last_lt x xs n a.1 in ap₂ ◌∷◌ (ground arith) (map-update f x xs n v a.1)

-- `queue` are the values in the nodes behind the head; the tail points to the last node or to the one before.
pub record Inv {A : Type 0} (q : Nodes A) (xs : List ℕ) (queue : List A) : Type 0 where
  pub chain : Chain q.next q.head xs
  pub values : map q.content xs ≡ queue
  pub ascending : Ascending q.head xs q.fresh
  pub head_set : 0 < q.head
  pub at_end : (q.tail ≡ last q.head xs) ⊎ (q.next q.tail ≡ last q.head xs)
  pub on : 0 < count q.tail (q.head ∷ xs)
  pub tail_old : q.tail < q.fresh
  pub counted : q.size ≡ length queue
  pub bounded : length queue ≤ q.capacity
  pub representable : q.capacity < 2 ^ 64
