-- ===== src/Base/Counts.antt =====
-- How often a number stands in a list, and in a list of lists.
use Prim.Native.Nat.{ℕ, zero, suc, ◌+◌, ◌<◌}
use mathlib.Core.Path.{◌≡◌, ap}
use mathlib.Core.List.{List, [], ◌∷◌, ◌++◌}
use mathlib.Core.Option.{some}
use native.Mathlib.Omega.{arith}
use async_toolkit.Base.Tests.{◌==◌, if◌then◌else◌}
use async_toolkit.Base.Lists.{length, get_elem?, set}

abbrev pub count : ℕ → List ℕ → ℕ
count n [] = 0
count n (m ∷ ms) = (if m == n then 1 else 0) + count n ms

-- The list without the first entry that is `b`.
abbrev pub remove : ℕ → List ℕ → List ℕ
remove b [] = []
remove b (x ∷ xs) = if x == b then xs else x ∷ remove b xs

pub count-append : (n : ℕ) (ls rs : List ℕ) → count n (ls ++ rs) ≡ count n ls + count n rs
count-append n [] rs = omega arith
count-append n (l ∷ ls) rs = omega (arith, count-append n ls rs)

pub count-remove :
    (a b : ℕ) (xs : List ℕ)
    → 0 < count b xs
    → count a (remove b xs) + (if b == a then 1 else 0) ≡ count a xs
count-remove a b [] h = absurd (omega arith)
count-remove a b (x ∷ xs) h = ground (arith, count-remove a b xs)

pub length-remove : (b : ℕ) (xs : List ℕ) → 0 < count b xs → length (remove b xs) + 1 ≡ length xs
length-remove b [] h = absurd (omega arith)
length-remove b (x ∷ xs) h = ground (arith, length-remove b xs)

abbrev pub count_all : ℕ → List (List ℕ) → ℕ
count_all a [] = 0
count_all a (q ∷ qs) = count a q + count_all a qs

pub count_all-set :
    (a : ℕ) (qs : List (List ℕ)) (i : ℕ) (q r : List ℕ)
    → get_elem? qs i ≡ some q
    → count_all a (set qs i r) + count a q ≡ count_all a qs + count a r
count_all-set a [] i q r e = cc
count_all-set a (p ∷ qs) zero q r e =
    let same : p ≡ q = ground arith in omega (arith, ap (count a) same)
count_all-set a (p ∷ qs) (suc i) q r e = omega (arith, count_all-set a qs i q r e)
