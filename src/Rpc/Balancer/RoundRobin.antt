-- ===== src/Rpc/Balancer/RoundRobin.antt =====
-- Fairness of the round-robin balancer of include/async_toolkit/rpc/load_balancer.hpp.
use native.Mathlib.Nat.{mod-lt, mod-eq_of_lt, mod_self, mod-add-mod}
use mathlib.Core.List.{append-nil, append_assoc}
use mathlib.Core.Option
use async_toolkit.Base.{
  >>=-eq-some, count, count-append, get_elem?, length, length-append, map-eq-some, ◌>>=◌, ℕ, zero,
  suc, ◌+◌, ◌%◌, ◌^◌, ◌≤◌, ◌<◌, ◌≡◌, refl, sym, ap, ◌∙◌, subst, Option, some, List, [], ◌∷◌, ◌++◌,
  arith,
}
use async_toolkit.Rpc.Balancer.{round_robin_select}

-- `n` calls in a row on the same servers, and the counter after them.
unfoldable pub select_all : (n current_index : ℕ) → List ℕ → Option (List ℕ × ℕ)
select_all zero current_index servers = some ([], current_index)
select_all (suc n) current_index servers =
    round_robin_select current_index servers >>= λ (selected, next).
    Option.map (λ (rest, last). (selected ∷ rest, last)) (select_all n next servers)

get_elem?-append : (xs ys : List ℕ) (y : ℕ) → get_elem? (xs ++ y ∷ ys) (length xs) ≡ some y
get_elem?-append [] ys y = refl
get_elem?-append (x ∷ xs) ys y = get_elem?-append xs ys y

mod_plus : (c k n p : ℕ) → c % n ≡ p → p + k < n → (c + k) % n ≡ p + k
mod_plus c k n p e h = sym (mod-add-mod c n k) ∙ ap (λ r. (r + k) % n) e ∙ mod-eq_of_lt h

mod_full : (c k n p : ℕ) → c % n ≡ p → p + k ≡ n → (c + k) % n ≡ 0
mod_full c k n p e h =
    sym (mod-add-mod c n k) ∙ ap (λ r. (r + k) % n) e ∙ ap (λ r. r % n) h ∙ mod_self n

select_one :
    (c : ℕ) (xs ys : List ℕ) (y : ℕ)
    → c % length (xs ++ y ∷ ys) ≡ length xs
    → round_robin_select c (xs ++ y ∷ ys) ≡ some (y, (c + 1) % 2 ^ 64)
unfolding round_robin_select
select_one c [] ys y e = rw e refl
select_one c (x ∷ xs) ys y e = rw (e, get_elem?-append xs ys y) refl

-- The calls that reach the servers `mid`, one after the other.
select_part :
    (c : ℕ) (xs mid ys : List ℕ)
    → c % length (xs ++ (mid ++ ys)) ≡ length xs
    → c + length mid < 2 ^ 64
    → select_all (length mid) c (xs ++ (mid ++ ys)) ≡ some (mid, c + length mid)
unfolding select_all
select_part c xs [] ys e h = ap (λ k. some ([], k)) (omega arith)
select_part c xs (y ∷ []) ys e h =
    rw (select_one c xs ys y e) (ap (λ k. some (y ∷ [], k)) (mod-eq_of_lt h))
select_part c xs (y ∷ z ∷ mid) ys e h =
    let next : (c + 1) % 2 ^ 64 ≡ c + 1 = mod-eq_of_lt (omega arith) in
    let longer : length (xs ++ y ∷ []) ≡ length xs + 1 = length-append xs (y ∷ []) in
    let same : (xs ++ y ∷ []) ++ (z ∷ mid ++ ys) ≡ xs ++ (y ∷ z ∷ mid ++ ys) =
      append_assoc xs (y ∷ []) _ in
    let size : length (xs ++ (y ∷ z ∷ mid ++ ys)) ≡ length xs + suc (suc (length mid + length ys)) =
      omega (length-append xs (y ∷ z ∷ mid ++ ys), length-append mid ys, arith) in
    let moved : (c + 1) % length ((xs ++ y ∷ []) ++ (z ∷ mid ++ ys)) ≡ length (xs ++ y ∷ []) =
      ap (λ l. (c + 1) % length l) same ∙ mod_plus c 1 _ _ e (omega (arith, size)) ∙ sym longer in
    let ih = select_part (c + 1) (xs ++ y ∷ []) (z ∷ mid) ys moved (omega arith) in
    let ih' : select_all (length (z ∷ mid)) (c + 1) (xs ++ (y ∷ z ∷ mid ++ ys))
        ≡ some (z ∷ mid, c + 1 + length (z ∷ mid)) =
      subst
        (λ l. select_all (length (z ∷ mid)) (c + 1) l ≡ some (z ∷ mid, c + 1 + length (z ∷ mid)))
        same ih in
    rw (select_one c xs (z ∷ mid ++ ys) y e, next)
      (ap (Option.map (λ (rest, last). (y ∷ rest, last))) ih'
        ∙ ap (λ k. some (y ∷ z ∷ mid, k)) (omega arith))

select_all-plus :
    (m n c : ℕ) (servers : List ℕ) {first second : List ℕ} {d e : ℕ}
    → select_all m c servers ≡ some (first, d)
    → select_all n d servers ≡ some (second, e)
    → select_all (m + n) c servers ≡ some (first ++ second, e)
unfolding select_all
select_all-plus zero n c servers {first} {second} {d} {e} f g =
    let nothing : [] ≡ first = ground arith in
    let stays : c ≡ d = ground arith in
    let alone : select_all n c servers ≡ some (first ++ second, e) =
      subst (λ k. select_all n k servers ≡ some (first ++ second, e)) (sym stays)
        (subst (λ k. select_all n d servers ≡ some (k ++ second, e)) nothing g) in
    ap (λ k. select_all k c servers) (omega arith) ∙ alone
select_all-plus (suc m) n c servers {first} {second} {d} {e} f g =
    let ((selected, next), one, f') = >>=-eq-some (round_robin_select c servers) _ f in
    let ((rest, last), more, made) = map-eq-some _ (select_all m next servers) f' in
    let all = select_all-plus m n next servers more (rw (ap (λ r. r.1) made) g) in
    let size : suc m + n ≡ suc (m + n) = omega arith in
    ap (λ k. select_all k c servers) size
    ∙ rw (one, all) (ap (λ r. some (r ++ second, e)) (ap (λ r. r.0) made))

split_at :
    (p : ℕ) (xs : List ℕ)
    → p ≤ length xs
    → (ys : List ℕ) × (zs : List ℕ) × (xs ≡ ys ++ zs) × (length ys ≡ p)
split_at zero xs h = ([], xs, refl, refl)
split_at (suc p) [] h = absurd (omega arith)
split_at (suc p) (x ∷ xs) h =
    let (ys, zs, e, l) = split_at p xs (omega arith) in (x ∷ ys, zs, ap (◌∷◌ x) e, ap suc l)

round :
    (c : ℕ) (ys zs : List ℕ)
    → c % length (ys ++ zs) ≡ length ys
    → c + length (ys ++ zs) < 2 ^ 64
    → select_all (length (ys ++ zs)) c (ys ++ zs) ≡ some (zs ++ ys, c + length (ys ++ zs))
round c ys zs e h =
    let size = length-append ys zs in
    let first = select_part c ys zs [] (rw (append-nil) e) (omega (arith, size)) in
    let full = mod_full c (length zs) (length (ys ++ zs)) (length ys) e (sym size) in
    let second = select_part (c + length zs) [] ys zs full (omega (arith, size)) in
    let first' =
      subst (λ l. select_all (length zs) c (ys ++ l) ≡ some (zs, c + length zs)) (append-nil zs)
        first in
    let whole : select_all (length zs + length ys) c (ys ++ zs)
        ≡ some (zs ++ ys, c + length zs + length ys) =
      select_all-plus (length zs) (length ys) c (ys ++ zs) first' second in
    ap (λ k. select_all k c (ys ++ zs)) (omega (arith, size))
    ∙ whole
    ∙ ap (λ k. some (zs ++ ys, k)) (omega (arith, size))

-- Any `n` calls in a row on the same `n` servers give every server as often as it is listed, if the
-- counter of 64 bits does not wrap during them.
pub select_all-fair :
    (c : ℕ) (server : ℕ) (servers : List ℕ)
    → c + length (server ∷ servers) < 2 ^ 64
    → (selected : List ℕ) × (select_all (length (server ∷ servers)) c (server ∷ servers)
        ≡ some (selected, c + length (server ∷ servers)))
      × ((a : ℕ) → count a selected ≡ count a (server ∷ servers))
select_all-fair c server servers h =
    let all : List ℕ = server ∷ servers in
    let (ys, zs, e, l) =
      split_at (c % length all) all (omega (arith, mod-lt c {m = length all} (omega arith))) in
    let turned =
      round c ys zs (ap (λ k. c % length k) (sym e) ∙ sym l)
        (subst (λ k. c + length k < 2 ^ 64) e h) in
    (
      zs ++ ys,
      subst (λ k. select_all (length k) c k ≡ some (zs ++ ys, c + length k)) (sym e) turned,
      λ a. omega (arith, count-append a zs ys, count-append a ys zs, ap (count a) e),
    )
