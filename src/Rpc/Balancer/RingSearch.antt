-- ===== src/Rpc/Balancer/RingSearch.antt =====
-- The search on the ring of `ConsistentHashLoadBalancer`.
use async_toolkit.Base.{
  Bool-cases, Option-cases, count, length, ltb, ltb→lt, ℕ, ◌+◌, ◌≤◌, ◌<◌, ◌≡◌, refl, ◌⊎◌, inl, inr,
  true, Option, none, some, List, [], ◌∷◌, arith,
}
use async_toolkit.PriorityQueue.{All, All-map}
use async_toolkit.Rpc.Balancer.Ring.{ring_set, lower_bound, at_or_after, same_servers}

pub same_servers_lem : (xs ys : List ℕ) → same_servers xs ys ≡ true → xs ≡ ys
unfolding same_servers
same_servers_lem [] [] e = refl
same_servers_lem (x ∷ xs) (y ∷ ys) e = ground (arith, same_servers_lem xs ys)
same_servers_lem [] (y ∷ ys) e = cc
same_servers_lem (x ∷ xs) [] e = cc

abbrev pub Sorted : ℕ → List (ℕ × ℕ) → Type 0
Sorted low [] = Unit
Sorted low ((key, server) ∷ ring) = (low ≤ key) × Sorted (key + 1) ring

abbrev pub From : List ℕ → List (ℕ × ℕ) → Type 0
From servers = All λ (key, server). 0 < count server servers

pub ring_set-Sorted :
    (low hash server : ℕ) (ring : List (ℕ × ℕ))
    → low ≤ hash
    → Sorted low ring
    → Sorted low (ring_set hash server ring)
unfolding ring_set
ring_set-Sorted low hash server [] h s = (h, tt)
ring_set-Sorted low hash server ((key, other) ∷ ring) h s =
    ground (arith, ring_set-Sorted (key + 1) hash server ring)

pub ring_set-From :
    (servers : List ℕ) (hash server : ℕ) (ring : List (ℕ × ℕ))
    → 0 < count server servers
    → From servers ring
    → From servers (ring_set hash server ring)
unfolding ring_set
ring_set-From servers hash server [] h f = (h, tt)
ring_set-From servers hash server ((key, other) ∷ ring) h f =
    ground (arith, ring_set-From servers hash server ring)

pub ring_set-ne-nil :
    (hash server : ℕ) (ring : List (ℕ × ℕ)) → 0 < length (ring_set hash server ring)
unfolding ring_set
ring_set-ne-nil hash server [] = omega arith
ring_set-ne-nil hash server ((key, other) ∷ ring) = ground arith

above :
    (low key : ℕ) (ring : List (ℕ × ℕ)) → key ≤ low → Sorted low ring → All (λ (k, s). key ≤ k) ring
above low key [] h s = tt
above low key ((k, server) ∷ ring) h s = (ground arith, above (k + 1) key ring (ground arith) s.1)

-- The entry at or after `now` on the ring, or the first one when there is none.
abbrev pub IsNext : (now key : ℕ) → List (ℕ × ℕ) → Type 0
IsNext now key = All λ (k, s). (now ≤ k → (now ≤ key) × (key ≤ k)) × (key < now → key ≤ k)

abbrev pub HasEntry : ℕ → ℕ → List (ℕ × ℕ) → Type 0
HasEntry key server [] = ⊥
HasEntry key server ((k, s) ∷ ring) = ((k ≡ key) × (s ≡ server)) ⊎ HasEntry key server ring

lower_bound-some :
    (low now : ℕ) (ring : List (ℕ × ℕ)) {key server : ℕ}
    → Sorted low ring
    → lower_bound now ring ≡ some (key, server)
    → (now ≤ key) × All (λ (k, s). now ≤ k → key ≤ k) ring × HasEntry key server ring
unfolding lower_bound
lower_bound-some low now [] s e = cc
lower_bound-some low now ((k, t) ∷ ring) {key} {server} s e = elim (Bool-cases (ltb k now)) [
  | inl early ↦
      let (a, b, c) = lower_bound-some (k + 1) now ring s.1 (rw early at e) in
      (a, (λ h. absurd (omega (arith, ltb→lt _ _ early)), b), inr c)
  | inr late ↦
      let (f, g) : (k ≡ key) × (t ≡ server) =
        let found : ◌≡◌ {A = Option (ℕ × ℕ)} (some (k, t)) (some (key, server)) = rw late at e in
        (ground arith, ground arith) in
      (
        ground arith,
        (λ h. omega arith, All-map (λ a h m. h) ring (above (k + 1) key ring (omega arith) s.1)),
        inl (f, g),
      )
]

lower_bound-none :
    (now : ℕ) (ring : List (ℕ × ℕ)) → lower_bound now ring ≡ none → All (λ (k, s). k < now) ring
unfolding lower_bound
lower_bound-none now [] e = tt
lower_bound-none now ((k, t) ∷ ring) e = ground (arith, lower_bound-none now ring)

first-IsNext :
    (now key : ℕ) (ring : List (ℕ × ℕ))
    → All (λ (k, s). k < now) ring
    → All (λ (k, s). key ≤ k) ring
    → IsNext now key ring
first-IsNext now key [] h s = tt
first-IsNext now key ((k, t) ∷ ring) h s =
    ((λ m. absurd (omega (arith, h.0)), λ m. s.0), first-IsNext now key ring h.1 s.1)

pub at_or_after_lem :
    (now : ℕ) (ring : List (ℕ × ℕ))
    → 0 < length ring
    → Sorted 0 ring
    → (key : ℕ) × (server : ℕ) × (at_or_after now ring ≡ some (key, server))
      × IsNext now key ring
      × HasEntry key server ring
unfolding at_or_after
at_or_after_lem now [] h s = absurd (omega arith)
at_or_after_lem now ((k, t) ∷ ring) h s = elim (Option-cases (lower_bound now ((k, t) ∷ ring))) [
  | inl e ↦
      let late = lower_bound-none now ((k, t) ∷ ring) e in
      (
        k,
        t,
        rw (e, at_or_after) refl,
        (
          (λ m. absurd (omega (arith, late.0)), λ m. omega arith),
          first-IsNext now k ring late.1 (above (k + 1) k ring (omega arith) s.1),
        ),
        inl (refl, refl),
      )
  | inr ((key, server), e) ↦
      let (a, b, c) = lower_bound-some 0 now ((k, t) ∷ ring) s e in
      (
        key,
        server,
        rw (e, at_or_after) refl,
        All-map (λ u m. (λ n. (a, m n), λ n. absurd (omega arith))) ((k, t) ∷ ring) b,
        c,
      )
]
