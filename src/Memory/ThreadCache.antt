-- ===== src/Memory/ThreadCache.antt =====
-- `ThreadCache` of include/async_toolkit/memory/allocator.hpp. A free list is kept with the back of
-- its vector first. `none` is undefined behaviour: an index past the array of free lists.
use async_toolkit.Base.{
  ℕ, ◌≤◌, ◌<◌, ◌≡◌, refl, sym, ◌∙◌, inl, inr, List, [], ◌∷◌, Option, none, some, arith, ltb,
  if◌then◌else◌, length, get_elem?, set, length-set, get_elem?-set_self, get_elem?-some,
  get_elem?-none, Bool-cases, dec_lt, map-eq-some, map-ne-none, map-ne-none_of, ◌>>=◌, lt→ltb,
  lt_of_get_elem?, set-set, set-get_elem?, subst, ◌≢◌, ◌↔◌, ℕ_discrete, get_elem?-set_ne,
}
use mathlib.Core.Option
use async_toolkit.Memory.SizeClass.{
  get_size_class, get_index, num_size_classes, get_index_in_range, medium_max,
}

abbrev pub cache_size : ℕ
cache_size = 1024

pub record ThreadCache : Type 0 where
  pub free_lists : List (List ℕ)

-- The two calls to the central cache are declared and never defined in the repository: parameters.
module _ {C : Type 0} (fetch_from_central_cache : ℕ → C → ℕ × C)
    (return_to_central_cache : ℕ → ℕ → C → C) where
  -- The rest of `allocate`, with the free list at hand.
  unfoldable pub take_from : ThreadCache → C → ℕ → List ℕ → ℕ × ThreadCache × C
  take_from t c size_class (ptr ∷ rest) =
      (ptr, record { free_lists = set t.free_lists (get_index size_class) rest }, c)
  take_from t c size_class [] =
      let (ptr, c') = fetch_from_central_cache size_class c in (ptr, t, c')

  unfoldable pub allocate : ThreadCache → C → ℕ → Option (ℕ × ThreadCache × C)
  unfolding take_from
  allocate t c size =
      Option.map (take_from t c (get_size_class size))
        (get_elem? t.free_lists (get_index (get_size_class size)))

  unfoldable pub give_to : ThreadCache → C → ℕ → ℕ → List ℕ → ThreadCache × C
  give_to t c ptr size_class free_list =
      if ltb (length free_list) cache_size
      then (record { free_lists = set t.free_lists (get_index size_class) (ptr ∷ free_list) }, c)
      else (t, return_to_central_cache ptr size_class c)

  unfoldable pub deallocate : ThreadCache → C → ℕ → ℕ → Option (ThreadCache × C)
  unfolding give_to
  deallocate t c ptr size =
      Option.map (give_to t c ptr (get_size_class size))
        (get_elem? t.free_lists (get_index (get_size_class size)))

-- The array has its length, and no free list is longer than the bound.
pub record IsValid (t : ThreadCache) : Type 0 where
  pub lists : length t.free_lists ≡ num_size_classes
  pub bounded : (i : ℕ) (l : List ℕ) → get_elem? t.free_lists i ≡ some l → length l ≤ cache_size

set-IsValid :
    (t : ThreadCache) (i : ℕ) (l : List ℕ)
    → IsValid t
    → length l ≤ cache_size
    → IsValid (record { free_lists = set t.free_lists i l })
set-IsValid t i l v h = record { lists = length-set t.free_lists i l ∙ v.lists; bounded = bounded }
  where
    bounded :
        (j : ℕ) (m : List ℕ) → get_elem? (set t.free_lists i l) j ≡ some m → length m ≤ cache_size
    bounded j m e = elim (ℕ_discrete i j) [
      | yes same ↦ elim (dec_lt i (length t.free_lists)) [
        | yes inside ↦
            subst (λ k. length k ≤ cache_size)
              (ground (arith, get_elem?-set_self t.free_lists i l inside)) h
        | no outside ↦
            absurd
              (ground (arith, get_elem?-none (set t.free_lists i l) j, length-set t.free_lists i l))
      ]
      | no other ↦ v.bounded j m (sym (get_elem?-set_ne t.free_lists l other) ∙ e)
    ]

module _ {C : Type 0} (fetch_from_central_cache : ℕ → C → ℕ × C)
    (return_to_central_cache : ℕ → ℕ → C → C) where
  abbrev alloc : ThreadCache → C → ℕ → Option (ℕ × ThreadCache × C)
  alloc = allocate fetch_from_central_cache return_to_central_cache

  abbrev dealloc : ThreadCache → C → ℕ → ℕ → Option (ThreadCache × C)
  dealloc = deallocate fetch_from_central_cache return_to_central_cache

  take_from-IsValid :
      (t : ThreadCache) (c : C) (k : ℕ) (l : List ℕ)
      → IsValid t
      → length l ≤ cache_size
      → IsValid (take_from fetch_from_central_cache return_to_central_cache t c k l).1
  unfolding take_from
  take_from-IsValid t c k [] v h = v
  take_from-IsValid t c k (p ∷ l) v h = set-IsValid t (get_index k) l v (omega arith)

  give_to-IsValid :
      (t : ThreadCache) (c : C) (p k : ℕ) (l : List ℕ)
      → IsValid t
      → IsValid (give_to fetch_from_central_cache return_to_central_cache t c p k l).0
  unfolding give_to
  give_to-IsValid t c p k l v = elim (Bool-cases (ltb (length l) cache_size)) [
    | inl room ↦ rw room (set-IsValid t (get_index k) (p ∷ l) v (ground arith))
    | inr full ↦ rw full v
  ]

  allocate-IsValid :
      (t : ThreadCache) (c : C) (size : ℕ) {r : ℕ × ThreadCache × C}
      → IsValid t
      → alloc t c size ≡ some r
      → IsValid r.1
  unfolding allocate
  allocate-IsValid t c size v e =
      let (l, found, here) = map-eq-some _ _ e in
      subst (λ x. IsValid x.1) here
        (take_from-IsValid t c (get_size_class size) l v (v.bounded _ l found))

  deallocate-IsValid :
      (t : ThreadCache) (c : C) (p size : ℕ) {r : ThreadCache × C}
      → IsValid t
      → dealloc t c p size ≡ some r
      → IsValid r.0
  unfolding deallocate
  deallocate-IsValid t c p size v e =
      let (l, found, here) = map-eq-some _ _ e in
      subst (λ x. IsValid x.0) here (give_to-IsValid t c p (get_size_class size) l v)

  -- In a valid cache, and for up to 65536 bytes, `allocate` and `deallocate` stay within the array
  -- of free lists exactly for 1 to 512 bytes.
  pub allocate_defined :
      (t : ThreadCache) (c : C) (p size : ℕ)
      → IsValid t
      → size ≤ medium_max
      → ((alloc t c size ≢ none) ↔ ((1 ≤ size) × (size ≤ 512)))
        × ((dealloc t c p size ≢ none) ↔ ((1 ≤ size) × (size ≤ 512)))
  unfolding allocate deallocate
  allocate_defined t c p size v h = (
    (λ d. reached (map-ne-none _ _ d), λ b. map-ne-none_of _ _ (inside b)),
    (λ d. reached (map-ne-none _ _ d), λ b. map-ne-none_of _ _ (inside b)),
  )
    where
      i : ℕ
      i = get_index (get_size_class size)

      reached : get_elem? t.free_lists i ≢ none → (1 ≤ size) × (size ≤ 512)
      reached d = elim (dec_lt i num_size_classes) [
        | yes below ↦ (get_index_in_range size h).0 below
        | no above ↦ absurd (d (get_elem?-none t.free_lists i (omega (arith, v.lists))))
      ]

      inside : (1 ≤ size) × (size ≤ 512) → get_elem? t.free_lists i ≢ none
      inside b e =
          let below = (get_index_in_range size h).1 b in
          let (l, found) = get_elem?-some t.free_lists i (omega (arith, v.lists)) in cc

  -- A block that is given back is the next to be handed out for the same size, and the cache is
  -- then as before, if the index of the size is within the array and its free list has room.
  pub allocate-deallocate :
      (t : ThreadCache) (c : C) (p size : ℕ) (l : List ℕ)
      → get_elem? t.free_lists (get_index (get_size_class size)) ≡ some l
      → length l < cache_size
      → (dealloc t c p size >>= λ (t', c'). alloc t' c' size) ≡ some (p, t, c)
  unfolding allocate deallocate give_to take_from
  allocate-deallocate t c p size l found room =
      let i = get_index (get_size_class size) in
      let inside = lt_of_get_elem? t.free_lists i found in
      rw (found, lt→ltb _ _ room, get_elem?-set_self t.free_lists i (p ∷ l) inside)
        (rw (set-set t.free_lists i (p ∷ l) l, set-get_elem? t.free_lists i l found) refl)
