-- ===== src/Lockfree/SkipList/Flat.antt =====
-- The calls of a skip list whose nodes have level 1, on the nodes of its lowest level.
use async_toolkit.Base.{
  Bool-cases, count, length, if◌then◌else◌, ltb, ◌==◌, ℕ, zero, suc, ◌≤◌, ◌<◌, ◌≡◌, refl, sym, ap,
  ◌∙◌, subst, ◌≢◌, inl, inr, true, false, not, ◌||◌, Option, none, some, List, [], ◌∷◌, arith,
  dec_lt, ℕ_discrete,
}
use async_toolkit.Lockfree.Queue.Chain.{Chain}
use async_toolkit.Lockfree.SkipList.{
  done, SkipList, Update, note, set_next, walk_to, search, add_node, set_value, walk_before,
  descend, find,
}
use async_toolkit.Lockfree.SkipList.Row.{
  Keys, before, count-before, first, after, starts_with, place, count-place, length-place,
  next-before, Chain-place,
}
use async_toolkit.Lockfree.SkipList.Lookup.{
  Keys-place, lookup, lookup-after, lookup-place, lookup-set,
}

pub Chain-pos :
    (next : ℕ → ℕ) (p : ℕ) (xs : List ℕ) (a : ℕ) → Chain next p xs → 0 < count a xs → 0 < a
Chain-pos next p [] a c h = absurd (omega arith)
Chain-pos next p (x ∷ xs) a (e, pos, c) h = elim (ℕ_discrete x a) [
  | yes same ↦ omega arith
  | no other ↦ Chain-pos next x xs a c (ground arith)
]

pub count-first :
    (key : ℕ → ℕ) (k : ℕ) (xs : List ℕ)
    → starts_with key k (after key k xs) ≡ true
    → 0 < count (first (after key k xs)) xs
count-first key k [] e = absurd (cc e)
count-first key k (x ∷ xs) e = elim (Bool-cases (ltb (key x) k)) [
  | inl smaller ↦
      let same : first (after key k (x ∷ xs)) ≡ first (after key k xs) = rw smaller refl in
      subst (λ a. 0 < count a (x ∷ xs)) (sym same)
        (omega (arith, count-first key k xs (rw smaller at e)))
  | inr larger ↦
      let same : first (after key k (x ∷ xs)) ≡ x = rw larger refl in
      subst (λ a. 0 < count a (x ∷ xs)) (sym same) (ground arith)
]

pub key-first :
    (key : ℕ → ℕ) (k : ℕ) (ys : List ℕ) → starts_with key k ys ≡ true → (key (first ys) == k) ≡ true
key-first key k [] e = absurd (cc e)
key-first key k (y ∷ ys) e = e

pub no_first :
    (key : ℕ → ℕ) (k : ℕ) (ys : List ℕ)
    → starts_with key k ys ≡ false
    → ((first ys == 0) || not (key (first ys) == k)) ≡ true
no_first key k [] e = refl
no_first key k (y ∷ ys) e = ground (arith, e)

module _ {V : Type 0} where
  -- The nodes `xs` behind the head are linked, have ascending keys and are not deleted; the level of the list is 1.
  pub record Inv (s : SkipList V) (xs : List ℕ) : Type 0 where
    pub chain : Chain (λ a. s.next a 0) s.head xs
    pub keys : Keys s.key 0 xs
    pub level : s.current_level ≡ 1
    pub head_off : count s.head xs ≡ 0
    pub head_set : 0 < s.head
    pub head_old : s.head < s.fresh
    pub old : (a : ℕ) → 0 < count a xs → a < s.fresh
    pub live : (a : ℕ) → 0 < count a xs → s.marked a ≡ false

  pub walk_to_lem :
      (fuel : ℕ) (s : SkipList V) (k p : ℕ) (xs : List ℕ)
      → Chain (λ a. s.next a 0) p xs
      → length xs < fuel
      → walk_to fuel s 0 k p ≡ done (before s.key k p xs, starts_with s.key k (after s.key k xs))
  unfolding walk_to
  walk_to_lem zero s k p xs c h = absurd (omega arith)
  walk_to_lem (suc fuel) s k p [] c h = rw c refl
  walk_to_lem (suc fuel) s k p (x ∷ xs) (e, pos, c) h =
      let rest = walk_to_lem fuel s k x xs c (omega arith) in rw e (ground (arith, rest))

  pub walk_before_lem :
      (fuel : ℕ) (s : SkipList V) (k p : ℕ) (xs : List ℕ)
      → Chain (λ a. s.next a 0) p xs
      → length xs < fuel
      → walk_before fuel s 0 k p ≡ done (before s.key k p xs)
  unfolding walk_before
  walk_before_lem zero s k p xs c h = absurd (omega arith)
  walk_before_lem (suc fuel) s k p [] c h = rw c refl
  walk_before_lem (suc fuel) s k p (x ∷ xs) (e, pos, c) h =
      let rest = walk_before_lem fuel s k x xs c (omega arith) in rw e (ground (arith, rest))

  pub descend_flat :
      (fuel : ℕ) (s : SkipList V) (k : ℕ) (xs : List ℕ) (update : Update)
      → Inv s xs
      → length xs < fuel
      → let b = before s.key k s.head xs in
        descend s.current_level fuel s k s.head update ≡ done (b, note update 0 b)
  unfolding descend
  descend_flat fuel s k xs update v h =
      ap (λ l. descend l fuel s k s.head update) v.level
      ∙ rw (walk_before_lem fuel s k s.head xs v.chain h) refl

  pub find_flat :
      (fuel : ℕ) (s : SkipList V) (k : ℕ) (xs : List ℕ)
      → Inv s xs
      → length xs < fuel
      → find fuel s k ≡ done (lookup s.key s.value k xs)
  unfolding find
  find_flat fuel s k xs v h =
      let walk = descend_flat fuel s k xs (λ l. none) v h in
      let at = next-before s.key (λ a. s.next a 0) k s.head xs v.chain in
      let value = lookup-after s.key s.value 0 k xs v.keys in
      let ys = after s.key k xs in
      elim (Bool-cases (starts_with s.key k ys)) [
        | inl found ↦
            let inside = count-first s.key k xs found in
            let alive = v.live (first ys) inside in
            let pos = Chain-pos _ s.head xs (first ys) v.chain inside in
            let not_null : (first ys == 0) ≡ false = ground (arith, pos) in
            let equal = key-first s.key k ys found in
            rw (walk, at, value, found) (ground (arith, alive, not_null, equal))
        | inr absent ↦
            let nothing = no_first s.key k ys absent in
            rw (walk, at, value, absent) (ground (arith, nothing))
      ]

  abbrev pub placed : SkipList V → (k b : ℕ) → V → SkipList V
  placed s k b v =
      let t = add_node s 1 k v in
      record t { next = set_next (set_next t.next s.fresh 0 (t.next b 0)) b 0 s.fresh }

  pub search_flat :
      (fuel : ℕ) (s : SkipList V) (k : ℕ) (xs : List ℕ) (update : Update)
      → Inv s xs
      → length xs < fuel
      → let b = before s.key k s.head xs in
        let ys = after s.key k xs in
        search s.current_level fuel s k s.head update
        ≡ done
            (if starts_with s.key k ys then (some (first ys), update) else (none, note update 0 b))
  unfolding search
  search_flat fuel s k xs update v h =
      let walk = walk_to_lem fuel s k s.head xs v.chain h in
      let at = next-before s.key (λ a. s.next a 0) k s.head xs v.chain in
      let ys = after s.key k xs in
      ap (λ l. search l fuel s k s.head update) v.level
      ∙ (elim (Bool-cases (starts_with s.key k ys)) [
        | inl found ↦
            let alive = v.live (first ys) (count-first s.key k xs found) in
            rw (walk, at, found, alive) refl
        | inr absent ↦ rw (walk, at, absent) refl
      ])

  -- What a call leaves: a list of this kind again, with at most so many nodes, where every key has this value.
  abbrev pub Leaves : SkipList V → (most : ℕ) → (ℕ → Option V) → Type 0
  Leaves r most m =
      (ys : List ℕ) × Inv r ys × (length ys ≤ most) × ((j : ℕ) → lookup r.key r.value j ys ≡ m j)

  pub overwrites :
      (s : SkipList V) (k : ℕ) (value : V) (xs : List ℕ)
      → Inv s xs
      → starts_with s.key k (after s.key k xs) ≡ true
      → Leaves
          (set_value s (first (after s.key k xs)) value)
          (suc (length xs))
          (λ j. if k == j then some value else lookup s.key s.value j xs)
  overwrites s k value xs v found =
      let x = first (after s.key k xs) in
      let r = set_value s x value in
      (
        xs,
        record {
          chain = v.chain;
          keys = v.keys;
          level = v.level;
          head_off = v.head_off;
          head_set = v.head_set;
          head_old = v.head_old;
          old = v.old;
          live = v.live;
        },
        omega arith,
        λ j.
            lookup-set s.key s.value r.value 0 k j value xs v.keys found (ground arith)
              (λ a u. ground (arith, u)),
      )

  pub places :
      (s : SkipList V) (k : ℕ) (value : V) (xs : List ℕ)
      → Inv s xs
      → starts_with s.key k (after s.key k xs) ≡ false
      → Leaves
          (placed s k (before s.key k s.head xs) value)
          (suc (length xs))
          (λ j. if k == j then some value else lookup s.key s.value j xs)
  places s k value xs v absent =
      let b = before s.key k s.head xs in
      let n = s.fresh in
      let r = placed s k b value in
      let on = count-before s.key k s.head xs in
      let new : count n xs ≡ 0 = elim (dec_lt 0 (count n xs)) [
        | yes i ↦ absurd (omega (arith, v.old n i))
        | no i ↦ omega arith
      ] in
      let not_head : n ≢ s.head = λ z. absurd (omega (arith, v.head_old, z)) in
      let b_old : b ≢ n = λ z. absurd (ground (arith, z, on, new, not_head)) in
      let other : (a : ℕ) → a ≢ n → (r.key a ≡ s.key a) × (r.value a ≡ s.value a) =
        λ a u. ground (arith, u) in
      let named : r.key n ≡ k = ground arith in
      (
        place s.key k n xs,
        record {
          chain =
              Chain-place s.key (λ a. s.next a 0) (λ a. r.next a 0) 0 k n s.head xs v.chain v.keys
                v.head_off (omega (arith, v.head_old)) (ground (arith, new, not_head))
                (ground (arith, b_old)) (ground (arith, b_old)) (λ a u w. ground (arith, u, w));
          keys =
              Keys-place s.key r.key 0 k n xs v.keys (omega arith) new named (λ a u. (other a u).0)
                absent;
          level = ground (arith, v.level);
          head_off = count-place s.key k n s.head xs ∙ ground (arith, v.head_off, not_head);
          head_set = v.head_set;
          head_old = omega (arith, v.head_old);
          old = λ a i. ground (arith, count-place s.key k n a xs, i, v.old a);
          live = λ a i. ground (arith, count-place s.key k n a xs, i, v.live a);
        },
        omega (arith, length-place s.key k n xs),
        λ j. lookup-place s.key r.key s.value r.value k n j xs new named other ∙ ground arith,
      )
