-- ===== src/Lockfree/SkipList/Calls.antt =====
-- One call of a skip list whose nodes have level 1.
use mathlib.Core.Path.{ap₂}
use async_toolkit.Base.{
  Bool-cases, count, length, if◌then◌else◌, ltb, ◌==◌, ℕ, zero, suc, ◌+◌, ◌<◌, ◌≡◌, refl, ap, ◌∙◌,
  ◌≢◌, inl, inr, true, false, none, some, List, [], ◌∷◌, arith, ℕ_discrete,
}
use async_toolkit.Lockfree.SkipList.{
  done, SkipList, Update, note, set_next, link, insert, unlink_at, unlink, remove,
}
use async_toolkit.Lockfree.SkipList.Row.{
  Keys, Keys-count, before, first, after, starts_with, drop, count-drop, length-drop, next-before,
  Chain-drop,
}
use async_toolkit.Lockfree.SkipList.Lookup.{Keys-drop, lookup, lookup-after, lookup-drop}
use async_toolkit.Lockfree.SkipList.Flat.{
  Inv, Leaves, placed, places, overwrites, descend_flat, search_flat, Chain-pos, count-first,
  key-first, no_first,
}

-- A node that is taken out is not among the others.
gone :
    (key : ℕ → ℕ) (low k : ℕ) (xs : List ℕ)
    → Keys key low xs
    → starts_with key k (after key k xs) ≡ true
    → count (first (after key k xs)) (drop key k xs) ≡ 0
gone key low k [] keys there = absurd (cc there)
gone key low k (x ∷ xs) (h, keys) there = elim (Bool-cases (ltb (key x) k)) [
  | inl smaller ↦
      let on : starts_with key k (after key k xs) ≡ true = rw smaller at there in
      let node = first (after key k xs) in
      let same : first (after key k (x ∷ xs)) ≡ node = rw smaller refl in
      let left : drop key k (x ∷ xs) ≡ x ∷ drop key k xs = rw smaller refl in
      let apart : x ≢ node =
        λ z. absurd (ground (arith, smaller, key-first key k (after key k xs) on, z)) in
      ap₂ count same left ∙ ground (arith, apart, gone key (key x + 1) k xs keys on)
  | inr larger ↦
      let equal : (key x == k) ≡ true = rw larger at there in
      let same : first (after key k (x ∷ xs)) ≡ x = rw larger refl in
      let left : drop key k (x ∷ xs) ≡ xs = rw (larger, equal) refl in
      ap₂ count same left ∙ Keys-count key (key x + 1) x xs keys (omega arith)
]

module _ {V : Type 0} where
  pub insert_flat :
      (fuel : ℕ) (s : SkipList V) (k : ℕ) (value : V) (xs : List ℕ)
      → Inv s xs
      → length xs < fuel
      → (r : SkipList V) × (insert fuel s 1 k value ≡ done (true, r))
        × Leaves r (suc (length xs)) (λ j. if k == j then some value else lookup s.key s.value j xs)
  unfolding insert link
  insert_flat fuel s k value xs v h =
      let searched = search_flat fuel s k xs (λ l. none) v h in
      let ys = after s.key k xs in
      elim (Bool-cases (starts_with s.key k ys)) [
        | inl there ↦ (_, rw (searched, there) refl, overwrites s k value xs v there)
        | inr absent ↦ (
          placed s k (before s.key k s.head xs) value,
          rw (searched, absent) refl,
          places s k value xs v absent,
        )
      ]

  -- The list without the node behind `b`.
  abbrev unlinked : SkipList V → (b : ℕ) → SkipList V
  unlinked s b =
      let node = s.next b 0 in
      record s {
        marked = λ a. if a == node then true else s.marked a;
        next = set_next s.next b 0 (s.next node 0);
      }

  unlink_flat :
      (levels fuel : ℕ) (s : SkipList V) (b : ℕ) (update : Update)
      → levels ≡ 1
      → 0 < fuel
      → 0 < s.next b 0
      → unlink levels 0 fuel s (s.next b 0) (note update 0 b)
        ≡ done (record s { next = set_next s.next b 0 (s.next (s.next b 0) 0) })
  unfolding unlink unlink_at
  unlink_flat levels zero s b update one h pos = absurd (omega arith)
  unlink_flat levels (suc fuel) s b update one h pos =
      let not_null : (s.next b 0 == 0) ≡ false = ground (arith, pos) in
      let itself : (s.next b 0 == s.next b 0) ≡ true = ground arith in
      rw (one, not_null, itself) refl

  takes_out :
      (s : SkipList V) (k : ℕ) (xs : List ℕ)
      → Inv s xs
      → starts_with s.key k (after s.key k xs) ≡ true
      → Leaves
          (unlinked s (before s.key k s.head xs))
          (suc (length xs))
          (λ j. if k == j then none else lookup s.key s.value j xs)
  takes_out s k xs v there =
      let b = before s.key k s.head xs in
      let at = next-before s.key (λ a. s.next a 0) k s.head xs v.chain in
      let node = first (after s.key k xs) in
      let r = unlinked s b in
      let shorter : (a : ℕ) → 0 < count a (drop s.key k xs) → (0 < count a xs) × (a ≢ node) = λ a i.
        (
          omega (arith, i, count-drop s.key k a xs),
          λ z. absurd (ground (arith, i, gone s.key 0 k xs v.keys there, z)),
        ) in
      (
        drop s.key k xs,
        record {
          chain =
              Chain-drop s.key (λ a. s.next a 0) (λ a. r.next a 0) 0 k s.head xs v.chain v.keys
                v.head_off there (ground (arith, at)) (λ a u. ground (arith, u));
          keys = Keys-drop s.key 0 k xs v.keys;
          level = v.level;
          head_off = omega (arith, v.head_off, count-drop s.key k s.head xs);
          head_set = v.head_set;
          head_old = v.head_old;
          old = λ a i. v.old a (shorter a i).0;
          live = λ a i. ground (arith, at, (shorter a i).1, v.live a (shorter a i).0);
        },
        omega (arith, length-drop s.key k xs),
        λ j. lookup-drop s.key s.value 0 k j xs v.keys,
      )

  pub remove_flat :
      (fuel : ℕ) (s : SkipList V) (k : ℕ) (xs : List ℕ)
      → Inv s xs
      → length xs < fuel
      → (r : SkipList V) × (remove fuel s k
          ≡ done (elim (lookup s.key s.value k xs) [ none ↦ false | some w ↦ true ], r))
        × Leaves r (suc (length xs)) (λ j. if k == j then none else lookup s.key s.value j xs)
  unfolding remove
  remove_flat fuel s k xs v h =
      let b = before s.key k s.head xs in
      let walk = descend_flat fuel s k xs (λ l. none) v h in
      let at = next-before s.key (λ a. s.next a 0) k s.head xs v.chain in
      let value = lookup-after s.key s.value 0 k xs v.keys in
      let ys = after s.key k xs in
      elim (Bool-cases (starts_with s.key k ys)) [
        | inl there ↦
            let inside = count-first s.key k xs there in
            let alive = v.live (first ys) inside in
            let pos = Chain-pos _ s.head xs (first ys) v.chain inside in
            let equal = key-first s.key k ys there in
            let marked : SkipList V = record s {
              marked = λ a. if a == s.next b 0 then true else s.marked a;
            } in
            let behind : 0 < s.next b 0 = omega (arith, at, pos) in
            let out : unlink s.current_level 0 fuel marked (s.next b 0) (note (λ l. none) 0 b)
                ≡ done (unlinked s b) =
              unlink_flat s.current_level fuel marked b (λ l. none) v.level (omega arith) behind in
            let known : (s.key (s.next b 0) == k) ≡ true = ap (λ a. s.key a == k) at ∙ equal in
            let linked : (s.next b 0 == 0) ≡ false = ground (arith, behind) in
            let unmarked : s.marked (s.next b 0) ≡ false = ap s.marked at ∙ alive in
            let present : lookup s.key s.value k xs ≡ some (s.value (first ys)) =
              value ∙ rw there refl in
            (
              unlinked s b,
              rw (walk, out, present, linked, known, unmarked) refl,
              takes_out s k xs v there,
            )
        | inr absent ↦
            let nothing = no_first s.key k ys absent in
            let missing : lookup s.key s.value k xs ≡ none = value ∙ rw absent refl in
            (
              s,
              rw (walk, at, missing) (ground (arith, nothing)),
              (
                xs,
                v,
                omega arith,
                λ j. elim (ℕ_discrete k j) [
                  | yes same ↦ ground (arith, same, missing)
                  | no other ↦ ground (arith, other)
                ],
              ),
            )
      ]
