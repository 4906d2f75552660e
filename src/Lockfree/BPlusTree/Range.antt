-- ===== src/Lockfree/BPlusTree/Range.antt =====
-- `BPlusTree::range_query` of include/async_toolkit/lockfree/bptree.hpp. What goes to the output iterator
-- is a list; the fuel bounds the height of the tree and the number of leaves, `none` is too little of it.
use mathlib.Core.Option
use async_toolkit.Base.{
  Bool-cases, if◌then◌else◌, leb, ltb, ltb→lt, map-eq-some, ◌==◌, ℕ, zero, suc, ◌+◌, ◌≤◌, ◌<◌, ◌≡◌,
  refl, sym, ap, ◌∙◌, subst, inl, inr, Bool, true, false, ◌&&◌, Option, none, some, List, [], ◌∷◌,
  ◌++◌, arith,
}
use async_toolkit.Lockfree.BPlusTree.Leaf.{Leaf}
use async_toolkit.Lockfree.BPlusTree.Tree.{Tree, find_leaf_node}

module _ {V : Type 0} where
  -- The inner loop with `left` entries left, from `i` on: the output, and whether it returned.
  unfoldable pub scan_leaf : (left i : ℕ) → Leaf V → (start stop : ℕ) → List (ℕ × V) × Bool
  scan_leaf zero i l start stop = ([], false)
  scan_leaf (suc k) i l start stop =
      let (found, stopped) = scan_leaf k (i + 1) l start stop in
      if ltb stop (l.keys i)
      then ([], true)
      else if leb start (l.keys i)
      then ((l.keys i, l.values i) ∷ found, stopped)
      else (found, stopped)

  -- The outer loop.
  unfoldable pub walk : (fuel : ℕ) → Tree V → (leaf start stop : ℕ) → Option (List (ℕ × V))
  unfolding scan_leaf
  walk zero t leaf start stop = none
  walk (suc k) t leaf start stop =
      let l = t.leaves leaf in
      let (found, stopped) = scan_leaf l.size 0 l start stop in
      let rest = Option.map (λ more. found ++ more) (walk k t l.next_leaf start stop) in
      if leaf == 0 then some [] else if stopped then some found else rest

  unfoldable pub range_query : (fuel : ℕ) → Tree V → (start stop : ℕ) → Option (List (ℕ × V))
  unfolding walk
  range_query fuel t start stop = elim (find_leaf_node fuel t start) [
    | none ↦ none
    | some (leaf, path) ↦ walk fuel t leaf start stop
  ]

  -- The entries of a leaf, and of the leaves from one on.
  abbrev pub entries_of : (left i : ℕ) → Leaf V → List (ℕ × V)
  entries_of zero i l = []
  entries_of (suc k) i l = (l.keys i, l.values i) ∷ entries_of k (i + 1) l

  abbrev pub all_entries : (fuel : ℕ) → Tree V → (leaf : ℕ) → Option (List (ℕ × V))
  all_entries zero t leaf = none
  all_entries (suc k) t leaf =
      let l = t.leaves leaf in
      let rest = Option.map (λ more. entries_of l.size 0 l ++ more) (all_entries k t l.next_leaf) in
      if leaf == 0 then some [] else rest

  abbrev pub within : (start stop : ℕ) → List (ℕ × V) → List (ℕ × V)
  within start stop [] = []
  within start stop ((key, value) ∷ es) =
      if leb start key && leb key stop
      then (key, value) ∷ within start stop es
      else within start stop es

  -- The keys ascend, from `low` on.
  abbrev pub Ascending : ℕ → List (ℕ × V) → Type 0
  Ascending low [] = Unit
  Ascending low ((key, value) ∷ es) = (low ≤ key) × Ascending (key + 1) es

  within-above :
      (low start stop : ℕ) (es : List (ℕ × V))
      → stop < low
      → Ascending low es
      → within start stop es ≡ []
  within-above low start stop [] h a = refl
  within-above low start stop ((key, value) ∷ es) h a =
      let ih = within-above (key + 1) start stop es (omega (arith, a.0)) a.1 in ground (arith, ih)

  within-append :
      (start stop : ℕ) (xs ys : List (ℕ × V))
      → within start stop (xs ++ ys) ≡ within start stop xs ++ within start stop ys
  within-append start stop [] ys = refl
  within-append start stop ((key, value) ∷ xs) ys =
      elim (Bool-cases (leb start key && leb key stop)) [
        | inl in_range ↦ rw in_range (ap (◌∷◌ (key, value)) (within-append start stop xs ys))
        | inr outside ↦ rw outside (within-append start stop xs ys)
      ]

  scan_leaf_lem :
      (k i low start stop : ℕ) (l : Leaf V) (more : List (ℕ × V))
      → Ascending low (entries_of k i l ++ more)
      → let (found, stopped) = scan_leaf k i l start stop in
        (stopped ≡ true → found ≡ within start stop (entries_of k i l ++ more))
        × (stopped ≡ false → found ≡ within start stop (entries_of k i l))
  unfolding scan_leaf
  scan_leaf_lem zero i low start stop l more a = (λ e. cc, λ e. refl)
  scan_leaf_lem (suc k) i low start stop l more a =
      let (whole, part) = scan_leaf_lem k (i + 1) (l.keys i + 1) start stop l more a.1 in
      let entry : ℕ × V = (l.keys i, l.values i) in
      let tail = entries_of k (i + 1) l ++ more in
      elim (Bool-cases (ltb stop (l.keys i))) [
        | inl past ↦
            let none_in : within start stop (entry ∷ tail) ≡ [] =
              within-above (l.keys i) start stop (entry ∷ tail) (ltb→lt _ _ past)
                (omega arith, a.1) in
            rw past ((λ e. sym none_in), λ e. cc)
        | inr here ↦
            let low_enough : leb (l.keys i) stop ≡ true = ground (arith, here) in
            elim (Bool-cases (leb start (l.keys i))) [
              | inl reached ↦
                  rw (here, reached, low_enough)
                    ((λ e. ap (◌∷◌ entry) (whole e)), λ e. ap (◌∷◌ entry) (part e))
              | inr early ↦ rw (here, early) (whole, part)
            ]
      ]

  Ascending-suffix :
      (low : ℕ) (xs ys : List (ℕ × V)) → Ascending low (xs ++ ys) → (k : ℕ) × Ascending k ys
  Ascending-suffix low [] ys a = (low, a)
  Ascending-suffix low ((key, value) ∷ xs) ys a = Ascending-suffix (key + 1) xs ys a.1

  walk_lem :
      (fuel : ℕ) (t : Tree V) (leaf low start stop : ℕ) (es : List (ℕ × V))
      → all_entries fuel t leaf ≡ some es
      → Ascending low es
      → walk fuel t leaf start stop ≡ some (within start stop es)
  unfolding walk
  walk_lem zero t leaf low start stop es e a = cc
  walk_lem (suc k) t leaf low start stop es e a =
      let l = t.leaves leaf in
      elim (Bool-cases (leaf == 0)) [
        | inl at_end ↦
            let nothing : some [] ≡ some es = rw at_end at e in
            let same : [] ≡ es = ground arith in
            rw at_end (ap (λ x. some (within start stop x)) same)
        | inr inside ↦
            let (more, next, made) = map-eq-some _ (all_entries k t l.next_leaf) (rw inside at e) in
            let asc : Ascending low (entries_of l.size 0 l ++ more) =
              subst (Ascending low) (sym made) a in
            let (low', asc') = Ascending-suffix low (entries_of l.size 0 l) more asc in
            let (whole, part) = scan_leaf_lem l.size 0 low start stop l more asc in
            elim (Bool-cases (scan_leaf l.size 0 l start stop).1) [
              | inl stopped ↦
                  rw (inside, stopped) (ap some (whole stopped ∙ ap (within start stop) made))
              | inr on ↦
                  let ih = walk_lem k t l.next_leaf low' start stop more next asc' in
                  rw (inside, on, ih)
                    (ap some (
                      ap (λ f. f ++ within start stop more) (part on)
                      ∙ sym (within-append start stop (entries_of l.size 0 l) more)
                      ∙ ap (within start stop) made))
            ]
      ]

  -- If the keys ascend along the linked leaves from the leaf that the search for `start` reaches, and the
  -- fuel reaches the last leaf, then the query gives exactly the entries of those leaves with keys from
  -- `start` to `stop`, in order.
  pub range_query_lem :
      (fuel : ℕ) (t : Tree V) (leaf start stop : ℕ) (path : List ℕ) (es : List (ℕ × V))
      → find_leaf_node fuel t start ≡ some (leaf, path)
      → all_entries fuel t leaf ≡ some es
      → Ascending 0 es
      → range_query fuel t start stop ≡ some (within start stop es)
  unfolding range_query
  range_query_lem fuel t leaf start stop path es found e a =
      rw (found, range_query) (walk_lem fuel t leaf 0 start stop es e a)
