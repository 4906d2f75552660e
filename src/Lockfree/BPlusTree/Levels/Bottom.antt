-- ===== src/Lockfree/BPlusTree/Levels/Bottom.antt =====
-- `merge_nodes` in a tree in order: every branch, with all rounds of `merge_internal_node`.
use async_toolkit.Base.{
  Bool-cases, if◌then◌else◌, ltb, ==-false, ◌==◌, ℕ, ◌+◌, ◌-◌, ◌/◌, ◌≤◌, ◌<◌, ◌≡◌, refl, sym, ap,
  ◌∙◌, subst, inl, inr, false, none, some, List, ◌∷◌, arith,
}
use mathlib.Core.Option
use async_toolkit.Lockfree.BPlusTree.Leaf.{Leaf}
use async_toolkit.Lockfree.BPlusTree.Leaf
use async_toolkit.Lockfree.BPlusTree.Internal.{Internal}
use async_toolkit.Lockfree.BPlusTree.Tree.{Tree, find}
use async_toolkit.Lockfree.BPlusTree.Siblings.{borrow_last}
use async_toolkit.Lockfree.BPlusTree.Route.{index_of_lem}
use async_toolkit.Lockfree.BPlusTree.Merge.{
  choose, Plan, from_left, from_right, with_left, with_right, give_back, carry_out,
  merge_internal_node, merge_nodes,
}
use async_toolkit.Lockfree.BPlusTree.Merge.Parent.{IsParent}
use async_toolkit.Lockfree.BPlusTree.Merge.Keeps.{
  Rebalanced, changed, with_joined, lent_first-Rebalanced, lent_last-Rebalanced,
  with_joined-Rebalanced,
}
use async_toolkit.Lockfree.BPlusTree.Merge.Plans.{Chosen, choose-Chosen}
use async_toolkit.Lockfree.BPlusTree.Levels.Reach.{reach}
use async_toolkit.Lockfree.BPlusTree.Levels.Next.{
  IsPath, IsPath-frame, fewer-IsSorted_keys, fewer_old_key, fewer_first_child, next-IsLevelled,
}
use async_toolkit.Lockfree.BPlusTree.Levels.Rounds.{IsReady, IsClimbed}
use async_toolkit.Lockfree.BPlusTree.Levels.Climb.{merge_internal_node_lem}
use async_toolkit.Lockfree.BPlusTree.Levels.Found.{find-reach}
use async_toolkit.Lockfree.BPlusTree.Levels.Sound.{
  IsSound, Rebalanced-Same, at_parent, elsewhere, joined-Descends,
}

module _ {V : Type 0} (order : ℕ) (level up : ℕ → ℕ) (half : 0 < order / 2) (t : Tree V)
    (parent : ℕ) (upper : List ℕ) (sound : IsSound order level up half t) (one : level parent ≡ 1)
    (path : IsPath t.internals level t.root parent upper) where
  abbrev P : Internal
  P = t.internals parent

  abbrev child : ℕ → Leaf V
  child i = t.leaves (P.children i)

  abbrev ok : IsParent P t.leaves
  ok = sound.bottom parent one

  abbrev Alike : Tree V → Type 0
  Alike t' = (fuel key : ℕ) → level t.root < fuel → find fuel t' key ≡ find fuel t key

  abbrev Merged : (i : ℕ) → i < P.size → Tree V
  Merged i inside = with_joined t parent ok i inside t.freed

  merged-Alike : (i : ℕ) (inside : i < P.size) → Alike (Merged i inside)
  merged-Alike i inside =
      Rebalanced-Same order level up half t parent upper sound one path (Merged i inside)
        (with_joined-Rebalanced t parent ok i inside t.freed)

  merged-IsReady :
      (i : ℕ) (inside : i < P.size) → IsReady order level up half (Merged i inside) parent upper
  merged-IsReady i inside =
      let nodes' = (Merged i inside).internals in
      let here = at_parent order level up half t parent upper sound one path i inside in
      let same = elsewhere order level up half t parent upper sound one path i inside in
      record {
        levelled =
            next-IsLevelled t.internals nodes' level up parent sound.levelled (omega arith)
              (λ q h x. same q x)
              (subst (λ n. (a b : ℕ) → a < b → b < n.size → n.keys a < n.keys b) (sym here)
                (fewer-IsSorted_keys P i inside ok.keys_sorted))
              (subst (λ n. (m : ℕ) → m < n.size → (k : ℕ) × (k < P.size) × (n.keys m ≡ P.keys k))
                (sym here) (λ m h. fewer_old_key P i m inside h));
        descends = joined-Descends order level up half t parent upper sound one path i inside;
        inner = omega arith;
        path =
            IsPath-frame t.internals nodes' level t.root parent upper path
              (λ q h. same q (λ e. omega (arith, ap level e)));
        first_child =
            ap (λ n. level (n.children 0) + 1) here
            ∙ ap (λ c. level c + 1) (fewer_first_child P i inside)
            ∙ omega (arith, sound.bottom_level parent 0 one (omega arith), one);
      }

  climbed-Alike :
      (i : ℕ) (inside : i < P.size) (t' : Tree V)
      → IsClimbed order level up half (Merged i inside) t'
      → Alike t'
  climbed-Alike i inside t' c fuel key h =
      let m = Merged i inside in
      let kinds' : (a : ℕ) → t'.is_leaf a ≡ (level a == 0) =
        λ a. ap (λ f. f a) c.kinds ∙ sound.kinds a in
      let before = joined-Descends order level up half t parent upper sound one path i inside in
      find-reach t' level kinds' c.descends fuel key (omega (arith, c.no_higher))
      ∙ ap (λ f. some (Leaf.find (f (reach t'.internals t'.root key (level t'.root))) key)) c.leaves
      ∙ ap (λ a. some (Leaf.find (m.leaves a) key)) (c.reaches key)
      ∙ sym (find-reach m level sound.kinds before fuel key h)
      ∙ merged-Alike i inside fuel key h

  -- What the branches that join do after it, where `gone` is given back.
  goes_on :
      (i gone : ℕ) (inside : i < P.size)
      → (t' : Tree V) × ((if P.size == 0
            then none
            else Option.map (give_back gone) (
                if ltb (P.size - 1) (order / 2)
                then merge_internal_node order (Merged i inside) parent upper
                else some (Merged i inside)))
          ≡ some t')
        × Alike t'
  goes_on i gone inside =
      let (t', e, climbed) =
        merge_internal_node_lem order level up half (Merged i inside) parent upper
          (merged-IsReady i inside) in
      let some_key : (P.size == 0) ≡ false = ==-false P.size 0 (λ z. omega arith) in
      elim (Bool-cases (ltb (P.size - 1) (order / 2))) [
        | inl small ↦ (
          give_back gone t',
          rw (some_key, small, e) refl,
          climbed-Alike i inside (give_back gone t') (record {
            reaches = climbed.reaches;
            descends = climbed.descends;
            no_higher = climbed.no_higher;
            leaves = climbed.leaves;
            kinds = climbed.kinds;
          }),
        )
        | inr enough ↦ (
          give_back gone (Merged i inside),
          rw (some_key, enough) refl,
          Rebalanced-Same order level up half t parent upper sound one path _
              (with_joined-Rebalanced t parent ok i inside (gone ∷ t.freed)),
        )
      ]

  abbrev Outcome : Plan → ℕ → Type 0
  Outcome q pos =
      (t' : Tree V) × (carry_out q order t (P.children pos) pos parent upper ≡ some t') × Alike t'

  alike : (t' : Tree V) → Rebalanced t parent t' → Alike t'
  alike = Rebalanced-Same order level up half t parent upper sound one path

  lend_first : (pos : ℕ) → pos < P.size → 1 < (child (pos + 1)).size → Outcome from_right pos
  unfolding carry_out
  lend_first pos h more =
      let r = lent_first-Rebalanced t parent ok pos h more in (_, refl, alike _ r)

  join_right : (pos : ℕ) → pos < P.size → Outcome with_right pos
  unfolding carry_out
  join_right pos h = goes_on pos (P.children (pos + 1)) h

  lend_last : (i : ℕ) → i < P.size → 1 < (child i).size → Outcome from_left (i + 1)
  unfolding carry_out
  lend_last i h more =
      let back : i + 1 - 1 ≡ i = omega arith in
      let (l, n') = borrow_last (child i) (child (i + 1)) in
      (
        changed t parent ok i h (n'.keys 0) l n',
        rw back refl,
        alike _ (lent_last-Rebalanced t parent ok i h more),
      )

  join_left : (i : ℕ) → i < P.size → Outcome with_left (i + 1)
  unfolding carry_out
  join_left i h =
      let back : i + 1 - 1 ≡ i = omega arith in
      let (t', e, same) = goes_on i (P.children (i + 1)) h in (t', rw back e, same)

  chosen-Outcome :
      (q : Plan) (pos : ℕ)
      → pos ≤ P.size
      → Chosen (order / 2) pos P.size (child (pos - 1)).size (child (pos + 1)).size q
      → Outcome q pos
  unfolding Chosen
  chosen-Outcome from_right pos h c = lend_first pos c.0 (omega arith)
  chosen-Outcome with_right pos h c = join_right pos (omega (arith, sound.some_key parent one))
  chosen-Outcome from_left pos h c =
      let at : pos - 1 + 1 ≡ pos = omega arith in
      subst (Outcome from_left) at (lend_last (pos - 1) (omega arith) (omega arith))
  chosen-Outcome with_left pos h c =
      let at : pos - 1 + 1 ≡ pos = omega arith in
      subst (Outcome with_left) at (join_left (pos - 1) (omega arith))

  -- Whatever `merge_nodes` does about a leaf below the parent, it succeeds, and a search finds at each key what it found.
  pub merge_nodes-Same :
      (pos : ℕ)
      → pos ≤ P.size
      → (t' : Tree V) × (merge_nodes order t (P.children pos) (parent ∷ upper) ≡ some t') × Alike t'
  unfolding merge_nodes
  merge_nodes-Same pos h =
      let left = child (pos - 1) in
      let right = child (pos + 1) in
      let (t', e, same) =
        chosen-Outcome (choose (order / 2) pos P.size left.size right.size) pos h
          (choose-Chosen (order / 2) pos P.size left.size right.size) in
      (t', rw (index_of_lem P pos h ok.distinct) e, same)
