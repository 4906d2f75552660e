-- ===== src/Lockfree/BPlusTree/Levels/Plans.antt =====
-- The four ways in which `merge_internal_node` changes one level.
use async_toolkit.Base.{
  ==-false, ==-refl, ℕ, ◌+◌, ◌-◌, ◌≤◌, ◌<◌, ◌≡◌, refl, sym, ap, subst, ◌≢◌, arith,
}
use async_toolkit.Lockfree.BPlusTree.Arrays.{write}
use async_toolkit.Lockfree.BPlusTree.Internal.{Internal}
use async_toolkit.Lockfree.BPlusTree.Siblings.{
  remove_child, borrow_last_child, borrow_first_child, join_internals,
}
use async_toolkit.Lockfree.BPlusTree.Siblings.Routes.{join_internals_lem}
use async_toolkit.Lockfree.BPlusTree.Siblings.Lent.{borrow_last_child_lem, borrow_first_child_lem}
use async_toolkit.Lockfree.BPlusTree.Merge.{set_key}
use async_toolkit.Lockfree.BPlusTree.Levels.Reach.{Descends}
use async_toolkit.Lockfree.BPlusTree.Levels.Step.{IsLevelled, IsStep, Kept, moved-Kept, joined-Kept}

last_key : (l : Internal) (k : ℕ) (r : Internal) → (borrow_last_child l k r).2 ≡ l.keys (l.size - 1)
unfolding borrow_last_child
last_key l k r = refl

first_key : (l : Internal) (k : ℕ) (r : Internal) → (borrow_first_child l k r).2 ≡ r.keys 0
unfolding borrow_first_child
first_key l k r = refl

module _ (nodes : ℕ → Internal) (level up : ℕ → ℕ) (root parent : ℕ) {low : ℕ}
    (levelled : IsLevelled nodes level up low) (descends : Descends nodes level root)
    (over_low : low + 1 ≡ level parent) (inner : 0 < low) (below_root : level parent ≤ level root)
    (i : ℕ) (inside : i < (nodes parent).size) where
  abbrev P : Internal
  P = nodes parent

  abbrev a : ℕ
  a = P.children i

  abbrev b : ℕ
  b = P.children (i + 1)

  a-b : a ≢ b
  a-b = levelled.distinct parent i (i + 1) (omega arith) (omega arith) (omega arith)

  a-parent : a ≢ parent
  a-parent e = omega (arith, levelled.child_level parent i (omega arith) (omega arith), ap level e)

  b-parent : b ≢ parent
  b-parent e =
      omega (arith, levelled.child_level parent (i + 1) (omega arith) (omega arith), ap level e)

  abbrev Step : (nodes' : ℕ → Internal) (l r p' : Internal) → Type 0
  Step nodes' l r p' =
      IsStep nodes level up root parent levelled descends over_low inner below_root i inside nodes'
        l r p'

  pub lent_last-Kept :
      1 < (nodes a).size
      → let (l, r, key) = borrow_last_child (nodes a) (P.keys i) (nodes b) in
        Kept nodes (write (write (write nodes b r) a l) parent (set_key P i key)) level root
  lent_last-Kept more =
      let (l, r, key) = borrow_last_child (nodes a) (P.keys i) (nodes b) in
      let nodes' = write (write (write nodes b r) a l) parent (set_key P i key) in
      let left_sorted = levelled.child_sorted parent i (omega arith) (omega arith) in
      let under = levelled.below parent i ((nodes a).size - 1) (omega arith) inside (omega arith) in
      let (same, _, _) =
        borrow_last_child_lem (nodes a) (P.keys i) (nodes b) left_sorted
          (λ m h. omega (arith, levelled.below parent i m (omega arith) inside h)) (omega arith) in
      let moved_key : key ≡ (nodes a).keys ((nodes a).size - 1) =
        last_key (nodes a) (P.keys i) (nodes b) in
      let step : Step nodes' l r (set_key P i key) = record {
        at_left = rw (==-false a parent a-parent, ==-refl a) refl;
        at_right = rw (==-false b parent b-parent, ==-false b a (λ e. a-b (sym e)), ==-refl b) refl;
        at_parent = rw (==-refl parent) refl;
        frame = λ q x y z. rw (==-false q parent x, ==-false q a y, ==-false q b z) refl;
      } in
      moved-Kept nodes level up root parent levelled descends over_low inner below_root i inside
        nodes' l r (set_key P i key) step key refl same
        (λ pos.
          let back : i - 1 + 1 ≡ i = omega arith in
          let first : P.keys (i - 1) ≤ (nodes (P.children (i - 1 + 1))).keys 0 =
            levelled.above parent (i - 1) 0 (omega arith) (omega arith)
              (subst (λ m. 0 < (nodes (P.children m)).size) (sym back) (omega arith)) in
          omega (
            arith,
            moved_key,
            subst (λ m. P.keys (i - 1) ≤ (nodes (P.children m)).keys 0) back first,
            left_sorted 0 ((nodes a).size - 1) (omega arith) (omega arith),
          ))
        (λ next. omega (
          arith,
          moved_key,
          under,
          levelled.sorted parent (omega arith) i (i + 1) (omega arith) next,
        ))

  pub lent_first-Kept :
      1 < (nodes b).size
      → let (l, r, key) = borrow_first_child (nodes a) (P.keys i) (nodes b) in
        Kept nodes (write (write (write nodes a l) b r) parent (set_key P i key)) level root
  lent_first-Kept more =
      let (l, r, key) = borrow_first_child (nodes a) (P.keys i) (nodes b) in
      let nodes' = write (write (write nodes a l) b r) parent (set_key P i key) in
      let right_sorted = levelled.child_sorted parent (i + 1) (omega arith) (omega arith) in
      let over = levelled.above parent i 0 (omega arith) inside (omega arith) in
      let (same, _, _) =
        borrow_first_child_lem (nodes a) (P.keys i) (nodes b) right_sorted
          (λ m h. omega (arith, levelled.below parent i m (omega arith) inside h)) over
          (omega arith) in
      let moved_key : key ≡ (nodes b).keys 0 = first_key (nodes a) (P.keys i) (nodes b) in
      let step : Step nodes' l r (set_key P i key) = record {
        at_left = rw (==-false a parent a-parent, ==-false a b a-b, ==-refl a) refl;
        at_right = rw (==-false b parent b-parent, ==-refl b) refl;
        at_parent = rw (==-refl parent) refl;
        frame = λ q x y z. rw (==-false q parent x, ==-false q b z, ==-false q a y) refl;
      } in
      moved-Kept nodes level up root parent levelled descends over_low inner below_root i inside
        nodes' l r (set_key P i key) step key refl same
        (λ pos. omega (
          arith,
          moved_key,
          over,
          levelled.sorted parent (omega arith) (i - 1) i (omega arith) inside,
        ))
        (λ next.
          omega
            (arith, moved_key, levelled.below parent (i + 1) 0 (omega arith) next (omega arith)))

  abbrev pub with_joined : ℕ → Internal
  with_joined =
      write (write nodes a (join_internals (nodes a) (P.keys i) (nodes b))) parent
        (remove_child P i)

  pub joined_nodes-Kept : Kept nodes with_joined level root
  joined_nodes-Kept =
      let l = join_internals (nodes a) (P.keys i) (nodes b) in
      let step : Step with_joined l (nodes b) (remove_child P i) = record {
        at_left = rw (==-false a parent a-parent, ==-refl a) refl;
        at_right = rw (==-false b parent b-parent, ==-false b a (λ e. a-b (sym e))) refl;
        at_parent = rw (==-refl parent) refl;
        frame = λ q x y z. rw (==-false q parent x, ==-false q a y) refl;
      } in
      let (same, _) =
        join_internals_lem (nodes a) (P.keys i) (nodes b)
          (λ m h. omega (arith, levelled.below parent i m (omega arith) inside h)) in
      joined-Kept nodes level up root parent levelled descends over_low inner below_root i inside
        with_joined l (nodes b) (remove_child P i) step refl same
