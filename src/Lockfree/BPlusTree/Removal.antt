-- ===== src/Lockfree/BPlusTree/Removal.antt =====
-- What `remove` of include/async_toolkit/lockfree/bptree.hpp does to the leaf with the key, and to the parent of that leaf.
use async_toolkit.Base.{
  ==-false, ==-refl, if◌then◌else◌, ltb, ◌==◌, ℕ, ◌+◌, ◌/◌, ◌≤◌, ◌<◌, ◌≡◌, refl, sym, subst, ◌≢◌,
  true, false, Option, none, some, List, arith, ℕ_discrete,
}
use mathlib.Core.Option
use async_toolkit.Lockfree.BPlusTree.Arrays.{write}
use async_toolkit.Lockfree.BPlusTree.Leaf.{Leaf, IsSorted}
use async_toolkit.Lockfree.BPlusTree.Leaf
use async_toolkit.Lockfree.BPlusTree.Leaf.Remove.{remove_lem}
use async_toolkit.Lockfree.BPlusTree.Internal.{Internal}
use async_toolkit.Lockfree.BPlusTree.Tree.{Tree, set_leaf, find_leaf_node, find}
use async_toolkit.Lockfree.BPlusTree.Siblings.Leaves.{find-Holds, Holds-find}
use async_toolkit.Lockfree.BPlusTree.Merge.{merge_nodes}
use async_toolkit.Lockfree.BPlusTree.Merge
use async_toolkit.Lockfree.BPlusTree.Merge.Parent.{IsParent}

Option-eq_id : {A : Type 0} (o : Option A) → o ≡ Option.map (λ old. old) o
Option-eq_id none = refl
Option-eq_id (some a) = refl

module _ {V : Type 0} where
  -- A leaf that holds nothing new keeps the bounds of the old one.
  abbrev pub Shrinks : Leaf V → Leaf V → Type 0
  Shrinks l l' = (i : ℕ) → i < l'.size → (m : ℕ) × (m < l.size) × (l.keys m ≡ l'.keys i)

  pub removed-Shrinks :
      (l : Leaf V) (key : ℕ)
      → IsSorted l
      → (Leaf.remove l key).0 ≡ true
      → Shrinks l (Leaf.remove l key).1
  removed-Shrinks l key sorted done i h =
      let l' = (Leaf.remove l key).1 in
      let (sorted', spec, _) = (remove_lem l sorted key).0 done in
      let e = find-Holds l' (l'.keys i) (l'.values i) sorted' (i, h, refl, refl) in
      let (m, a, b, c) =
        Holds-find l (l'.keys i) (l'.values i) (ground (arith, spec (l'.keys i))) in
      (m, a, b)

  module _ (leaves : ℕ → Leaf V) (a : ℕ) (l' : Leaf V) (shrinks : Shrinks (leaves a) l') where
    kept_bound :
        (P : ℕ → Type 0) (c : ℕ)
        → ((m : ℕ) → m < (leaves c).size → P ((leaves c).keys m))
        → (m : ℕ) → m < (write leaves a l' c).size
        → P ((write leaves a l' c).keys m)
    kept_bound P c h = elim (ℕ_discrete c a) [
      | yes here ↦
          subst (λ d. (m : ℕ) → m < (write leaves a l' d).size → P ((write leaves a l' d).keys m))
            (sym here)
            (rw (==-refl a) λ m k.
              let (m', k', e) = shrinks m k in
              subst P e
                (subst (λ d. (i : ℕ) → i < (leaves d).size → P ((leaves d).keys i)) here h m' k'))
      | no there ↦ rw (==-false c a there) h
    ]

    kept-IsSorted : (c : ℕ) → IsSorted l' → IsSorted (leaves c) → IsSorted (write leaves a l' c)
    kept-IsSorted c new old = elim (ℕ_discrete c a) [
      | yes here ↦ subst (λ d. IsSorted (write leaves a l' d)) (sym here) (rw (==-refl a) new)
      | no there ↦ rw (==-false c a there) old
    ]

    -- The parent of leaves stays one when a leaf shrinks.
    pub shrunk-IsParent :
        (n : Internal) → IsParent n leaves → IsSorted l' → IsParent n (write leaves a l')
    shrunk-IsParent n parent sorted = record {
      keys_sorted = parent.keys_sorted;
      distinct = parent.distinct;
      sorted = λ i h. kept-IsSorted (n.children i) sorted (parent.sorted i h);
      pair = λ i h.
          let old = parent.pair i h in
          record {
            low_sorted = kept-IsSorted (n.children i) sorted old.low_sorted;
            high_sorted = kept-IsSorted (n.children (i + 1)) sorted old.high_sorted;
            below = kept_bound (λ k. k < n.keys i) (n.children i) old.below;
            above = kept_bound (λ k. n.keys i ≤ k) (n.children (i + 1)) old.above;
          };
    }

  pub present : (l : Leaf V) (key : ℕ) → (Leaf.remove l key).0 ≡ true → Leaf.find l key ≢ none
  unfolding Leaf.remove Leaf.find
  present l key e = ground arith

  pub remove_at :
      (order fuel : ℕ) (t : Tree V) (key leaf : ℕ) (path : List ℕ)
      → find_leaf_node fuel t key ≡ some (leaf, path)
      → let l = t.leaves leaf in
        let l' = (Leaf.remove l key).1 in
        Merge.remove order fuel t key ≡ (
          if (Leaf.remove l key).0
          then (if ltb l'.size (order / 2)
              then Option.map (λ m. (true, m)) (merge_nodes order (set_leaf t leaf l') leaf path)
              else some (true, set_leaf t leaf l'))
          else some (false, t))
  unfolding Merge.remove
  remove_at order fuel t key leaf path e = rw (e, Merge.remove) refl

  pub unchanged :
      (fuel : ℕ) (t : Tree V) (key : ℕ)
      → find fuel t key ≡ some none
      → (j : ℕ) → find fuel t j ≡ Option.map (λ old. if key == j then none else old) (find fuel t j)
  unchanged fuel t key e j = elim (ℕ_discrete key j) [
    | yes same ↦
        let there : find fuel t j ≡ some none = subst (λ c. find fuel t c ≡ some none) same e in
        rw (there, same, ==-refl j) refl
    | no other ↦ rw (==-false key j other) (Option-eq_id (find fuel t j))
  ]
