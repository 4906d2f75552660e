-- ===== src/Lockfree/BPlusTree/Merge/Keeps.antt =====
-- `merge_nodes` on a leaf below a parent that keeps enough children.
use async_toolkit.Base.{
  ==-false, ==-refl, ℕ, ◌+◌, ◌-◌, ◌≤◌, ◌<◌, ◌≡◌, refl, sym, ◌∙◌, ◌≢◌, List, arith, dec_lt,
}
use async_toolkit.Lockfree.BPlusTree.Arrays.{write, shift_left_lem}
use async_toolkit.Lockfree.BPlusTree.Leaf.{Leaf}
use async_toolkit.Lockfree.BPlusTree.Internal.{Internal}
use async_toolkit.Lockfree.BPlusTree.Tree.{Tree}
use async_toolkit.Lockfree.BPlusTree.Siblings.{remove_child, borrow_last, borrow_first, join_leaves}
use async_toolkit.Lockfree.BPlusTree.Siblings.Leaves.{IsPair, find_pair, borrow_last_lem}
use async_toolkit.Lockfree.BPlusTree.Siblings.Right.{borrow_first_lem, join_leaves_lem}
use async_toolkit.Lockfree.BPlusTree.Merge.Parent.{find_below, IsParent, IsPair-at}
use async_toolkit.Lockfree.BPlusTree.Merge.Moved.{moved-find_below, moved-IsParent}
use async_toolkit.Lockfree.BPlusTree.Merge.Joined.{fewer-find_below, fewer-IsParent, fewer_child}

module _ {V : Type 0} where
  -- The tree differs at most in one parent and in the leaves below it, where a search finds the same.
  pub record Rebalanced (t : Tree V) (parent : ℕ) (t' : Tree V) : Type 0 where
    pub valid : IsParent (t'.internals parent) t'.leaves
    pub same :
        (j : ℕ)
        → find_below (t'.internals parent) t'.leaves j ≡ find_below (t.internals parent) t.leaves j
    pub kept :
        (i : ℕ)
        → i ≤ (t'.internals parent).size
        → (m : ℕ) × (m ≤ (t.internals parent).size)
          × ((t'.internals parent).children i ≡ (t.internals parent).children m)
    pub root : t'.root ≡ t.root
    pub kinds : t'.is_leaf ≡ t.is_leaf
    pub internals : (q : ℕ) → q ≢ parent → t'.internals q ≡ t.internals q
    pub leaves :
        (a : ℕ)
        → ((i : ℕ) → i ≤ (t.internals parent).size → (t.internals parent).children i ≢ a)
        → t'.leaves a ≡ t.leaves a

  borrow_last-key :
      (left node : Leaf V) → (borrow_last left node).1.keys 0 ≡ left.keys (left.size - 1)
  unfolding borrow_last
  borrow_last-key left node = refl

  borrow_first-key :
      (node right : Leaf V) → 1 < right.size → (borrow_first node right).1.keys 0 ≡ right.keys 1
  unfolding borrow_first
  borrow_first-key node right h = shift_left_lem (right.size - 1) 0 right.keys 0 ∙ ground arith

  module _ (t : Tree V) (parent : ℕ) (valid : IsParent (t.internals parent) t.leaves) where
    abbrev pub p : Internal
    p = t.internals parent

    abbrev pub child : ℕ → Leaf V
    child i = t.leaves (p.children i)

    elsewhere : (a b : ℕ) → a ≤ p.size → b ≤ p.size → a ≢ b → p.children a ≢ p.children b
    elsewhere a b h k ne = elim (dec_lt a b) [
      | yes lt ↦ valid.distinct a b lt k
      | no ge ↦ λ e. valid.distinct b a (omega (arith, ne)) h (sym e)
    ]

    module _ (i : ℕ) (inside : i < p.size) where
      apart : p.children i ≢ p.children (i + 1)
      apart = valid.distinct i (i + 1) (omega arith) (omega arith)

      abbrev pub changed : ℕ → Leaf V → Leaf V → Tree V
      changed key' low' high' = record t {
        internals = write t.internals parent (record p { keys = write p.keys i key' });
        leaves = write (write t.leaves (p.children i) low') (p.children (i + 1)) high';
      }

      -- Both leaves and the separator between them change.
      changed-Rebalanced :
          (key' : ℕ) (low' high' : Leaf V)
          → IsPair low' key' high'
          → ((j : ℕ)
              → find_pair low' key' high' j ≡ find_pair (child i) (p.keys i) (child (i + 1)) j)
          → (0 < i → p.keys (i - 1) < key')
          → (i + 1 < p.size → key' < p.keys (i + 1))
          → Rebalanced t parent (changed key' low' high')
      changed-Rebalanced key' low' high' pair same over under =
          let leaves' = write (write t.leaves (p.children i) low') (p.children (i + 1)) high' in
          let others : (m : ℕ)
              → m ≤ p.size
              → m ≢ i
              → m ≢ i + 1
              → leaves' (p.children m) ≡ t.leaves (p.children m) =
            λ m h a b.
              rw
                (
                  ==-false _ _ (elsewhere m (i + 1) h (omega arith) b),
                  ==-false _ _ (elsewhere m i h (omega arith) a),
                )
                refl in
          let at_low : leaves' (p.children i) ≡ low' =
            rw (==-false _ _ apart, ==-refl (p.children i)) refl in
          let at_high : leaves' (p.children (i + 1)) ≡ high' =
            rw (==-refl (p.children (i + 1))) refl in
          record {
            valid = rw (==-refl parent) (
                moved-IsParent p t.leaves leaves' valid i inside key' low' high' others at_low
                  at_high pair same over under);
            same = λ j. rw (==-refl parent) (
                moved-find_below p t.leaves leaves' valid i inside key' low' high' others at_low
                  at_high pair same over under j);
            kept = λ m h. rw (==-refl parent) (m, let g = rw (==-refl parent) at h in g, refl);
            root = refl;
            kinds = refl;
            internals = λ q h. rw (==-false q parent h) refl;
            leaves = λ a h.
                rw
                  (
                    ==-false a _ (λ e. h (i + 1) (omega arith) (sym e)),
                    ==-false a _ (λ e. h i (omega arith) (sym e)),
                  )
                  refl;
          }

      abbrev pub joined : Leaf V
      joined = join_leaves (child i) (child (i + 1))

      abbrev pub with_joined : List ℕ → Tree V
      with_joined freed = record t {
        internals = write t.internals parent (remove_child p i);
        leaves = write t.leaves (p.children i) joined;
        freed = freed;
      }

      -- The two leaves are joined.
      pub with_joined-Rebalanced : (freed : List ℕ) → Rebalanced t parent (with_joined freed)
      with_joined-Rebalanced freed =
          let leaves' = write t.leaves (p.children i) joined in
          let others : (m : ℕ)
              → m ≤ p.size
              → m ≢ i
              → m ≢ i + 1
              → leaves' (p.children m) ≡ t.leaves (p.children m) =
            λ m h a b. rw (==-false _ _ (elsewhere m i h (omega arith) a)) refl in
          let at_low : leaves' (p.children i) ≡ joined = rw (==-refl (p.children i)) refl in
          let (sorted, same, _, _) =
            join_leaves_lem (child i) (p.keys i) (child (i + 1)) (valid.pair i inside) in
          record {
            valid =
                rw (==-refl parent) (
                  fewer-IsParent p t.leaves leaves' valid i inside joined others at_low sorted
                    same);
            same = λ j. rw (==-refl parent) (
                fewer-find_below p t.leaves leaves' valid i inside joined others at_low sorted same
                  j);
            kept = λ m h.
                rw (==-refl parent)
                  (let g = rw (==-refl parent) at h in fewer_child p i m inside g);
            root = refl;
            kinds = refl;
            internals = λ q h. rw (==-false q parent h) refl;
            leaves = λ a h. rw (==-false a _ (λ e. h i (omega arith) (sym e))) refl;
          }

      -- The left leaf lends an entry.
      pub lent_last-Rebalanced :
          1 < (child i).size
          → let (l, n') = borrow_last (child i) (child (i + 1)) in
            Rebalanced t parent (changed (n'.keys 0) l n')
      lent_last-Rebalanced more =
          let own = valid.pair i inside in
          let (pair, same, _, _) =
            borrow_last_lem (child i) (p.keys i) (child (i + 1)) own (omega arith) in
          let key : (borrow_last (child i) (child (i + 1))).1.keys 0
              ≡ (child i).keys ((child i).size - 1) =
            borrow_last-key (child i) (child (i + 1)) in
          changed-Rebalanced _ _ _ pair same
            (λ pos.
              let before = IsPair-at p t.leaves valid (i - 1) i (omega arith) (omega arith) in
              omega (
                arith,
                key,
                before.above 0 (omega arith),
                own.low_sorted 0 ((child i).size - 1) (omega arith) (omega arith),
              ))
            (λ pos. omega (
              arith,
              key,
              own.below ((child i).size - 1) (omega arith),
              valid.keys_sorted i (i + 1) (omega arith) pos,
            ))

      -- The right leaf lends an entry.
      pub lent_first-Rebalanced :
          1 < (child (i + 1)).size
          → let (n', r) = borrow_first (child i) (child (i + 1)) in
            Rebalanced t parent (changed (r.keys 0) n' r)
      lent_first-Rebalanced more =
          let own = valid.pair i inside in
          let (pair, same, _, _) = borrow_first_lem (child i) (p.keys i) (child (i + 1)) own more in
          let key : (borrow_first (child i) (child (i + 1))).1.keys 0 ≡ (child (i + 1)).keys 1 =
            borrow_first-key (child i) (child (i + 1)) more in
          changed-Rebalanced _ _ _ pair same
            (λ pos.
              omega
                (arith, key, own.above 1 more, valid.keys_sorted (i - 1) i (omega arith) inside))
            (λ pos. omega (arith, key, (valid.pair (i + 1) pos).below 1 more))
