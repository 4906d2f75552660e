-- ===== src/Lockfree/BPlusTree/Merge/Plans.antt =====
-- `merge_nodes` on a leaf below a parent that keeps enough children, whatever it does.
use async_toolkit.Base.{ℕ, ◌+◌, ◌-◌, ◌/◌, ◌<◌, ◌≡◌, some, List, ◌∷◌, arith}
use async_toolkit.Lockfree.BPlusTree.Leaf.{Leaf}
use async_toolkit.Lockfree.BPlusTree.Internal.{Internal}
use async_toolkit.Lockfree.BPlusTree.Tree.{Tree}
use async_toolkit.Lockfree.BPlusTree.Merge.{
  choose, Plan, from_left, from_right, with_left, with_right, carry_out, merge_nodes,
}
use async_toolkit.Lockfree.BPlusTree.Merge.Parent.{IsParent}
use async_toolkit.Lockfree.BPlusTree.Merge.Keeps.{Rebalanced}

-- When which plan is chosen.
unfoldable pub Chosen : (half pos parent_size left_size right_size : ℕ) → Plan → Type 0
Chosen half pos p l r from_left = (0 < pos) × (half < l)
Chosen half pos p l r from_right = (pos < p) × (half < r)
Chosen half pos p l r with_left = 0 < pos
Chosen half pos p l r with_right = pos ≡ 0

pub choose-Chosen : (half pos p l r : ℕ) → Chosen half pos p l r (choose half pos p l r)
unfolding Chosen choose
choose-Chosen half pos p l r = ground arith

module _ {V : Type 0} where
  module _ (t : Tree V) (parent : ℕ) (valid : IsParent (t.internals parent) t.leaves) where
    abbrev p : Internal
    p = t.internals parent

    abbrev child : ℕ → Leaf V
    child i = t.leaves (p.children i)

    module _ (order : ℕ) (upper : List ℕ) (half : 0 < order / 2) (stays : order / 2 < p.size) where
      abbrev plan : ℕ → Plan
      plan pos = choose (order / 2) pos p.size (child (pos - 1)).size (child (pos + 1)).size

      abbrev Result : ℕ → Type 0
      Result pos =
          (t' : Tree V) × (merge_nodes order t (p.children pos) (parent ∷ upper) ≡ some t')
          × Rebalanced t parent t'

      abbrev Outcome : Plan → ℕ → Type 0
      Outcome q pos =
          (t' : Tree V) × (carry_out q order t (p.children pos) pos parent upper ≡ some t')
          × Rebalanced t parent t'
