-- ===== src/Lockfree/BPlusTree/Merge.antt =====
-- `merge_nodes`, `merge_internal_node` and `remove` of include/async_toolkit/lockfree/bptree.hpp. `none` is a
-- read of a child past the last one, which a parent with no keys leads to, or too little fuel for the
-- height of the tree.
pub mod Parent
pub mod Moved
pub mod Keeps
pub mod Plans
pub mod Joined
use mathlib.Core.Option
use async_toolkit.Base.{
  ltb, if◌then◌else◌, ◌==◌, ℕ, ◌+◌, ◌-◌, ◌/◌, Bool, true, false, ◌&&◌, Option, none, some, List, [],
  ◌∷◌,
}
use async_toolkit.Lockfree.BPlusTree.Arrays.{write}
use async_toolkit.Lockfree.BPlusTree.Leaf
use async_toolkit.Lockfree.BPlusTree.Internal.{Internal, index_of}
use async_toolkit.Lockfree.BPlusTree.Tree.{Tree, set_leaf, set_internal, find_leaf_node}
use async_toolkit.Lockfree.BPlusTree.Siblings.{
  borrow_last, borrow_first, join_leaves, remove_child, borrow_last_child, borrow_first_child,
  join_internals,
}

abbrev pub set_key : Internal → ℕ → ℕ → Internal
set_key n pos key = record n { keys = write n.keys pos key }

-- The position of a child in its parent: `size + 1` where it is not found.
abbrev pub child_index : Internal → ℕ → ℕ
child_index parent node = index_of (parent.size + 1) 0 parent.children node

-- What is tried in turn: to borrow from the left sibling or from the right one, and else to join with the
-- left one or with the right one.
pub data Plan : Type 0 where
  from_left : Plan
  from_right : Plan
  with_left : Plan
  with_right : Plan

unfoldable pub choose : (half pos parent_size left_size right_size : ℕ) → Plan
choose half pos parent_size left_size right_size =
    if ltb 0 pos && ltb half left_size
    then from_left
    else if ltb pos parent_size && ltb half right_size
    then from_right
    else if ltb 0 pos
    then with_left
    else with_right

module _ {V : Type 0} where
  abbrev pub give_back : ℕ → Tree V → Tree V
  give_back a t = record t { freed = a ∷ t.freed }

  unfoldable pub merge_internal_node : (order : ℕ) → Tree V → (node : ℕ) → List ℕ → Option (Tree V)
  unfolding choose borrow_last_child borrow_first_child join_internals remove_child
  merge_internal_node order t node [] =
      if node == t.root && ((t.internals node).size == 0)
      then some (give_back node (record t { root = (t.internals node).children 0 }))
      else some t
  merge_internal_node order t node (parent ∷ upper) =
      let p = t.internals parent in
      let n = t.internals node in
      let pos = child_index p node in
      let left = p.children (pos - 1) in
      let right = p.children (pos + 1) in
      elim (choose (order / 2) pos p.size (t.internals left).size (t.internals right).size) [
        | from_left ↦
            let (l, n', key) = borrow_last_child (t.internals left) (p.keys (pos - 1)) n in
            some (
              set_internal (set_internal (set_internal t node n') left l) parent
                (set_key p (pos - 1) key))
        | from_right ↦
            let (n', r, key) = borrow_first_child n (p.keys pos) (t.internals right) in
            some (
              set_internal (set_internal (set_internal t node n') right r) parent
                (set_key p pos key))
        | with_left ↦
            let joined = join_internals (t.internals left) (p.keys (pos - 1)) n in
            let t' = set_internal (set_internal t left joined) parent (remove_child p (pos - 1)) in
            let rest = merge_internal_node order t' parent upper in
            if p.size == 0
            then none
            else Option.map (give_back node)
                (if ltb (p.size - 1) (order / 2) then rest else some t')
        | with_right ↦
            let joined = join_internals n (p.keys pos) (t.internals right) in
            let t' = set_internal (set_internal t node joined) parent (remove_child p pos) in
            let rest = merge_internal_node order t' parent upper in
            if p.size == 0
            then none
            else Option.map (give_back right)
                (if ltb (p.size - 1) (order / 2) then rest else some t')
      ]

  -- The branches of `merge_nodes`, for the node at position `pos` of its parent.
  unfoldable pub carry_out :
      Plan → (order : ℕ) → Tree V → (node pos parent : ℕ) → List ℕ → Option (Tree V)
  unfolding borrow_last borrow_first join_leaves remove_child
  carry_out from_left order t node pos parent upper =
      let p = t.internals parent in
      let left = p.children (pos - 1) in
      let (l, n') = borrow_last (t.leaves left) (t.leaves node) in
      some (
        set_internal (set_leaf (set_leaf t left l) node n') parent
          (set_key p (pos - 1) (n'.keys 0)))
  carry_out from_right order t node pos parent upper =
      let p = t.internals parent in
      let right = p.children (pos + 1) in
      let (n', r) = borrow_first (t.leaves node) (t.leaves right) in
      some (set_internal (set_leaf (set_leaf t node n') right r) parent (set_key p pos (r.keys 0)))
  carry_out with_left order t node pos parent upper =
      let p = t.internals parent in
      let left = p.children (pos - 1) in
      let joined = join_leaves (t.leaves left) (t.leaves node) in
      let t' = set_internal (set_leaf t left joined) parent (remove_child p (pos - 1)) in
      let rest = merge_internal_node order t' parent upper in
      if p.size == 0
      then none
      else Option.map (give_back node) (if ltb (p.size - 1) (order / 2) then rest else some t')
  carry_out with_right order t node pos parent upper =
      let p = t.internals parent in
      let right = p.children (pos + 1) in
      let joined = join_leaves (t.leaves node) (t.leaves right) in
      let t' = set_internal (set_leaf t node joined) parent (remove_child p pos) in
      let rest = merge_internal_node order t' parent upper in
      if p.size == 0
      then none
      else Option.map (give_back right) (if ltb (p.size - 1) (order / 2) then rest else some t')

  unfoldable pub merge_nodes : (order : ℕ) → Tree V → (node : ℕ) → List ℕ → Option (Tree V)
  unfolding choose carry_out
  merge_nodes order t node [] = some t
  merge_nodes order t node (parent ∷ upper) =
      let p = t.internals parent in
      let pos = child_index p node in
      let left = t.leaves (p.children (pos - 1)) in
      let right = t.leaves (p.children (pos + 1)) in
      carry_out (choose (order / 2) pos p.size left.size right.size) order t node pos parent upper

  -- Whether the key was there, and the tree. The loop of `remove` returns in its first round.
  unfoldable pub remove : (order fuel : ℕ) → Tree V → ℕ → Option (Bool × Tree V)
  unfolding merge_nodes
  remove order fuel t key = elim (find_leaf_node fuel t key) [
    | none ↦ none
    | some (leaf, path) ↦
        let (done, l) = Leaf.remove (t.leaves leaf) key in
        let t' = set_leaf t leaf l in
        if done
        then (if ltb l.size (order / 2)
            then Option.map (λ m. (true, m)) (merge_nodes order t' leaf path)
            else some (true, t'))
        else some (false, t)
  ]
