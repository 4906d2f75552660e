-- ===== src/Lockfree/BPlusTree/Siblings.antt =====
-- What `merge_nodes` and `merge_internal_node` of include/async_toolkit/lockfree/bptree.hpp do to a node, to
-- its sibling and to their parent. A node is not its own sibling.
pub mod Leaves
pub mod Right
pub mod Routes
pub mod Lent
use async_toolkit.Base.{ℕ, ◌+◌, ◌-◌}
use async_toolkit.Lockfree.BPlusTree.Arrays.{write, shift_right, shift_left, copy}
use async_toolkit.Lockfree.BPlusTree.Leaf.{Leaf}
use async_toolkit.Lockfree.BPlusTree.Internal.{Internal}

module _ {V : Type 0} where
  -- "Borrow one key-value pair from left sibling": the sibling and the node. The parent's separator
  -- becomes the first key of the node.
  unfoldable pub borrow_last : (left node : Leaf V) → Leaf V × Leaf V
  borrow_last left node =
      let last_idx = left.size - 1 in
      (
        record left { size = left.size - 1 },
        record node {
          size = node.size + 1;
          keys = write (shift_right node.size node.size node.keys) 0 (left.keys last_idx);
          values = write (shift_right node.size node.size node.values) 0 (left.values last_idx);
        },
      )

  -- "Borrow one key-value pair from right sibling": the node and the sibling. The parent's separator
  -- becomes the first key of the sibling.
  unfoldable pub borrow_first : (node right : Leaf V) → Leaf V × Leaf V
  borrow_first node right = (
    record node {
      size = node.size + 1;
      keys = write node.keys node.size (right.keys 0);
      values = write node.values node.size (right.values 0);
    },
    record right {
      size = right.size - 1;
      keys = shift_left (right.size - 1) 0 right.keys;
      values = shift_left (right.size - 1) 0 right.values;
    },
  )

  -- The left one of two leaves after the content of the right one went to it.
  unfoldable pub join_leaves : (left right : Leaf V) → Leaf V
  join_leaves left right = record {
    size = left.size + right.size;
    keys = copy right.size 0 left.size right.keys left.keys;
    values = copy right.size 0 left.size right.values left.values;
    next_leaf = right.next_leaf;
  }

-- The loop that takes the separator at `pos` and the child after it out of the parent.
unfoldable pub remove_child : Internal → (pos : ℕ) → Internal
remove_child parent pos = record {
  size = parent.size - 1;
  keys = shift_left (parent.size - 1 - pos) pos parent.keys;
  children = shift_left (parent.size - 1 - pos) (pos + 1) parent.children;
}

-- The left sibling, the node and the new separator, where `down` is the old one.
unfoldable pub borrow_last_child :
    (left : Internal) (down : ℕ) (node : Internal) → Internal × Internal × ℕ
borrow_last_child left down node =
    let moved = shift_right node.size (node.size + 1) node.children in
    (
      record left { size = left.size - 1 },
      record {
        size = node.size + 1;
        keys = write (shift_right node.size node.size node.keys) 0 down;
        children = write (write moved 1 (moved 0)) 0 (left.children left.size);
      },
      left.keys (left.size - 1),
    )

-- The node, the right sibling and the new separator, where `down` is the old one.
unfoldable pub borrow_first_child :
    (node : Internal) (down : ℕ) (right : Internal) → Internal × Internal × ℕ
borrow_first_child node down right =
    let moved = shift_left (right.size - 1) 0 right.children in
    (
      record {
        size = node.size + 1;
        keys = write node.keys node.size down;
        children = write node.children (node.size + 1) (right.children 0);
      },
      record {
        size = right.size - 1;
        keys = shift_left (right.size - 1) 0 right.keys;
        children = write moved (right.size - 1) (moved right.size);
      },
      right.keys 0,
    )

-- The left one of two internal nodes after the separator `down` and the content of the right one went to
-- it.
unfoldable pub join_internals : (left : Internal) (down : ℕ) (right : Internal) → Internal
join_internals left down right =
    let start = left.size + 1 in
    let moved = copy right.size 0 start right.children left.children in
    record {
      size = start + right.size;
      keys = copy right.size 0 start right.keys (write left.keys left.size down);
      children = write moved (start + right.size) (right.children right.size);
    }
