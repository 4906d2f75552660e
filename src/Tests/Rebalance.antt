-- ===== src/Tests/Rebalance.antt =====
-- Insertion, removal and rebalancing in a B+ tree with four leaves.
use mathlib.Core.Option
use async_toolkit.Base.{
  ◌||◌, ltb, if◌then◌else◌, ◌==◌, ℕ, ◌+◌, ◌-◌, ◌*◌, ◌≡◌, refl, inl, true, not, some, [], ◌∷◌, arith,
}
use async_toolkit.Lockfree.BPlusTree.Leaf.{Leaf, IsSorted}
use async_toolkit.Lockfree.BPlusTree.Internal.{Internal, find_child}
use async_toolkit.Lockfree.BPlusTree.Tree.{Tree, find_leaf_node, descend, find, insert}
use async_toolkit.Lockfree.BPlusTree.Merge
use async_toolkit.Lockfree.BPlusTree.Insertion.{insert_key_lem}

-- A leaf with two entries, from `low` on.
abbrev two : (low next : ℕ) → Leaf ℕ
two low next = record { size = 2; keys = λ i. low + i; values = λ i. low + i; next_leaf = next }

two-IsSorted : (low next : ℕ) → IsSorted (two low next)
two-IsSorted low next i j h k = omega arith

-- The leaves 1 to 4 with the keys 0 and 1, 10 and 11, 20 and 21, 30 and 31 below the root 5, of order 4.
abbrev parent : Internal
parent = record { size = 3; keys = λ i. 10 * (i + 1); children = λ i. i + 1 }

abbrev tree : Tree ℕ
tree = record {
  leaves = λ a. two (10 * (a - 1)) (a + 1);
  internals = λ a. parent;
  is_leaf = λ a. not (a == 5);
  root = 5;
  fresh = 6;
  freed = [];
}

abbrev blank : ℕ → ℕ
blank i = 0

insert_key_lem_example :
    (t' : Tree ℕ) × (insert blank 4 1 2 tree 12 7 ≡ some (true, t'))
    × ((j : ℕ) → find 2 t' j ≡ Option.map (λ old. if 12 == j then some 7 else old) (find 2 tree j))
unfolding find_leaf_node descend find_child
insert_key_lem_example =
    insert_key_lem blank 4 0 2 tree 12 2 7 (5 ∷ []) refl (two-IsSorted (10 * (2 - 1)) (2 + 1))
      (inl (omega arith))

-- Three levels: the root 7 over the nodes 5 and 6, over the leaves 1 to 4, with the keys 20, 10 and 30.
abbrev level : ℕ → ℕ
level a = if a == 7 then 2 else if (a == 5) || (a == 6) then 1 else 0

abbrev upper_tree : Tree ℕ
upper_tree = record {
  leaves = λ a. two (10 * (a - 1)) (a + 1);
  internals = λ a. record {
    size = 1;
    keys = λ i. if a == 7 then 20 else if a == 5 then 10 else 30;
    children = λ i. i + (if a == 7 then 5 else if a == 5 then 1 else 3);
  };
  is_leaf = λ a. level a == 0;
  root = 7;
  fresh = 8;
  freed = [];
}

abbrev up : ℕ → ℕ
up a = if ltb a 3 then 5 else if ltb a 5 then 6 else 7
