-- ===== src/Tests/Tree.antt =====
-- The nodes and the split of the B+ tree at concrete inputs.
use async_toolkit.Base.{
  if◌then◌else◌, ◌==◌, ℕ, ◌+◌, ◌*◌, ◌≤◌, ◌<◌, ◌≡◌, refl, true, false, none, some, List, [], ◌∷◌,
  arith,
}
use async_toolkit.Lockfree.BPlusTree.Leaf.{Leaf, IsSorted}
use async_toolkit.Lockfree.BPlusTree.Leaf
use async_toolkit.Lockfree.BPlusTree.Leaf.Insert.{insert_lem}
use async_toolkit.Lockfree.BPlusTree.Leaf.Remove.{remove_lem}
use async_toolkit.Lockfree.BPlusTree.Internal.{new_internal}
use async_toolkit.Lockfree.BPlusTree.Tree.{Tree, insert_round, find_leaf_node, descend}
use async_toolkit.Lockfree.BPlusTree.Split.{insert_full_root_loses}
use async_toolkit.Lockfree.BPlusTree.Range.{range_query, within, range_query_lem}

-- The keys 0, 10, 20 and 30, with one more than the key as the value.
abbrev four : Leaf ℕ
four = record { size = 4; keys = λ i. 10 * i; values = λ i. 10 * i + 1; next_leaf = 0 }

four-IsSorted : IsSorted four
four-IsSorted i j h k = omega arith

insert_lem_example :
    let r = Leaf.insert 8 four 15 2 in
    (r.0 ≡ true
      → IsSorted r.1 × ((j : ℕ) → Leaf.find r.1 j ≡ (if 15 == j then some 2 else Leaf.find four j)))
    × (r.0 ≡ false → (r.1 ≡ four) × (8 ≤ four.size) × (Leaf.find four 15 ≡ none))
    × (four.size < 8 → r.0 ≡ true)
    × (four.size ≤ 8 → r.1.size ≤ 8)
insert_lem_example = insert_lem 8 four four-IsSorted 15 2

remove_lem_example :
    let r = Leaf.remove four 20 in
    (r.0 ≡ true
      → IsSorted r.1
        × ((j : ℕ) → Leaf.find r.1 j ≡ (if 20 == j then none else Leaf.find four j))
        × (r.1.size + 1 ≡ four.size))
    × (r.0 ≡ false → (r.1 ≡ four) × (Leaf.find four 20 ≡ none))
remove_lem_example = remove_lem four four-IsSorted 20

abbrev blank : ℕ → ℕ
blank i = 0

-- A tree of order 4 whose root is the full leaf.
abbrev full_tree : Tree ℕ
full_tree = record {
  leaves = λ a. four;
  internals = λ a. new_internal;
  is_leaf = λ a. a == 1;
  root = 1;
  fresh = 2;
  freed = [];
}

insert_full_root_loses_example :
    let (done, t') = insert_round blank 4 full_tree 15 2 1 [] in
    (done ≡ true) × (Leaf.find (t'.leaves 1) 15 ≡ none) × (Leaf.find (t'.leaves 2) 15 ≡ none)
unfolding Leaf.insert Leaf.find_position Leaf.scan
insert_full_root_loses_example =
    insert_full_root_loses blank 4 full_tree 15 2 (omega arith) four-IsSorted refused
  where
    refused : (Leaf.insert 4 (full_tree.leaves full_tree.root) 15 2).0 ≡ false
    refused = refl

abbrev four_entries : List (ℕ × ℕ)
four_entries = (0, 1) ∷ (10, 11) ∷ (20, 21) ∷ (30, 31) ∷ []

range_query_lem_example : range_query 2 full_tree 5 20 ≡ some (within 5 20 four_entries)
unfolding find_leaf_node descend
range_query_lem_example =
    range_query_lem 2 full_tree 1 5 20 [] four_entries refl refl
      (omega arith, (omega arith, (omega arith, (omega arith, tt))))
