-- ===== src/Lockfree/BPlusTree/Insertion.antt =====
-- `insert` of include/async_toolkit/lockfree/bptree.hpp and `find`, in the whole tree, where no leaf is split.
use async_toolkit.Base.{
  Bool-cases, if◌then◌else◌, ◌==◌, ℕ, suc, ◌<◌, ◌≡◌, refl, ap, ◌∙◌, ◌≢◌, ◌⊎◌, inl, inr, true, none,
  some, List, arith,
}
use mathlib.Core.Option
use async_toolkit.Lockfree.BPlusTree.Leaf.{Leaf, IsSorted}
use async_toolkit.Lockfree.BPlusTree.Leaf
use async_toolkit.Lockfree.BPlusTree.Leaf.Insert.{insert_lem}
use async_toolkit.Lockfree.BPlusTree.Tree.{
  Tree, set_leaf, find_leaf_node, find, insert, insert_round,
}
use async_toolkit.Lockfree.BPlusTree.Contents.{find-set_leaf, found_of_leaf}

module _ {V : Type 0} (blank : ℕ → V) where
  insert_at :
      (order rounds fuel : ℕ) (t : Tree V) (key leaf : ℕ) (value : V) (path : List ℕ)
      → find_leaf_node fuel t key ≡ some (leaf, path)
      → (Leaf.insert order (t.leaves leaf) key value).0 ≡ true
      → insert blank order (suc rounds) fuel t key value
        ≡ some (true, set_leaf t leaf (Leaf.insert order (t.leaves leaf) key value).1)
  unfolding insert insert_round
  insert_at order rounds fuel t key leaf value path e done = rw (e, insert) (rw done refl)

  -- When the search for a key comes to a leaf with ascending keys that has room or holds the key already:
  -- `insert` answers `true` in its first round, and afterwards `find` gives the value at the key and what
  -- it gave before at every other key.
  pub insert_key_lem :
      (order rounds fuel : ℕ) (t : Tree V) (key leaf : ℕ) (value : V) (path : List ℕ)
      → find_leaf_node fuel t key ≡ some (leaf, path)
      → IsSorted (t.leaves leaf)
      → ((t.leaves leaf).size < order) ⊎ (find fuel t key ≢ some none)
      → (t' : Tree V) × (insert blank order (suc rounds) fuel t key value ≡ some (true, t'))
        × ((j : ℕ)
            → find fuel t' j
              ≡ Option.map (λ old. if key == j then some value else old) (find fuel t j))
  insert_key_lem order rounds fuel t key leaf value path e sorted room =
      let l = t.leaves leaf in
      let (hit, miss, _, _) = insert_lem order l sorted key value in
      let here = found_of_leaf fuel t key e in
      elim (Bool-cases (Leaf.insert order l key value).0) [
        | inl done ↦ (
          _,
          insert_at order rounds fuel t key leaf value path e done,
          find-set_leaf fuel t key leaf path _ (some value) e (hit done).1,
        )
        | inr refused ↦
            let (_, full, lacks) = miss refused in
            absurd (elim room [ inl h ↦ omega arith | inr h ↦ h (here ∙ ap some lacks) ])
      ]
