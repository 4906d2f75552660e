-- ===== src/Lockfree/BPlusTree/Merge/Parent.antt =====
-- What a search finds below a parent of leaves, when two neighbours change their entries among each other
-- or are joined, as in `merge_nodes`.
use async_toolkit.Base.{ℕ, ◌+◌, ◌≤◌, ◌<◌, ◌≡◌, ap, subst, ◌≢◌, Option}
use async_toolkit.Lockfree.BPlusTree.Leaf.{Leaf, find, IsSorted}
use async_toolkit.Lockfree.BPlusTree.Internal.{Internal, find_child}
use async_toolkit.Lockfree.BPlusTree.Siblings.Leaves.{IsPair}
use async_toolkit.Lockfree.BPlusTree.Route.{IsRoute, find_child_of_route}

module _ {V : Type 0} where
  -- The leaf to which the parent sends the key, searched for it.
  abbrev pub find_below : Internal → (ℕ → Leaf V) → ℕ → Option V
  find_below n leaves j = find (leaves (find_child n j)) j

  -- The separators ascend, the children are distinct leaves with ascending keys, and each separator parts
  -- the two children beside it.
  pub record IsParent (n : Internal) (leaves : ℕ → Leaf V) : Type 0 where
    pub keys_sorted : (i j : ℕ) → i < j → j < n.size → n.keys i < n.keys j
    pub distinct : (i j : ℕ) → i < j → j ≤ n.size → n.children i ≢ n.children j
    pub sorted : (i : ℕ) → i ≤ n.size → IsSorted (leaves (n.children i))
    pub pair :
        (i : ℕ)
        → i < n.size
        → IsPair (leaves (n.children i)) (n.keys i) (leaves (n.children (i + 1)))

  pub find_below_of_route :
      (n : Internal) (leaves : ℕ → Leaf V) (j p : ℕ)
      → IsRoute n j p
      → find_below n leaves j ≡ find (leaves (n.children p)) j
  find_below_of_route n leaves j p r = ap (λ c. find (leaves c) j) (find_child_of_route n j p r)

  pub IsPair-at :
      (n : Internal) (leaves : ℕ → Leaf V)
      → IsParent n leaves
      → (a b : ℕ) → a + 1 ≡ b
      → a < n.size
      → IsPair (leaves (n.children a)) (n.keys a) (leaves (n.children b))
  IsPair-at n leaves parent a b e h =
      subst (λ c. IsPair (leaves (n.children a)) (n.keys a) (leaves (n.children c))) e
        (parent.pair a h)
