-- ===== src/Lockfree/BPlusTree/Levels/Found.antt =====
-- What `find` gives, by the leaf that a search reaches, and the path that `find_leaf_node` keeps.
use async_toolkit.Base.{
  ◌==◌, ℕ, zero, suc, ◌+◌, ◌≤◌, ◌<◌, ◌≡◌, refl, sym, ap, ◌∙◌, true, false, some, List, [], ◌∷◌,
  arith, ℕ_discrete,
}
use async_toolkit.Lockfree.BPlusTree.Leaf.{Leaf}
use async_toolkit.Lockfree.BPlusTree.Leaf
use async_toolkit.Lockfree.BPlusTree.Tree.{Tree, descend, find_leaf_node, find}
use async_toolkit.Lockfree.BPlusTree.Contents.{found_from, found_from-leaf, found_from-internal}
use async_toolkit.Lockfree.BPlusTree.Levels.Reach.{reach, Descends}
use async_toolkit.Lockfree.BPlusTree.Levels.Step.{find_child-position}
use async_toolkit.Lockfree.BPlusTree.Levels.Next.{IsPath}

module _ {V : Type 0} (t : Tree V) (level : ℕ → ℕ) (kinds : (a : ℕ) → t.is_leaf a ≡ (level a == 0))
    (descends : Descends t.internals level t.root) where
  abbrev at : (key depth : ℕ) → ℕ
  at key depth = reach t.internals t.root key depth

  found_from-reach :
      (fuel key depth : ℕ) (path : List ℕ)
      → depth ≤ level t.root
      → level t.root < fuel + depth
      → found_from fuel t (at key depth) key path
        ≡ some (Leaf.find (t.leaves (at key (level t.root))) key)
  found_from-reach zero key depth path h more = absurd (omega arith)
  found_from-reach (suc k) key depth path h more =
      let here = descends key depth h in
      elim (ℕ_discrete depth (level t.root)) [
        | yes e ↦
            let leaf : t.is_leaf (at key depth) ≡ true =
              kinds (at key depth) ∙ ground (arith, here, e) in
            found_from-leaf k t (at key depth) key path leaf
            ∙ ap (λ d. some (Leaf.find (t.leaves (at key d)) key)) e
        | no other ↦
            let inner : t.is_leaf (at key depth) ≡ false =
              kinds (at key depth) ∙ ground (arith, here, other) in
            found_from-internal k t (at key depth) key path inner
            ∙ found_from-reach k key (suc depth) (at key depth ∷ path) (omega (arith, other))
                (omega arith)
      ]

  -- With fuel for its levels, `find` looks in the leaf that the search reaches.
  pub find-reach :
      (fuel key : ℕ)
      → level t.root < fuel
      → find fuel t key ≡ some (Leaf.find (t.leaves (at key (level t.root))) key)
  unfolding find find_leaf_node
  find-reach fuel key h = found_from-reach fuel key 0 [] (omega arith) (omega arith)

  -- The leaf where a search ends stands on level 0, and its path leads from its parent to the root.
  abbrev Ended : (fuel key depth : ℕ) → List ℕ → Type 0
  Ended fuel key depth path =
      (leaf : ℕ) × (up : List ℕ) × (descend fuel t (at key depth) key path ≡ some (leaf, up))
      × IsPath t.internals level t.root leaf up
      × (level leaf ≡ 0)

  descend-Ended :
      (fuel key depth : ℕ) (path : List ℕ)
      → depth ≤ level t.root
      → level t.root < fuel + depth
      → IsPath t.internals level t.root (at key depth) path
      → Ended fuel key depth path
  unfolding descend
  descend-Ended zero key depth path h more on = absurd (omega arith)
  descend-Ended (suc k) key depth path h more on =
      let here = descends key depth h in
      elim (ℕ_discrete depth (level t.root)) [
        | yes e ↦
            let leaf : t.is_leaf (at key depth) ≡ true =
              kinds (at key depth) ∙ ground (arith, here, e) in
            (at key depth, path, rw (leaf, descend) refl, on, omega (arith, here, e))
        | no other ↦
            let inner : t.is_leaf (at key depth) ≡ false =
              kinds (at key depth) ∙ ground (arith, here, other) in
            let next = descends key (suc depth) (omega (arith, other)) in
            let (q, bound, sent) = find_child-position (t.internals (at key depth)) key in
            let (leaf, up, e, on', low) =
              descend-Ended k key (suc depth) (at key depth ∷ path) (omega (arith, other))
                (omega arith) (omega (arith, here, next), (q, bound, sym sent), on) in
            (leaf, up, rw (inner, descend) e, on', low)
      ]

  pub find_leaf_node-IsPath :
      (fuel key : ℕ)
      → level t.root < fuel
      → (leaf : ℕ) × (up : List ℕ) × (find_leaf_node fuel t key ≡ some (leaf, up))
        × IsPath t.internals level t.root leaf up
        × (level leaf ≡ 0)
  unfolding find_leaf_node
  find_leaf_node-IsPath fuel key h = descend-Ended fuel key 0 [] (omega arith) (omega arith) refl
