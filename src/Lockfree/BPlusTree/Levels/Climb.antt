-- ===== src/Lockfree/BPlusTree/Levels/Climb.antt =====
-- `merge_internal_node` with all its rounds up to the root.
use async_toolkit.Base.{ℕ, ◌+◌, ◌-◌, ◌/◌, ◌<◌, ◌≡◌, refl, subst, some, List, [], ◌∷◌}
use async_toolkit.Lockfree.BPlusTree.Tree.{Tree}
use async_toolkit.Lockfree.BPlusTree.Merge.{choose, merge_internal_node}
use async_toolkit.Lockfree.BPlusTree.Merge.Plans.{choose-Chosen}
use async_toolkit.Lockfree.BPlusTree.Levels.Rounds.{IsClimbed, IsReady, Result, at_root, round}

module _ {V : Type 0} (order : ℕ) (level up : ℕ → ℕ) (half : 0 < order / 2) where
  climb :
      (path : List ℕ) (t : Tree V) (node : ℕ)
      → IsReady order level up half t node path
      → Result order level up half t node path
  climb [] t node ready = at_root order level up half t node ready
  climb (parent ∷ upper) t node ready =
      let (one_up, (pos, inside, here), path) = ready.path in
      let p = t.internals parent in
      let q =
        choose (order / 2) pos p.size (t.internals (p.children (pos - 1))).size
          (t.internals (p.children (pos + 1))).size in
      subst (λ n. Result order level up half t n (parent ∷ upper)) here
        (round order level up half t parent upper ready.levelled ready.descends one_up ready.inner
          path (λ t1. climb upper t1 parent) q pos inside (choose-Chosen (order / 2) pos p.size _ _)
          refl)

  pub merge_internal_node_lem :
      (t : Tree V) (node : ℕ) (path : List ℕ)
      → IsReady order level up half t node path
      → (t' : Tree V) × (merge_internal_node order t node path ≡ some t')
        × IsClimbed order level up half t t'
  merge_internal_node_lem t node path ready = climb path t node ready
