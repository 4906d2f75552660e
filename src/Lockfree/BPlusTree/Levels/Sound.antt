-- ===== src/Lockfree/BPlusTree/Levels/Sound.antt =====
-- `merge_nodes` on a leaf of a tree in order, where it may go on to the levels above.
use async_toolkit.Base.{
  ==-false, ==-refl, ◌==◌, ℕ, zero, suc, ◌+◌, ◌/◌, ◌≤◌, ◌<◌, ◌≡◌, refl, sym, ap, ◌∙◌, ◌≢◌, false,
  List, arith, ℕ_discrete,
}
use async_toolkit.Lockfree.BPlusTree.Internal.{Internal, find_child}
use async_toolkit.Lockfree.BPlusTree.Tree.{Tree, find}
use async_toolkit.Lockfree.BPlusTree.Siblings.{remove_child}
use async_toolkit.Lockfree.BPlusTree.Merge.Parent.{IsParent}
use async_toolkit.Lockfree.BPlusTree.Merge.Joined.{fewer_child}
use async_toolkit.Lockfree.BPlusTree.Merge.Keeps.{Rebalanced, with_joined}
use async_toolkit.Lockfree.BPlusTree.Contents.{IsOwner, find-Rebalanced}
use async_toolkit.Lockfree.BPlusTree.Levels.Reach.{reach, Descends}
use async_toolkit.Lockfree.BPlusTree.Levels.Step.{IsLevelled, find_child-position}
use async_toolkit.Lockfree.BPlusTree.Levels.Next.{IsPath, IsPath-level}

module _ {V : Type 0} (order : ℕ) (level up : ℕ → ℕ) (half : 0 < order / 2) where
  -- A tree in order: leaves are what stands on level 0; the nodes on level 1 are parents of leaves that are theirs
  -- alone, and those above are in order by their keys.
  pub record IsSound (t : Tree V) : Type 0 where
    pub kinds : (a : ℕ) → t.is_leaf a ≡ (level a == 0)
    pub descends : Descends t.internals level t.root
    pub levelled : IsLevelled t.internals level up 1
    pub bottom : (a : ℕ) → level a ≡ 1 → IsParent (t.internals a) t.leaves
    pub bottom_level :
        (a i : ℕ) → level a ≡ 1 → i ≤ (t.internals a).size → level ((t.internals a).children i) ≡ 0
    pub bottom_up :
        (a i : ℕ) → level a ≡ 1 → i ≤ (t.internals a).size → up ((t.internals a).children i) ≡ a
    pub some_key : (a : ℕ) → level a ≡ 1 → 0 < (t.internals a).size

  module _ (t : Tree V) (parent : ℕ) (upper : List ℕ) (sound : IsSound t) (one : level parent ≡ 1)
      (path : IsPath t.internals level t.root parent upper) where
    abbrev pub p : Internal
    p = t.internals parent

    abbrev pub valid : IsParent p t.leaves
    valid = sound.bottom parent one

    alone :
        (q : ℕ)
        → t.is_leaf q ≡ false
        → q ≢ parent
        → (k i : ℕ) → k ≤ (t.internals q).size
        → i ≤ p.size
        → p.children i ≢ (t.internals q).children k
    alone q inner other k i h g e =
        let low = sound.bottom_level parent i one g in
        let mine = sound.bottom_up parent i one g in
        let above : level q ≢ 0 = λ z. absurd (ground (arith, inner, sound.kinds q, z)) in
        elim (ℕ_discrete (level q) 1) [
          | yes z ↦ other (sym (sound.bottom_up q k z h) ∙ ap up (sym e) ∙ mine)
          | no z ↦ omega (
            arith,
            sound.levelled.child_level q k (omega (arith, z, above)) h,
            ap level e,
            low,
            z,
            above,
          )
        ]

    owner : IsOwner t parent
    owner = record {
      valid = valid;
      inner = sound.kinds parent ∙ ground (arith, one);
      bottom = λ i h. sound.kinds _ ∙ ground (arith, sound.bottom_level parent i one h);
      not_root = λ i h e. omega (
        arith,
        sound.bottom_level parent i one h,
        ap level e,
        one,
        IsPath-level t.internals level t.root parent upper path,
      );
      alone = λ q r inner other. alone q inner other;
    }

    -- A tree where a search finds at each key what it found before.
    abbrev pub Same : Tree V → Type 0
    Same t' = (fuel key : ℕ) → level t.root < fuel → find fuel t' key ≡ find fuel t key

    pub Rebalanced-Same : (t' : Tree V) → Rebalanced t parent t' → Same t'
    Rebalanced-Same t' r fuel key h = find-Rebalanced t t' parent owner r fuel key

    module _ (i : ℕ) (inside : i < p.size) where
      abbrev pub joined : Tree V
      joined = with_joined t parent valid i inside t.freed

      pub at_parent : joined.internals parent ≡ remove_child p i
      at_parent = rw (==-refl parent) refl

      pub elsewhere : (q : ℕ) → q ≢ parent → joined.internals q ≡ t.internals q
      elsewhere q h = rw (==-false q parent h) refl

      route_kept :
          (key d : ℕ)
          → d < level t.root
          → reach joined.internals t.root key d ≡ reach t.internals t.root key d
      route_kept key zero h = refl
      route_kept key (suc d) h =
          let a = reach t.internals t.root key d in
          let here = sound.descends key d (omega arith) in
          ap (λ b. find_child (joined.internals b) key) (route_kept key d (omega arith))
          ∙ ap (λ n. find_child n key) (elsewhere a (λ e. omega (arith, here, ap level e, one)))

      last_level :
          (key d : ℕ) → suc d ≡ level t.root → level (reach joined.internals t.root key (suc d)) ≡ 0
      last_level key d e =
          let a = reach t.internals t.root key d in
          let here = sound.descends key d (omega arith) in
          let next = sound.descends key (suc d) (omega arith) in
          ap (λ b. level (find_child (joined.internals b) key)) (route_kept key d (omega arith))
          ∙ (elim (ℕ_discrete a parent) [
            | yes z ↦
                let (q, h, sent) = find_child-position (remove_child p i) key in
                let (k, bound, old) = fewer_child p i q inside h in
                ap (λ b. level (find_child (joined.internals b) key)) z
                ∙ ap (λ n. level (find_child n key)) at_parent
                ∙ ap level (sent ∙ old)
                ∙ sound.bottom_level parent k one bound
            | no z ↦ ap (λ n. level (find_child n key)) (elsewhere a z) ∙ omega (arith, next, e)
          ])

      pub joined-Descends : Descends joined.internals level t.root
      joined-Descends key zero h = omega arith
      joined-Descends key (suc d) h = elim (ℕ_discrete (suc d) (level t.root)) [
        | yes e ↦ omega (arith, last_level key d e, e)
        | no other ↦
            let here = sound.descends key (suc d) h in
            ap (λ b. level b + suc d) (route_kept key (suc d) (omega (arith, other))) ∙ here
      ]
