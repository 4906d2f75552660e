-- ===== src/Lockfree/BPlusTree/Levels/Rounds.antt =====
-- One round of `merge_internal_node`, and what it does with the root.
use async_toolkit.Base.{
  Bool-cases, if◌then◌else◌, ltb, ==-false, ==-refl, ◌==◌, ℕ, suc, ◌+◌, ◌-◌, ◌/◌, ◌≤◌, ◌<◌, ◌≡◌,
  refl, sym, ap, ◌∙◌, subst, ◌≢◌, inl, inr, false, ◌&&◌, Option, none, some, List, [], ◌∷◌, arith,
}
use mathlib.Core.Option
use async_toolkit.Lockfree.BPlusTree.Arrays.{write}
use async_toolkit.Lockfree.BPlusTree.Internal.{Internal, find_child}
use async_toolkit.Lockfree.BPlusTree.Tree.{Tree, set_internal}
use async_toolkit.Lockfree.BPlusTree.Siblings.{
  remove_child, borrow_last_child, borrow_first_child, join_internals,
}
use async_toolkit.Lockfree.BPlusTree.Route.{index_of_lem, find_child_of_route}
use async_toolkit.Lockfree.BPlusTree.Merge.{
  set_key, choose, Plan, from_left, from_right, with_left, with_right, give_back,
  merge_internal_node,
}
use async_toolkit.Lockfree.BPlusTree.Merge.Plans.{Chosen}
use async_toolkit.Lockfree.BPlusTree.Levels.Reach.{reach, Descends, reach-below}
use async_toolkit.Lockfree.BPlusTree.Levels.Step.{IsLevelled}
use async_toolkit.Lockfree.BPlusTree.Levels.Next.{
  IsPath, IsPath-level, IsPath-frame, fewer-IsSorted_keys, fewer_old_key, fewer_first_child,
  next-IsLevelled,
}
use async_toolkit.Lockfree.BPlusTree.Levels.Plans.{
  lent_last-Kept, lent_first-Kept, joined_nodes-Kept,
}

module _ {V : Type 0} (order : ℕ) (level up : ℕ → ℕ) (half : 0 < order / 2) where
  -- Every search in the second tree ends at the leaf where it ends in the first one, one level down at each step.
  pub record IsClimbed (t t' : Tree V) : Type 0 where
    pub reaches :
        (key : ℕ)
        → reach t'.internals t'.root key (level t'.root)
          ≡ reach t.internals t.root key (level t.root)
    pub descends : Descends t'.internals level t'.root
    pub no_higher : level t'.root ≤ level t.root
    pub leaves : t'.leaves ≡ t.leaves
    pub kinds : t'.is_leaf ≡ t.is_leaf

  -- A node whose level may have too few keys, the levels above it and its path.
  pub record IsReady (t : Tree V) (node : ℕ) (above : List ℕ) : Type 0 where
    pub levelled : IsLevelled t.internals level up (level node)
    pub descends : Descends t.internals level t.root
    pub inner : 0 < level node
    pub path : IsPath t.internals level t.root node above
    pub first_child : level ((t.internals node).children 0) + 1 ≡ level node

  abbrev pub Result : Tree V → (node : ℕ) → List ℕ → Type 0
  Result t node path =
      (t' : Tree V) × (merge_internal_node order t node path ≡ some t') × IsClimbed t t'

  pub at_root : (t : Tree V) (node : ℕ) → IsReady t node [] → Result t node []
  unfolding merge_internal_node
  at_root t node ready = elim (Bool-cases ((node == t.root) && ((t.internals node).size == 0))) [
    | inl shrinks ↦
        let e : node ≡ t.root = ready.path in
        let empty : (t.internals node).size ≡ 0 = ground (arith, shrinks) in
        let child = (t.internals node).children 0 in
        let only : (j : ℕ) → find_child (t.internals node) j ≡ child = λ j.
          find_child_of_route (t.internals node) j 0 (record {
            bound = omega arith;
            before = λ m h. absurd (omega arith);
            after = λ h. absurd (omega arith);
          }) in
        let deeper : (key d : ℕ)
            → reach t.internals child key d ≡ reach t.internals t.root key (suc d) =
          λ key d.
            reach-below t.internals node key d only ∙ ap (λ r. reach t.internals r key (suc d)) e in
        let lower : suc (level child) ≡ level t.root =
          omega (arith, ready.first_child, ap level e) in
        (
          give_back node (record t { root = child }),
          rw shrinks refl,
          record {
            reaches = λ key. deeper key (level child) ∙ ap (reach t.internals t.root key) lower;
            descends = λ key d h.
                omega
                  (arith, ap level (deeper key d), ready.descends key (suc d) (omega arith), lower);
            no_higher = omega (arith, lower);
            leaves = refl;
            kinds = refl;
          },
        )
    | inr stays ↦ (
      t,
      rw stays refl,
      record {
        reaches = λ key. refl;
        descends = ready.descends;
        no_higher = omega arith;
        leaves = refl;
        kinds = refl;
      },
    )
  ]

  -- One round: the parent has the node at `pos`.
  module _ (t : Tree V) (parent : ℕ) (upper : List ℕ) {low : ℕ}
      (levelled : IsLevelled t.internals level up low)
      (descends : Descends t.internals level t.root) (over_low : low + 1 ≡ level parent)
      (inner : 0 < low) (path : IsPath t.internals level t.root parent upper)
      (rest : (t1 : Tree V) → IsReady t1 parent upper → Result t1 parent upper) where
    abbrev p : Internal
    p = t.internals parent

    abbrev size_at : ℕ → ℕ
    size_at i = (t.internals (p.children i)).size

    abbrev plan : ℕ → Plan
    plan pos = choose (order / 2) pos p.size (size_at (pos - 1)) (size_at (pos + 1))

    abbrev Round : ℕ → Plan → Type 0
    Round pos q = plan pos ≡ q → Result t (p.children pos) (parent ∷ upper)

    below_root : level parent ≤ level t.root
    below_root = IsPath-level t.internals level t.root parent upper path

    -- The branches of `merge_internal_node`, for the node `node` at position `pos`.
    abbrev branch : (node : ℕ) → Plan → ℕ → Option (Tree V)
    branch node q pos =
        let n = t.internals node in
        let left = p.children (pos - 1) in
        let right = p.children (pos + 1) in
        elim q [
          | from_left ↦
              let (l, n', key) = borrow_last_child (t.internals left) (p.keys (pos - 1)) n in
              some (
                set_internal (set_internal (set_internal t node n') left l) parent
                  (set_key p (pos - 1) key))
          | from_right ↦
              let (n', r, key) = borrow_first_child n (p.keys pos) (t.internals right) in
              some (
                set_internal (set_internal (set_internal t node n') right r) parent
                  (set_key p pos key))
          | with_left ↦
              let joined = join_internals (t.internals left) (p.keys (pos - 1)) n in
              let t' =
                set_internal (set_internal t left joined) parent (remove_child p (pos - 1)) in
              let rest = merge_internal_node order t' parent upper in
              if p.size == 0
              then none
              else Option.map (give_back node)
                  (if ltb (p.size - 1) (order / 2) then rest else some t')
          | with_right ↦
              let joined = join_internals n (p.keys pos) (t.internals right) in
              let t' = set_internal (set_internal t node joined) parent (remove_child p pos) in
              let rest = merge_internal_node order t' parent upper in
              if p.size == 0
              then none
              else Option.map (give_back right)
                  (if ltb (p.size - 1) (order / 2) then rest else some t')
        ]

    opened :
        (pos : ℕ)
        → pos ≤ p.size
        → {q : Plan} → plan pos ≡ q
        → merge_internal_node order t (p.children pos) (parent ∷ upper)
          ≡ branch (p.children pos) q pos
    unfolding merge_internal_node
    opened pos h chosen =
        let at = index_of_lem p pos h (λ i j. levelled.distinct parent i j (omega arith)) in
        subst
          (λ k.
            merge_internal_node order t (p.children pos) (parent ∷ upper)
            ≡ branch (p.children pos) (plan k) k)
          at refl
        ∙ ap (λ r. branch (p.children pos) r pos) chosen

    lend_first : (pos : ℕ) → pos < p.size → 1 < size_at (pos + 1) → Round pos from_right
    lend_first pos inside more chosen =
        let (reaches, down) =
          lent_first-Kept t.internals level up t.root parent levelled descends over_low inner
            below_root pos inside more in
        let (l, r, key) =
          borrow_first_child (t.internals (p.children pos)) (p.keys pos)
            (t.internals (p.children (pos + 1))) in
        (
          set_internal (set_internal (set_internal t (p.children pos) l) (p.children (pos + 1)) r)
              parent (set_key p pos key),
          opened pos (omega arith) chosen,
          record {
            reaches = reaches;
            descends = down;
            no_higher = omega arith;
            leaves = refl;
            kinds = refl;
          },
        )

    lend_last : (i : ℕ) → i < p.size → 1 < size_at i → Round (i + 1) from_left
    lend_last i inside more chosen =
        let back : i + 1 - 1 ≡ i = omega arith in
        let (reaches, down) =
          lent_last-Kept t.internals level up t.root parent levelled descends over_low inner
            below_root i inside more in
        let (l, r, key) =
          borrow_last_child (t.internals (p.children i)) (p.keys i)
            (t.internals (p.children (i + 1))) in
        (
          set_internal (set_internal (set_internal t (p.children (i + 1)) r) (p.children i) l)
              parent (set_key p i key),
          opened (i + 1) (omega arith) chosen ∙ rw back refl,
          record {
            reaches = reaches;
            descends = down;
            no_higher = omega arith;
            leaves = refl;
            kinds = refl;
          },
        )

    -- The tree with two children joined, and whether the parent goes on.
    abbrev joined : ℕ → Tree V
    joined i = record t {
      internals =
          write
            (write t.internals (p.children i) (
              join_internals (t.internals (p.children i)) (p.keys i)
                (t.internals (p.children (i + 1)))))
            parent (remove_child p i);
    }

    joined-Ready : (i : ℕ) → i < p.size → IsReady (joined i) parent upper
    joined-Ready i inside =
        let (reaches, down) =
          joined_nodes-Kept t.internals level up t.root parent levelled descends over_low inner
            below_root i inside in
        let nodes' = (joined i).internals in
        let at_parent : nodes' parent ≡ remove_child p i = rw (==-refl parent) refl in
        let at_child = levelled.child_level parent i (omega arith) (omega arith) in
        let same : (q : ℕ) → level parent ≤ level q → q ≢ parent → nodes' q ≡ t.internals q =
          λ q h x.
            rw (==-false q parent x, ==-false q (p.children i) (λ e. omega (arith, ap level e)))
              refl in
        record {
          levelled =
              next-IsLevelled t.internals nodes' level up parent levelled (omega arith) same
                (subst (λ n. (a b : ℕ) → a < b → b < n.size → n.keys a < n.keys b) (sym at_parent)
                  (fewer-IsSorted_keys p i inside (levelled.sorted parent (omega arith))))
                (subst (λ n. (m : ℕ) → m < n.size → (k : ℕ) × (k < p.size) × (n.keys m ≡ p.keys k))
                  (sym at_parent) (λ m h. fewer_old_key p i m inside h));
          descends = down;
          inner = omega arith;
          path =
              IsPath-frame t.internals nodes' level t.root parent upper path
                (λ q h. same q (omega arith) (λ e. omega (arith, ap level e)));
          first_child =
              ap (λ n. level (n.children 0) + 1) at_parent
              ∙ ap (λ c. level c + 1) (fewer_first_child p i inside)
              ∙ levelled.child_level parent 0 (omega arith) (omega arith);
        }

    -- What the branches that join do after it, where `gone` is given back.
    goes_on :
        (i gone : ℕ)
        → i < p.size
        → (t' : Tree V) × ((if p.size == 0
              then none
              else Option.map (give_back gone) (
                  if ltb (p.size - 1) (order / 2)
                  then merge_internal_node order (joined i) parent upper
                  else some (joined i)))
            ≡ some t')
          × IsClimbed t t'
    goes_on i gone inside =
        let ready = joined-Ready i inside in
        let (reaches, down) =
          joined_nodes-Kept t.internals level up t.root parent levelled descends over_low inner
            below_root i inside in
        let (t', e, climbed) = rest (joined i) ready in
        let some_key : (p.size == 0) ≡ false = ==-false p.size 0 (λ z. omega arith) in
        elim (Bool-cases (ltb (p.size - 1) (order / 2))) [
          | inl small ↦ (
            give_back gone t',
            rw (some_key, small, e) refl,
            record {
              reaches = λ key. climbed.reaches key ∙ reaches key;
              descends = climbed.descends;
              no_higher = climbed.no_higher;
              leaves = climbed.leaves;
              kinds = climbed.kinds;
            },
          )
          | inr enough ↦ (
            give_back gone (joined i),
            rw (some_key, enough) refl,
            record {
              reaches = reaches;
              descends = down;
              no_higher = omega arith;
              leaves = refl;
              kinds = refl;
            },
          )
        ]

    join_right : (pos : ℕ) → pos < p.size → Round pos with_right
    join_right pos inside chosen =
        let (t', e, climbed) = goes_on pos (p.children (pos + 1)) inside in
        (t', opened pos (omega arith) chosen ∙ e, climbed)

    join_left : (i : ℕ) → i < p.size → Round (i + 1) with_left
    join_left i inside chosen =
        let back : i + 1 - 1 ≡ i = omega arith in
        let (t', e, climbed) = goes_on i (p.children (i + 1)) inside in
        (t', opened (i + 1) (omega arith) chosen ∙ rw back e, climbed)

    -- A plan that is chosen can be carried out.
    pub round :
        (q : Plan) (pos : ℕ)
        → pos ≤ p.size
        → Chosen (order / 2) pos p.size (size_at (pos - 1)) (size_at (pos + 1)) q
        → Round pos q
    unfolding Chosen
    round from_right pos h c = lend_first pos c.0 (omega arith)
    round with_right pos h c =
        join_right pos (omega (arith, levelled.some_key parent (omega arith)))
    round from_left pos h c =
        let at : pos - 1 + 1 ≡ pos = omega arith in
        subst (λ k. Round k from_left) at (lend_last (pos - 1) (omega arith) (omega arith))
    round with_left pos h c =
        let at : pos - 1 + 1 ≡ pos = omega arith in
        subst (λ k. Round k with_left) at (join_left (pos - 1) (omega arith))
