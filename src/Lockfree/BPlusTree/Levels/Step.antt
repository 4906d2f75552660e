-- ===== src/Lockfree/BPlusTree/Levels/Step.antt =====
-- One level of `merge_internal_node`: two neighbours and their parent change, and all searches go where they went.
use async_toolkit.Base.{ℕ, ◌+◌, ◌-◌, ◌≤◌, ◌<◌, ◌≡◌, sym, ap, ◌∙◌, ◌≢◌, arith, dec_lt}
use async_toolkit.Lockfree.BPlusTree.Internal.{Internal, find_child}
use async_toolkit.Lockfree.BPlusTree.Siblings.{remove_child}
use async_toolkit.Lockfree.BPlusTree.Siblings.Routes.{child_of_pair, IsSorted}
use async_toolkit.Lockfree.BPlusTree.Route.{route, route-IsRoute, find_child_of_route}
use async_toolkit.Lockfree.BPlusTree.Merge.{set_key}
use async_toolkit.Lockfree.BPlusTree.Merge.Joined.{fewer_child}
use async_toolkit.Lockfree.BPlusTree.Levels.Asked.{moved_asked, fewer_asked}
use async_toolkit.Lockfree.BPlusTree.Levels.Reach.{reach, Descends, changed-Descends, changed-reach}

-- The inner nodes above level `low`: their children stand one level lower and belong to them alone, there is a key, and
-- each key parts those of the two children beside it.
pub record IsLevelled (nodes : ℕ → Internal) (level up : ℕ → ℕ) (low : ℕ) : Type 0 where
  pub child_level :
      (a i : ℕ) → low < level a → i ≤ (nodes a).size → level ((nodes a).children i) + 1 ≡ level a
  pub child_up : (a i : ℕ) → low < level a → i ≤ (nodes a).size → up ((nodes a).children i) ≡ a
  pub distinct :
      (a i j : ℕ)
      → low < level a
      → i < j
      → j ≤ (nodes a).size
      → (nodes a).children i ≢ (nodes a).children j
  pub some_key : (a : ℕ) → low < level a → 0 < (nodes a).size
  pub sorted : (a : ℕ) → low < level a → IsSorted (nodes a)
  pub child_sorted :
      (a i : ℕ) → low < level a → i ≤ (nodes a).size → IsSorted (nodes ((nodes a).children i))
  pub below :
      (a i m : ℕ)
      → low < level a
      → i < (nodes a).size
      → m < (nodes ((nodes a).children i)).size
      → (nodes ((nodes a).children i)).keys m < (nodes a).keys i
  pub above :
      (a i m : ℕ)
      → low < level a
      → i < (nodes a).size
      → m < (nodes ((nodes a).children (i + 1))).size
      → (nodes a).keys i ≤ (nodes ((nodes a).children (i + 1))).keys m

-- Every search ends where it ended, and goes down one level at a time.
abbrev pub Kept : (nodes nodes' : ℕ → Internal) → (level : ℕ → ℕ) → (root : ℕ) → Type 0
Kept nodes nodes' level root =
    ((key : ℕ) → reach nodes' root key (level root) ≡ reach nodes root key (level root))
    × Descends nodes' level root

pub find_child-position :
    (n : Internal) (key : ℕ) → (q : ℕ) × (q ≤ n.size) × (find_child n key ≡ n.children q)
find_child-position n key =
    let r = route-IsRoute n key in (route n key, r.bound, find_child_of_route n key (route n key) r)

module _ (nodes : ℕ → Internal) (level up : ℕ → ℕ) (root parent : ℕ) {low : ℕ}
    (levelled : IsLevelled nodes level up low) (descends : Descends nodes level root)
    (over_low : low + 1 ≡ level parent) (inner : 0 < low) (below_root : level parent ≤ level root)
    (i : ℕ) (inside : i < (nodes parent).size) where
  abbrev pub p : Internal
  p = nodes parent

  abbrev pub left : ℕ
  left = p.children i

  abbrev pub right : ℕ
  right = p.children (i + 1)

  -- What is left of the tree, where the two children and the parent have these contents.
  pub record IsStep (nodes' : ℕ → Internal) (l r p' : Internal) : Type 0 where
    pub at_left : nodes' left ≡ l
    pub at_right : nodes' right ≡ r
    pub at_parent : nodes' parent ≡ p'
    pub frame : (q : ℕ) → q ≢ parent → q ≢ left → q ≢ right → nodes' q ≡ nodes q

  pub left_level : level left + 1 ≡ level parent
  left_level = levelled.child_level parent i (omega arith) (omega arith)

  pub right_level : level right + 1 ≡ level parent
  right_level = levelled.child_level parent (i + 1) (omega arith) (omega arith)

  distinct : (a b : ℕ) → a ≤ p.size → b ≤ p.size → a ≢ b → p.children a ≢ p.children b
  distinct a b h k ne = elim (dec_lt a b) [
    | yes lt ↦ levelled.distinct parent a b (omega arith) lt k
    | no ge ↦ λ e. levelled.distinct parent b a (omega arith) (omega (arith, ne)) h (sym e)
  ]

  module _ (nodes' : ℕ → Internal) (l r p' : Internal) (step : IsStep nodes' l r p') where
    others :
        (m j : ℕ)
        → m ≤ p.size
        → m ≢ i
        → m ≢ i + 1
        → find_child (nodes' (p.children m)) j ≡ find_child (nodes (p.children m)) j
    others m j h a b =
        let at = levelled.child_level parent m (omega arith) h in
        ap (λ n. find_child n j)
          (step.frame _ (λ e. omega (arith, ap level e)) (distinct m i h (omega arith) a)
            (distinct m (i + 1) h (omega arith) b))

    kept :
        ((key : ℕ) → level (find_child (nodes' parent) key) + 1 ≡ level parent)
        → ((key : ℕ)
            → find_child (nodes' (find_child (nodes' parent) key)) key
              ≡ find_child (nodes (find_child p key)) key)
        → Kept nodes nodes' level root
    kept own same =
        let child_up : (key a : ℕ) → level a ≡ level parent → up (find_child (nodes a) key) ≡ a =
          λ key a e.
            let (q, h, at) = find_child-position (nodes a) key in
            ap up at ∙ levelled.child_up a q (omega arith) h in
        let ll = left_level in
        let lu = levelled.child_up parent i (omega arith) (omega arith) in
        let ru = levelled.child_up parent (i + 1) (omega arith) (omega arith) in
        (
          changed-reach nodes nodes' level up root parent left right descends child_up below_root ll
              right_level (omega arith) lu ru step.frame own same,
          changed-Descends nodes nodes' level up root parent left right descends child_up below_root
              ll right_level (omega arith) lu ru step.frame own same,
        )

    pub moved-Kept :
        (key' : ℕ)
        → p' ≡ set_key p i key'
        → ((j : ℕ)
            → child_of_pair l key' r j ≡ child_of_pair (nodes left) (p.keys i) (nodes right) j)
        → (0 < i → p.keys (i - 1) < key')
        → (i + 1 < p.size → key' < p.keys (i + 1))
        → Kept nodes nodes' level root
    moved-Kept key' shape same over under =
        let there = step.at_parent ∙ shape in
        kept
          (λ key.
            let (q, h, at) = find_child-position (set_key p i key') key in
            ap (λ n. level (find_child n key) + 1) there
            ∙ ap (λ c. level c + 1) at
            ∙ levelled.child_level parent q (omega arith) h)
          (λ key.
            ap (λ n. find_child (nodes' (find_child n key)) key) there
            ∙ moved_asked p (levelled.sorted parent (omega arith)) (λ a j. find_child (nodes a) j)
                (λ a j. find_child (nodes' a) j) i inside others key'
                (λ j. rw (step.at_left, step.at_right) (same j)) over under key)

    pub joined-Kept :
        p' ≡ remove_child p i
        → ((j : ℕ) → find_child l j ≡ child_of_pair (nodes left) (p.keys i) (nodes right) j)
        → Kept nodes nodes' level root
    joined-Kept shape same =
        let there = step.at_parent ∙ shape in
        kept
          (λ key.
            let (q, h, at) = find_child-position (remove_child p i) key in
            let (k, bound, old) = fewer_child p i q inside h in
            ap (λ n. level (find_child n key) + 1) there
            ∙ ap (λ c. level c + 1) (at ∙ old)
            ∙ levelled.child_level parent k (omega arith) bound)
          (λ key.
            ap (λ n. find_child (nodes' (find_child n key)) key) there
            ∙ fewer_asked p (levelled.sorted parent (omega arith)) (λ a j. find_child (nodes a) j)
                (λ a j. find_child (nodes' a) j) i inside others
                (λ j. ap (λ n. find_child n j) step.at_left ∙ same j) key)
