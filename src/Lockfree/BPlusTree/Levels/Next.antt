-- ===== src/Lockfree/BPlusTree/Levels/Next.antt =====
-- What stays of the levels above after a parent lost a child, in the next round of `merge_internal_node`.
use async_toolkit.Base.{
  if◌then◌else◌, ltb, ℕ, ◌+◌, ◌≤◌, ◌<◌, ◌≡◌, refl, sym, ap, subst, ◌≢◌, List, [], ◌∷◌, arith,
  ℕ_discrete,
}
use async_toolkit.Lockfree.BPlusTree.Internal.{Internal}
use async_toolkit.Lockfree.BPlusTree.Siblings.{remove_child}
use async_toolkit.Lockfree.BPlusTree.Siblings.Routes.{IsSorted}
use async_toolkit.Lockfree.BPlusTree.Merge.Joined.{left_child, left_key, left_size}
use async_toolkit.Lockfree.BPlusTree.Levels.Step.{IsLevelled}

-- The nodes from the parent of `node` up to the root.
abbrev pub IsPath : (ℕ → Internal) → (level : ℕ → ℕ) → (root node : ℕ) → List ℕ → Type 0
IsPath nodes level root node [] = node ≡ root
IsPath nodes level root node (parent ∷ upper) =
    (level node + 1 ≡ level parent)
    × ((pos : ℕ) × (pos ≤ (nodes parent).size) × ((nodes parent).children pos ≡ node))
    × IsPath nodes level root parent upper

pub IsPath-level :
    (nodes : ℕ → Internal) (level : ℕ → ℕ) (root node : ℕ) (path : List ℕ)
    → IsPath nodes level root node path
    → level node ≤ level root
IsPath-level nodes level root node [] e = omega (arith, ap level e)
IsPath-level nodes level root node (parent ∷ upper) (h, at, up) =
    omega (arith, h, IsPath-level nodes level root parent upper up)

pub IsPath-frame :
    (nodes nodes' : ℕ → Internal) (level : ℕ → ℕ) (root node : ℕ) (path : List ℕ)
    → IsPath nodes level root node path
    → ((q : ℕ) → level node < level q → nodes' q ≡ nodes q)
    → IsPath nodes' level root node path
IsPath-frame nodes nodes' level root node [] e same = e
IsPath-frame nodes nodes' level root node (parent ∷ upper) (h, at, up) same = (
  h,
  subst (λ n. (pos : ℕ) × (pos ≤ n.size) × (n.children pos ≡ node))
      (sym (same parent (omega arith))) at,
  IsPath-frame nodes nodes' level root parent upper up (λ q lt. same q (omega arith)),
)

-- The parent without a child: its keys are some of those before.
pub fewer-IsSorted_keys :
    (p : Internal) (i : ℕ) → i < p.size → IsSorted p → IsSorted (remove_child p i)
fewer-IsSorted_keys p i inside sorted a b h k =
    let size = left_size p i (omega arith) in
    ground (
      arith,
      left_key p i a,
      left_key p i b,
      size,
      sorted a b,
      sorted a (b + 1),
      sorted (a + 1) (b + 1),
    )

pub fewer_old_key :
    (p : Internal) (i m : ℕ)
    → i < p.size
    → m < (remove_child p i).size
    → (k : ℕ) × (k < p.size) × ((remove_child p i).keys m ≡ p.keys k)
fewer_old_key p i m inside h =
    let size = left_size p i (omega arith) in
    (if ltb m i then m else m + 1, ground (arith, size), ground (arith, left_key p i m, size))

pub fewer_first_child :
    (p : Internal) (i : ℕ) → i < p.size → (remove_child p i).children 0 ≡ p.children 0
fewer_first_child p i inside = ground (arith, left_child p i 0)

module _ (nodes nodes' : ℕ → Internal) (level up : ℕ → ℕ) (parent : ℕ) {low : ℕ}
    (levelled : IsLevelled nodes level up low) (over_low : low ≤ level parent)
    (same : (q : ℕ) → level parent ≤ level q → q ≢ parent → nodes' q ≡ nodes q)
    (sorted' : IsSorted (nodes' parent))
    (old_key : (m : ℕ)
      → m < (nodes' parent).size
      → (k : ℕ) × (k < (nodes parent).size)
        × ((nodes' parent).keys m ≡ (nodes parent).keys k)) where
  same_above : (a : ℕ) → level parent < level a → nodes' a ≡ nodes a
  same_above a h = same a (omega arith) (λ e. omega (arith, ap level e))

  some_old :
      (c : ℕ)
      → level parent ≤ level c
      → (m : ℕ) → m < (nodes' c).size
      → (k : ℕ) × (k < (nodes c).size) × ((nodes' c).keys m ≡ (nodes c).keys k)
  some_old c h = elim (ℕ_discrete c parent) [
    | yes e ↦
        subst
          (λ b.
            (m : ℕ)
            → m < (nodes' b).size
            → (k : ℕ) × (k < (nodes b).size) × ((nodes' b).keys m ≡ (nodes b).keys k))
          (sym e) old_key
    | no other ↦ rw (same c h other) (λ m lt. (m, lt, refl))
  ]

  child_of :
      (a i : ℕ)
      → level parent < level a
      → i ≤ (nodes a).size
      → level parent ≤ level ((nodes a).children i)
  child_of a i h k = omega (arith, levelled.child_level a i (omega arith) k)

  child-IsSorted' :
      (a i : ℕ)
      → level parent < level a
      → i ≤ (nodes a).size
      → IsSorted (nodes' ((nodes a).children i))
  child-IsSorted' a i h k = elim (ℕ_discrete ((nodes a).children i) parent) [
    | yes e ↦ subst (λ c. IsSorted (nodes' c)) (sym e) sorted'
    | no other ↦
        subst IsSorted (sym (same _ (child_of a i h k) other))
          (levelled.child_sorted a i (omega arith) k)
  ]

  below' :
      (a i m : ℕ)
      → level parent < level a
      → i < (nodes a).size
      → m < (nodes' ((nodes a).children i)).size
      → (nodes' ((nodes a).children i)).keys m < (nodes a).keys i
  below' a i m h k lt =
      let (q, b, e) = some_old _ (child_of a i h (omega arith)) m lt in
      omega (arith, e, levelled.below a i q (omega arith) k b)

  above' :
      (a i m : ℕ)
      → level parent < level a
      → i < (nodes a).size
      → m < (nodes' ((nodes a).children (i + 1))).size
      → (nodes a).keys i ≤ (nodes' ((nodes a).children (i + 1))).keys m
  above' a i m h k lt =
      let (q, b, e) = some_old _ (child_of a (i + 1) h (omega arith)) m lt in
      omega (arith, e, levelled.above a i q (omega arith) k b)

  pub next-IsLevelled : IsLevelled nodes' level up (level parent)
  next-IsLevelled = record {
    child_level = λ a i h. rw (same_above a h) (levelled.child_level a i (omega arith));
    child_up = λ a i h. rw (same_above a h) (levelled.child_up a i (omega arith));
    distinct = λ a i j h. rw (same_above a h) (levelled.distinct a i j (omega arith));
    some_key = λ a h. rw (same_above a h) (levelled.some_key a (omega arith));
    sorted = λ a h. rw (same_above a h) (levelled.sorted a (omega arith));
    child_sorted = λ a i h. rw (same_above a h) (child-IsSorted' a i h);
    below = λ a i m h. rw (same_above a h) (below' a i m h);
    above = λ a i m h. rw (same_above a h) (above' a i m h);
  }
