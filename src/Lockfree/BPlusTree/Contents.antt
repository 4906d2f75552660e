-- ===== src/Lockfree/BPlusTree/Contents.antt =====
-- What `find` gives in the whole tree after a leaf has changed, and after one parent and the leaves below it
-- have.
use async_toolkit.Base.{
  ==-false, ==-refl, Bool-cases, Option-cases, if◌then◌else◌, ◌==◌, ℕ, zero, suc, ◌≤◌, ◌≡◌, refl,
  sym, ap, ◌∙◌, subst, ◌≢◌, inl, inr, true, false, Option, some, List, [], ◌∷◌, arith, ℕ_discrete,
}
use mathlib.Core.Option
use async_toolkit.Lockfree.BPlusTree.Arrays.{write}
use async_toolkit.Lockfree.BPlusTree.Leaf.{Leaf}
use async_toolkit.Lockfree.BPlusTree.Leaf
use async_toolkit.Lockfree.BPlusTree.Internal.{find_child}
use async_toolkit.Lockfree.BPlusTree.Tree.{Tree, set_leaf, descend, find_leaf_node, find}
use async_toolkit.Lockfree.BPlusTree.Route.{route, route-IsRoute}
use async_toolkit.Lockfree.BPlusTree.Merge.Parent.{IsParent}
use async_toolkit.Lockfree.BPlusTree.Merge.Keeps.{Rebalanced}

module _ {V : Type 0} where
  -- The nodes that a search can come to.
  pub data Reaches (t : Tree V) : ℕ → Type 0 where
    at_root : Reaches t t.root
    at_child :
        {q : ℕ}
        → Reaches t q
        → t.is_leaf q ≡ false
        → (i : ℕ) → i ≤ (t.internals q).size
        → Reaches t ((t.internals q).children i)

  descend-set_leaf :
      (fuel : ℕ) (t : Tree V) (a : ℕ) (l : Leaf V) (current key : ℕ) (path : List ℕ)
      → descend fuel (set_leaf t a l) current key path ≡ descend fuel t current key path
  unfolding descend
  descend-set_leaf zero t a l current key path = refl
  descend-set_leaf (suc k) t a l current key path = elim (Bool-cases (t.is_leaf current)) [
    | inl e ↦ rw (e, descend) refl
    | inr e ↦
        rw (e, descend)
          (descend-set_leaf k t a l (find_child (t.internals current) key) key (current ∷ path))
  ]

  at_leaf :
      (t : Tree V) (key leaf a : ℕ) (l : Leaf V) (new : Option V)
      → ((j : ℕ) → Leaf.find l j ≡ (if key == j then new else Leaf.find (t.leaves leaf) j))
      → (j : ℕ) → (key ≡ j → leaf ≡ a)
      → Leaf.find (write t.leaves leaf l a) j ≡ (if key == j then new else Leaf.find (t.leaves a) j)
  at_leaf t key leaf a l new spec j same = elim (ℕ_discrete a leaf) [
    | yes here ↦ rw here (rw (==-refl leaf) (spec j))
    | no there ↦
        let other : key ≢ j = λ e. there (sym (same e)) in
        rw (==-false a leaf there, ==-false key j other) refl
  ]

  -- A leaf changes at one key, for which the search comes to it.
  pub find-set_leaf :
      (fuel : ℕ) (t : Tree V) (key leaf : ℕ) (path : List ℕ) (l : Leaf V) (new : Option V)
      → find_leaf_node fuel t key ≡ some (leaf, path)
      → ((j : ℕ) → Leaf.find l j ≡ (if key == j then new else Leaf.find (t.leaves leaf) j))
      → (j : ℕ)
      → find fuel (set_leaf t leaf l) j
        ≡ Option.map (λ old. if key == j then new else old) (find fuel t j)
  unfolding find find_leaf_node
  find-set_leaf fuel t key leaf path l new e spec j =
      rw (descend-set_leaf fuel t leaf l t.root j [])
        (elim (Option-cases (descend fuel t t.root j [])) [
          | inl n ↦ rw n refl
          | inr ((a, up), s) ↦ rw s (
              ap some (
                at_leaf t key leaf a l new spec j (λ m.
                  let up_same = sym e ∙ ap (λ c. descend fuel t t.root c []) m ∙ s in
                  ground arith)))
        ])

  pub found_of_leaf :
      (fuel : ℕ) (t : Tree V) (key : ℕ) {leaf : ℕ} {path : List ℕ}
      → find_leaf_node fuel t key ≡ some (leaf, path)
      → find fuel t key ≡ some (Leaf.find (t.leaves leaf) key)
  unfolding find
  found_of_leaf fuel t key e = rw e refl

  -- The node is the child of the path's last node to which the key is sent.
  abbrev pub IsBelow : Tree V → (key node : ℕ) → List ℕ → Type 0
  IsBelow t key node [] = Unit
  IsBelow t key node (q ∷ upper) =
      Reaches t q × (t.is_leaf q ≡ false) × (node ≡ find_child (t.internals q) key)

  Reaches-child :
      (t : Tree V) (q key : ℕ)
      → Reaches t q
      → t.is_leaf q ≡ false
      → Reaches t (find_child (t.internals q) key)
  unfolding find_child
  Reaches-child t q key r e =
      at_child r e (route (t.internals q) key) (route-IsRoute (t.internals q) key).bound

  descend-IsBelow :
      (fuel : ℕ) (t : Tree V) (current key : ℕ) (path : List ℕ) {leaf : ℕ} {path' : List ℕ}
      → Reaches t current
      → IsBelow t key current path
      → descend fuel t current key path ≡ some (leaf, path')
      → IsBelow t key leaf path' × (t.is_leaf leaf ≡ true)
  unfolding descend
  descend-IsBelow zero t current key path r b e = absurd (cc e)
  descend-IsBelow (suc k) t current key path {leaf} {path'} r b e =
      elim (Bool-cases (t.is_leaf current)) [
        | inl l ↦
            let found : ◌≡◌ {A = Option (ℕ × List ℕ)} (some (current, path)) (some (leaf, path')) =
              rw (l, descend) at e in
            let node : current ≡ leaf = ground arith in
            let up : path ≡ path' = ground arith in
            (
              subst (λ c. IsBelow t key c path') node (subst (IsBelow t key current) up b),
              rw (← node) l,
            )
        | inr l ↦
            let next : descend k t (find_child (t.internals current) key) key (current ∷ path)
                ≡ some (leaf, path') =
              rw (l, descend) at e in
            descend-IsBelow k t (find_child (t.internals current) key) key (current ∷ path)
              (Reaches-child t current key r l) (r, l, refl) next
      ]

  pub find_leaf_node-IsBelow :
      (fuel : ℕ) (t : Tree V) (key : ℕ) {leaf : ℕ} {path : List ℕ}
      → find_leaf_node fuel t key ≡ some (leaf, path)
      → IsBelow t key leaf path × (t.is_leaf leaf ≡ true)
  unfolding find_leaf_node
  find_leaf_node-IsBelow fuel t key e = descend-IsBelow fuel t t.root key [] at_root tt e

  -- A parent of leaves that no other node shares with it.
  pub record IsOwner (t : Tree V) (parent : ℕ) : Type 0 where
    pub valid : IsParent (t.internals parent) t.leaves
    pub inner : t.is_leaf parent ≡ false
    pub bottom :
        (i : ℕ) → i ≤ (t.internals parent).size → t.is_leaf ((t.internals parent).children i) ≡ true
    pub not_root :
        (i : ℕ) → i ≤ (t.internals parent).size → (t.internals parent).children i ≢ t.root
    pub alone :
        (q : ℕ)
        → Reaches t q
        → t.is_leaf q ≡ false
        → q ≢ parent
        → (k i : ℕ) → k ≤ (t.internals q).size
        → i ≤ (t.internals parent).size
        → (t.internals parent).children i ≢ (t.internals q).children k

  abbrev IsChild : Tree V → (parent node : ℕ) → Type 0
  IsChild t parent node =
      (i : ℕ) × (i ≤ (t.internals parent).size) × ((t.internals parent).children i ≡ node)

  abbrev pub found_from : (fuel : ℕ) → Tree V → (current key : ℕ) → List ℕ → Option (Option V)
  found_from fuel t current key path =
      Option.map (λ (a, up). Leaf.find (t.leaves a) key) (descend fuel t current key path)

  pub found_from-leaf :
      (k : ℕ) (t : Tree V) (current key : ℕ) (path : List ℕ)
      → t.is_leaf current ≡ true
      → found_from (suc k) t current key path ≡ some (Leaf.find (t.leaves current) key)
  unfolding descend
  found_from-leaf k t current key path e = rw (e, descend) refl

  pub found_from-internal :
      (k : ℕ) (t : Tree V) (current key : ℕ) (path : List ℕ)
      → t.is_leaf current ≡ false
      → found_from (suc k) t current key path
        ≡ found_from k t (find_child (t.internals current) key) key (current ∷ path)
  unfolding descend
  found_from-internal k t current key path e = rw (e, descend) refl

  module _ (t t' : Tree V) (parent : ℕ) (owner : IsOwner t parent)
      (r : Rebalanced t parent t') where
    bottom' :
        (i : ℕ)
        → i ≤ (t'.internals parent).size
        → t'.is_leaf ((t'.internals parent).children i) ≡ true
    bottom' i h = let (m, k, e) = r.kept i h in rw (r.kinds, e) (owner.bottom m k)

    at_parent :
        (fuel key : ℕ) (path : List ℕ)
        → found_from (suc fuel) t' parent key path ≡ found_from (suc fuel) t parent key path
    unfolding descend find_child
    at_parent fuel key path =
        found_from-internal fuel t' parent key path (rw r.kinds owner.inner)
        ∙ below fuel
        ∙ sym (found_from-internal fuel t parent key path owner.inner)
      where
        below :
            (k : ℕ)
            → found_from k t' (find_child (t'.internals parent) key) key (parent ∷ path)
              ≡ found_from k t (find_child (t.internals parent) key) key (parent ∷ path)
        below zero = refl
        below (suc k) =
            found_from-leaf k t' (find_child (t'.internals parent) key) key (parent ∷ path) (
              bottom' (route (t'.internals parent) key)
                (route-IsRoute (t'.internals parent) key).bound)
            ∙ ap some (r.same key)
            ∙ sym (
                found_from-leaf k t (find_child (t.internals parent) key) key (parent ∷ path) (
                  owner.bottom (route (t.internals parent) key)
                    (route-IsRoute (t.internals parent) key).bound))

    found_from-Rebalanced :
        (fuel current key : ℕ) (path : List ℕ)
        → Reaches t current
        → ¬ IsChild t parent current
        → found_from fuel t' current key path ≡ found_from fuel t current key path
    unfolding descend find_child
    found_from-Rebalanced zero current key path c n = refl
    found_from-Rebalanced (suc k) current key path c n = elim (Bool-cases (t.is_leaf current)) [
      | inl l ↦
          found_from-leaf k t' current key path (rw r.kinds l)
          ∙ ap (λ f. some (Leaf.find f key)) (r.leaves current (λ i h e. n (i, h, e)))
          ∙ sym (found_from-leaf k t current key path l)
      | inr l ↦ elim (ℕ_discrete current parent) [
        | yes e ↦
            subst (λ q. found_from (suc k) t' q key path ≡ found_from (suc k) t q key path) (sym e)
              (at_parent k key path)
        | no a ↦
            let next = find_child (t.internals current) key in
            found_from-internal k t' current key path (rw r.kinds l)
            ∙ ap (λ m. found_from k t' (find_child m key) key (current ∷ path))
                (r.internals current a)
            ∙ found_from-Rebalanced k next key (current ∷ path) (Reaches-child t current key c l)
                (λ (i, h, e).
                  owner.alone current c l a (route (t.internals current) key) i
                    (route-IsRoute (t.internals current) key).bound h e)
            ∙ sym (found_from-internal k t current key path l)
      ]
    ]

    -- A search from the root finds what it found before.
    pub find-Rebalanced : (fuel key : ℕ) → find fuel t' key ≡ find fuel t key
    unfolding find find_leaf_node
    find-Rebalanced fuel key =
        ap (λ a. found_from fuel t' a key []) r.root
        ∙ found_from-Rebalanced fuel t.root key [] at_root (λ (i, h, e). owner.not_root i h e)
