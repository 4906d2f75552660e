-- ===== src/Lockfree/BPlusTree/Tree.antt =====
-- `BPlusTree` itself: nodes at addresses, and `find` and `insert`. The three memory pools
-- are a counter of addresses, the null pointer is 0, and `freed` logs what went back to a pool. A path of
-- internal nodes is kept with its last node first.
use mathlib.Core.Option
use async_toolkit.Base.{
  if◌then◌else◌, ◌==◌, ℕ, zero, suc, ◌+◌, ◌-◌, ◌/◌, Bool, true, false, Option, none, some, List, [],
  ◌∷◌,
}
use async_toolkit.Lockfree.BPlusTree.Arrays.{write, copy}
use async_toolkit.Lockfree.BPlusTree.Leaf.{Leaf}
use async_toolkit.Lockfree.BPlusTree.Leaf
use async_toolkit.Lockfree.BPlusTree.Internal.{Internal, new_internal, find_child, insert_child}

pub record Tree (V : Type 0) : Type 0 where
  pub leaves : ℕ → Leaf V
  pub internals : ℕ → Internal
  pub is_leaf : ℕ → Bool
  pub root : ℕ
  pub fresh : ℕ
  pub freed : List ℕ

-- The part of `insert_in_parent` that splits a full internal node: the node, the new one, and the key
-- between them.
unfoldable pub split_internal : Internal → Internal × Internal × ℕ
split_internal n =
    let mid = n.size / 2 in
    let moved = copy (n.size - (mid + 1)) (mid + 1) 0 n.children (λ _. 0) in
    (
      record n { size = mid },
      record {
        size = n.size - (mid + 1);
        keys = copy (n.size - (mid + 1)) (mid + 1) 0 n.keys (λ _. 0);
        children = write moved (n.size - mid) (n.children n.size);
      },
      n.keys mid,
    )

module _ {V : Type 0} where
  abbrev pub set_leaf : Tree V → ℕ → Leaf V → Tree V
  set_leaf t a l = record t { leaves = write t.leaves a l }

  abbrev pub set_internal : Tree V → ℕ → Internal → Tree V
  set_internal t a n = record t { internals = write t.internals a n }

  -- `create_leaf_node`; the values of a new leaf are what `V()` leaves there, here those of `blank`.
  abbrev pub create_leaf : (ℕ → V) → Tree V → ℕ × Tree V
  create_leaf blank t = (
    t.fresh,
    record t {
      leaves =
          write t.leaves t.fresh
            (record { size = 0; keys = λ _. 0; values = blank; next_leaf = 0 });
      is_leaf = write t.is_leaf t.fresh true;
      fresh = t.fresh + 1;
    },
  )

  abbrev pub create_internal : Tree V → ℕ × Tree V
  create_internal t = (
    t.fresh,
    record t {
      internals = write t.internals t.fresh new_internal;
      is_leaf = write t.is_leaf t.fresh false;
      fresh = t.fresh + 1;
    },
  )

  -- The constructor.
  abbrev pub empty_tree : (ℕ → V) → Tree V
  empty_tree blank = record {
    leaves = λ _. record { size = 0; keys = λ _. 0; values = blank; next_leaf = 0 };
    internals = λ _. new_internal;
    is_leaf = λ a. a == 1;
    root = 1;
    fresh = 2;
    freed = [];
  }

  -- The loop of `find_leaf_node`; the fuel bounds the height, `none` is a tree that is higher.
  unfoldable pub descend : (fuel : ℕ) → Tree V → (current key : ℕ) → List ℕ → Option (ℕ × List ℕ)
  descend zero t current key path = none
  descend (suc k) t current key path = elim (t.is_leaf current) [
    | true ↦ some (current, path)
    | false ↦ descend k t (find_child (t.internals current) key) key (current ∷ path)
  ]

  unfoldable pub find_leaf_node : (fuel : ℕ) → Tree V → ℕ → Option (ℕ × List ℕ)
  unfolding descend
  find_leaf_node fuel t key = descend fuel t t.root key []

  unfoldable pub find : (fuel : ℕ) → Tree V → ℕ → Option (Option V)
  find fuel t key = Option.map (λ (a, path). Leaf.find (t.leaves a) key) (find_leaf_node fuel t key)

  -- The two halves of a leaf, as `split_leaf_node` leaves them.
  unfoldable pub split_leaf : (blank : ℕ → V) → Leaf V → Leaf V × Leaf V
  split_leaf blank l =
      let mid = l.size / 2 in
      (
        record l { size = mid },
        record {
          size = l.size - mid;
          keys = copy (l.size - mid) mid 0 l.keys (λ _. 0);
          values = copy (l.size - mid) mid 0 l.values blank;
          next_leaf = 0;
        },
      )

  unfoldable pub split_leaf_node : (blank : ℕ → V) → Tree V → ℕ → ℕ × Tree V
  unfolding split_leaf
  split_leaf_node blank t node =
      let (new_node, t') = create_leaf blank t in
      let (left, right) = split_leaf blank (t.leaves node) in
      (new_node, set_leaf (set_leaf t' new_node right) node left)

  unfoldable pub insert_in_parent :
      (order : ℕ) → Tree V → (left key right : ℕ) → List ℕ → Bool × Tree V
  unfolding split_internal
  insert_in_parent order t left key right [] =
      let (new_root, t') = create_internal t in
      let node = record new_internal { children = write new_internal.children 0 left } in
      (
        true,
        record (set_internal t' new_root (insert_child order node key right).1) { root = new_root },
      )
  insert_in_parent order t left key right (parent ∷ upper) =
      let (done, filled) = insert_child order (t.internals parent) key right in
      let (new_parent, t') = create_internal t in
      let (kept, moved, middle) = split_internal (t.internals parent) in
      let rest =
        insert_in_parent order (set_internal (set_internal t' new_parent moved) parent kept) parent
          middle new_parent upper in
      if done then (true, set_internal t parent filled) else rest

  -- The update of the linked list of leaves in `insert`.
  unfoldable pub link_leaves : Tree V → (leaf new_leaf : ℕ) → Tree V
  link_leaves t leaf new_leaf =
      let linked =
        set_leaf t new_leaf
          (record (t.leaves new_leaf) { next_leaf = (t.leaves leaf).next_leaf }) in
      set_leaf linked leaf (record (linked.leaves leaf) { next_leaf = new_leaf })

  -- One round of the loop of `insert`: whether it is done, and the tree.
  unfoldable pub insert_round :
      (blank : ℕ → V) (order : ℕ) → Tree V → (key : ℕ) → V → ℕ → List ℕ → Bool × Tree V
  unfolding split_leaf_node link_leaves insert_in_parent
  insert_round blank order t key value leaf path =
      let (done, filled) = Leaf.insert order (t.leaves leaf) key value in
      let (new_leaf, t') = split_leaf_node blank t leaf in
      let chained = link_leaves t' leaf new_leaf in
      if done
      then (true, set_leaf t leaf filled)
      else insert_in_parent order chained leaf ((chained.leaves new_leaf).keys 0) new_leaf path

  -- `none`: the fuel for the rounds or for the height ran out.
  unfoldable pub insert :
      (blank : ℕ → V) (order rounds fuel : ℕ) → Tree V → ℕ → V → Option (Bool × Tree V)
  unfolding insert_round
  insert blank order zero fuel t key value = none
  insert blank order (suc k) fuel t key value = elim (find_leaf_node fuel t key) [
    | none ↦ none
    | some (leaf, path) ↦
        let (done, t') = insert_round blank order t key value leaf path in
        let again = insert blank order k fuel t' key value in
        if done then some (true, t') else again
  ]
