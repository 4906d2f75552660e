-- ===== src/Lockfree/BPlusTree/Split.antt =====
-- What the split of a leaf keeps, and what `insert` does with a full leaf.
use async_toolkit.Base.{
  ==-false, ==-refl, ℕ, ◌+◌, ◌-◌, ◌/◌, ◌<◌, ◌≡◌, refl, sym, ◌∙◌, ◌≢◌, true, false, none, [], arith,
}
use async_toolkit.Lockfree.BPlusTree.Arrays.{copy, copy_lem}
use async_toolkit.Lockfree.BPlusTree.Leaf.{
  Leaf, find_position, IsSorted, IsPosition, find_of_position, find_miss,
}
use async_toolkit.Lockfree.BPlusTree.Leaf
use async_toolkit.Lockfree.BPlusTree.Leaf.Insert.{insert_lem}
use async_toolkit.Lockfree.BPlusTree.Tree.{
  Tree, split_leaf, split_leaf_node, insert_round, insert_in_parent, link_leaves,
}

-- No entry of the leaf has the key.
abbrev pub Lacks : {V : Type 0} → ℕ → Leaf V → Type 0
Lacks key l = (i : ℕ) → i < l.size → l.keys i ≢ key

module _ {V : Type 0} (blank : ℕ → V) where
  -- The halves of a split leaf are its entries, the lower ones and then the higher ones, with none lost,
  -- and if its keys ascend then so do theirs, and all keys of the lower half are below the first one of
  -- the higher half, which becomes the separator.
  pub split_leaf_lem :
      (l : Leaf V)
      → let (low, high) = split_leaf blank l in
        (low.size + high.size ≡ l.size)
        × ((i : ℕ) → i < low.size → (low.keys i ≡ l.keys i) × (low.values i ≡ l.values i))
        × ((i : ℕ)
            → i < high.size
            → (high.keys i ≡ l.keys (low.size + i)) × (high.values i ≡ l.values (low.size + i)))
        × (IsSorted l
            → IsSorted low
              × IsSorted high
              × ((i : ℕ) → i < low.size → 0 < high.size → low.keys i < high.keys 0))
  unfolding split_leaf
  split_leaf_lem l =
      let mid = l.size / 2 in
      let n = l.size - mid in
      let keys_at : (i : ℕ) → i < n → copy n mid 0 l.keys (λ _. 0) i ≡ l.keys (mid + i) =
        λ i h. copy_lem n mid 0 l.keys (λ _. 0) i ∙ ground arith in
      let values_at : (i : ℕ) → i < n → copy n mid 0 l.values blank i ≡ l.values (mid + i) =
        λ i h. copy_lem n mid 0 l.values blank i ∙ ground arith in
      (
        omega arith,
        λ i h. (refl, refl),
        λ i h. (keys_at i h, values_at i h),
        λ sorted. (
          λ i j h k. sorted i j h (omega arith),
          λ i j h k.
              rw (keys_at i (omega arith), keys_at j k)
                (sorted (mid + i) (mid + j) (omega arith) (omega arith)),
          λ i h k. rw (keys_at 0 k) (sorted i (mid + 0) (omega arith) (omega arith)),
        ),
      )

  Lacks-of_find : (l : Leaf V) (key : ℕ) → IsSorted l → Leaf.find l key ≡ none → Lacks key l
  Lacks-of_find l key sorted e i h same =
      let here : IsPosition l key i = record {
        bound = omega arith;
        before = λ j k. omega (arith, sorted j i k h, same);
        at = λ k. omega (arith, same);
      } in
      ground (arith, find_of_position l key i here)

  find_of_Lacks : (l : Leaf V) (key : ℕ) → Lacks key l → Leaf.find l key ≡ none
  find_of_Lacks l key h = find_miss l key (ground (arith, h (find_position l key)))

  split-Lacks :
      (l : Leaf V) (key : ℕ)
      → Lacks key l
      → Lacks key (split_leaf blank l).0 × Lacks key (split_leaf blank l).1
  split-Lacks l key h =
      let (sizes, low, high, _) = split_leaf_lem l in
      (
        λ i k e. h i (omega (arith, sizes)) (sym (low i k).0 ∙ e),
        λ i k e. h ((split_leaf blank l).0.size + i) (omega (arith, sizes)) (sym (high i k).0 ∙ e),
      )

  link_leaves-Lacks :
      (t : Tree V) (leaf new_leaf key : ℕ)
      → leaf ≢ new_leaf
      → Lacks key (t.leaves leaf)
      → Lacks key (t.leaves new_leaf)
      → Lacks key ((link_leaves t leaf new_leaf).leaves leaf)
        × Lacks key ((link_leaves t leaf new_leaf).leaves new_leaf)
  unfolding link_leaves
  link_leaves-Lacks t leaf new_leaf key apart h k =
      let here = ==-refl leaf in
      let there = ==-refl new_leaf in
      let up = ==-false leaf new_leaf apart in
      let down = ==-false new_leaf leaf (λ e. apart (sym e)) in
      (rw (here, up) h, rw (down, there) k)

  split_leaf_node-Lacks :
      (t : Tree V) (leaf key : ℕ)
      → leaf ≢ t.fresh
      → Lacks key (t.leaves leaf)
      → Lacks key ((split_leaf_node blank t leaf).1.leaves leaf)
        × Lacks key ((split_leaf_node blank t leaf).1.leaves t.fresh)
  unfolding split_leaf_node
  split_leaf_node-Lacks t leaf key apart h =
      let (low, high) = split-Lacks (t.leaves leaf) key h in
      let here = ==-refl leaf in
      let there = ==-refl t.fresh in
      let down = ==-false t.fresh leaf (λ e. apart (sym e)) in (rw here low, rw (down, there) high)

  -- When the root is a leaf with ascending keys that refuses a key, and the next node gets an
  -- address above it, the round of `insert` splits the leaf and answers `true`, and `find` has
  -- nothing at the key in either half.
  pub insert_full_root_loses :
      (order : ℕ) (t : Tree V) (key : ℕ) (value : V)
      → t.root < t.fresh
      → IsSorted (t.leaves t.root)
      → (Leaf.insert order (t.leaves t.root) key value).0 ≡ false
      → let (done, t') = insert_round blank order t key value t.root [] in
        (done ≡ true)
        × (Leaf.find (t'.leaves t.root) key ≡ none)
        × (Leaf.find (t'.leaves t.fresh) key ≡ none)
  unfolding insert_round insert_in_parent
  insert_full_root_loses order t key value old sorted refused =
      let (_, full, _, _) = insert_lem order (t.leaves t.root) sorted key value in
      let (_, _, miss) = full refused in
      let apart : t.root ≢ t.fresh = λ e. omega arith in
      let (low, high) =
        split_leaf_node-Lacks t t.root key apart
          (Lacks-of_find (t.leaves t.root) key sorted miss) in
      let (low', high') =
        link_leaves-Lacks (split_leaf_node blank t t.root).1 t.root t.fresh key apart low high in
      rw refused (refl, find_of_Lacks _ key low', find_of_Lacks _ key high')
