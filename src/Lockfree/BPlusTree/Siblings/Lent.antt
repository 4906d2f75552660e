-- ===== src/Lockfree/BPlusTree/Siblings/Lent.antt =====
-- Where a search goes from two neighbouring internal nodes, before and after `merge_internal_node` moves a
-- child from one to the other.
use async_toolkit.Base.{
  Bool-cases, if◌then◌else◌, leb, leb-false, leb-true, ◌==◌, ℕ, ◌+◌, ◌-◌, ◌≤◌, ◌<◌, ◌≡◌, refl, sym,
  ap, ◌∙◌, inl, inr, true, false, arith,
}
use async_toolkit.Lockfree.BPlusTree.Arrays.{shift_right_lem, shift_left_lem}
use async_toolkit.Lockfree.BPlusTree.Internal.{Internal, find_child}
use async_toolkit.Lockfree.BPlusTree.Siblings.{borrow_last_child, borrow_first_child}
use async_toolkit.Lockfree.BPlusTree.Route.{route, route-IsRoute, find_child_of_route}
use async_toolkit.Lockfree.BPlusTree.Siblings.Routes.{
  child_of_pair, IsSorted, child_of_pair_right, child_of_pair_left,
}

module _ (left : Internal) (down : ℕ) (node : Internal) (sorted : IsSorted left)
    (below : (i : ℕ) → i < left.size → left.keys i ≤ down) (some_key : 0 < left.size) where
  abbrev lent : Internal
  lent = (borrow_last_child left down node).1

  lent_key :
      (i : ℕ) → i < node.size + 1 → lent.keys i ≡ (if i == 0 then down else node.keys (i - 1))
  unfolding borrow_last_child
  lent_key i h = ground (arith, shift_right_lem node.size node.size node.keys i)

  lent_child :
      (i : ℕ)
      → i ≤ node.size + 1
      → lent.children i ≡ (if i == 0 then left.children left.size else node.children (i - 1))
  unfolding borrow_last_child
  lent_child i h = ground (
    arith,
    shift_right_lem node.size (node.size + 1) node.children i,
    shift_right_lem node.size (node.size + 1) node.children 0,
  )

  lent_sizes :
      ((borrow_last_child left down node).0.size + 1 ≡ left.size)
      × (lent.size ≡ node.size + 1)
      × ((borrow_last_child left down node).2 ≡ left.keys (left.size - 1))
  unfolding borrow_last_child
  lent_sizes = (omega arith, refl, refl)

  lent_right :
      (j : ℕ) → left.keys (left.size - 1) ≤ j → find_child lent j ≡ child_of_pair left down node j
  lent_right j h = elim (Bool-cases (leb down j)) [
    | inl up ↦
        let q = route node j in
        let r = route-IsRoute node j in
        find_child_of_route lent j (q + 1) (record {
          bound = omega (arith, lent_sizes.1, r.bound);
          before = λ i k. ground (arith, lent_key i, up, r.bound, r.before (i - 1));
          after = λ k. ground (arith, lent_key (q + 1), lent_sizes.1, r.after);
        })
        ∙ ground (arith, lent_child (q + 1), r.bound)
        ∙ sym (child_of_pair_right left node down j q up r)
    | inr under ↦
        find_child_of_route lent j 0 (record {
          bound = omega arith;
          before = λ i k. absurd (omega arith);
          after = λ k. ground (arith, lent_key 0, under);
        })
        ∙ ground (arith, lent_child 0)
        ∙ sym (
            child_of_pair_left left node down j left.size under (record {
              bound = omega arith;
              before = λ i k. ground (arith, sorted i (left.size - 1));
              after = λ k. absurd (omega arith);
            }))
  ]

  lent_left :
      (j : ℕ)
      → j < left.keys (left.size - 1)
      → find_child (borrow_last_child left down node).0 j ≡ child_of_pair left down node j
  unfolding borrow_last_child
  lent_left j h =
      let p = route left j in
      let r = route-IsRoute left j in
      let under : leb down j ≡ false =
        leb-false down j (omega (arith, below (left.size - 1) (omega arith))) in
      find_child_of_route (borrow_last_child left down node).0 j p (record {
        bound = ground (arith, r.bound, r.before (left.size - 1));
        before = r.before;
        after = λ k. r.after (omega arith);
      })
      ∙ sym (child_of_pair_left left node down j p under r)

  -- When an internal node's left sibling, whose keys ascend and are not above the separator, lends its
  -- last child, the two with the new separator send each key to the child where it went before; one
  -- key has moved.
  pub borrow_last_child_lem :
      let (left', node', key') = borrow_last_child left down node in
      ((j : ℕ) → child_of_pair left' key' node' j ≡ child_of_pair left down node j)
      × (left'.size + 1 ≡ left.size)
      × (node'.size ≡ node.size + 1)
  borrow_last_child_lem = (
    λ j. elim (Bool-cases (leb (borrow_last_child left down node).2 j)) [
      | inl up ↦ rw up (lent_right j (ground (arith, up, lent_sizes.2)))
      | inr under ↦ rw under (lent_left j (ground (arith, under, lent_sizes.2)))
    ],
    lent_sizes.0,
    lent_sizes.1,
  )

module _ (node : Internal) (down : ℕ) (right : Internal) (sorted : IsSorted right)
    (below : (i : ℕ) → i < node.size → node.keys i ≤ down) (above : down ≤ right.keys 0)
    (some_key : 0 < right.size) where
  abbrev grown : Internal
  grown = (borrow_first_child node down right).0

  abbrev rest : Internal
  rest = (borrow_first_child node down right).1

  rest_key : (i : ℕ) → i + 1 < right.size → rest.keys i ≡ right.keys (i + 1)
  unfolding borrow_first_child
  rest_key i h = ground (arith, shift_left_lem (right.size - 1) 0 right.keys i)

  rest_child : (i : ℕ) → i < right.size → rest.children i ≡ right.children (i + 1)
  unfolding borrow_first_child
  rest_child i h = ground (
    arith,
    shift_left_lem (right.size - 1) 0 right.children i,
    shift_left_lem (right.size - 1) 0 right.children right.size,
  )

  first_sizes :
      (grown.size ≡ node.size + 1)
      × (rest.size + 1 ≡ right.size)
      × ((borrow_first_child node down right).2 ≡ right.keys 0)
  unfolding borrow_first_child
  first_sizes = (refl, omega arith, refl)

  grown_key : (i : ℕ) → grown.keys i ≡ (if i == node.size then down else node.keys i)
  unfolding borrow_first_child
  grown_key i = refl

  grown_child :
      (i : ℕ)
      → grown.children i ≡ (if i == node.size + 1 then right.children 0 else node.children i)
  unfolding borrow_first_child
  grown_child i = refl

  rest_right : (j : ℕ) → right.keys 0 ≤ j → find_child rest j ≡ child_of_pair node down right j
  rest_right j h =
      let q = route right j in
      let r = route-IsRoute right j in
      let pos : 0 < q = ground (arith, r.after) in
      let up : leb down j ≡ true = leb-true down j (omega arith) in
      let back : q - 1 + 1 ≡ q = omega arith in
      find_child_of_route rest j (q - 1) (record {
        bound = omega (arith, first_sizes.1, r.bound);
        before = λ i k. ground (arith, rest_key i, r.bound, r.before (i + 1));
        after = λ k. ground (arith, rest_key (q - 1), first_sizes.1, r.after, ap right.keys back);
      })
      ∙ rest_child (q - 1) (omega (arith, r.bound))
      ∙ ap right.children back
      ∙ sym (child_of_pair_right node right down j q up r)

  grown_left : (j : ℕ) → j < right.keys 0 → find_child grown j ≡ child_of_pair node down right j
  grown_left j h = elim (Bool-cases (leb down j)) [
    | inl up ↦
        find_child_of_route grown j (node.size + 1) (record {
          bound = omega (arith, first_sizes.0);
          before = λ i k. ground (arith, grown_key i, up, below i);
          after = λ k. absurd (omega (arith, first_sizes.0));
        })
        ∙ ground (arith, grown_child (node.size + 1))
        ∙ sym (
            child_of_pair_right node right down j 0 up (record {
              bound = omega arith;
              before = λ i k. absurd (omega arith);
              after = λ k. h;
            }))
    | inr under ↦
        let p = route node j in
        let r = route-IsRoute node j in
        find_child_of_route grown j p (record {
          bound = omega (arith, first_sizes.0, r.bound);
          before = λ i k. ground (arith, grown_key i, r.bound, r.before i);
          after = λ k. ground (arith, grown_key p, r.bound, r.after, under);
        })
        ∙ ground (arith, grown_child p, r.bound)
        ∙ sym (child_of_pair_left node right down j p under r)
  ]

  -- When an internal node's right sibling, whose keys ascend and are not below the separator, lends its
  -- first child, and no key of the node is above the separator, the two with the new separator send each
  -- key to the child where it went before; one key has moved.
  pub borrow_first_child_lem :
      let (node', right', key') = borrow_first_child node down right in
      ((j : ℕ) → child_of_pair node' key' right' j ≡ child_of_pair node down right j)
      × (node'.size ≡ node.size + 1)
      × (right'.size + 1 ≡ right.size)
  borrow_first_child_lem = (
    λ j. elim (Bool-cases (leb (borrow_first_child node down right).2 j)) [
      | inl up ↦ rw up (rest_right j (ground (arith, up, first_sizes.2)))
      | inr under ↦ rw under (grown_left j (ground (arith, under, first_sizes.2)))
    ],
    first_sizes.0,
    first_sizes.1,
  )
