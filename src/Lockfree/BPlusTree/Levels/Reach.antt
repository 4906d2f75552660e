-- ===== src/Lockfree/BPlusTree/Levels/Reach.antt =====
-- Where a search is after some levels, and that it stays so when a node and two of its children change.
use async_toolkit.Base.{
  ℕ, zero, suc, ◌+◌, ◌-◌, ◌≤◌, ◌<◌, ◌≡◌, refl, sym, ap, ◌∙◌, subst, ◌≢◌, arith, dec_lt, ℕ_discrete,
}
use async_toolkit.Lockfree.BPlusTree.Internal.{Internal, find_child}

-- The node after `depth` steps down from the root.
abbrev pub reach : (ℕ → Internal) → (root key depth : ℕ) → ℕ
reach nodes root key zero = root
reach nodes root key (suc depth) = find_child (nodes (reach nodes root key depth)) key

-- Every step of a search goes one level down, from the root to level 0.
abbrev pub Descends : (ℕ → Internal) → (level : ℕ → ℕ) → (root : ℕ) → Type 0
Descends nodes level root =
    (key depth : ℕ) → depth ≤ level root → level (reach nodes root key depth) + depth ≡ level root

-- A root without keys has one child, where all searches go.
pub reach-below :
    (nodes : ℕ → Internal) (root key depth : ℕ)
    → ((j : ℕ) → find_child (nodes root) j ≡ (nodes root).children 0)
    → reach nodes ((nodes root).children 0) key depth ≡ reach nodes root key (suc depth)
reach-below nodes root key zero only = sym (only key)
reach-below nodes root key (suc depth) only =
    ap (λ a. find_child (nodes a) key) (reach-below nodes root key depth only)

module _ (nodes nodes' : ℕ → Internal) (level up : ℕ → ℕ) (root parent left right : ℕ)
    (descends : Descends nodes level root)
    (child_up : (key a : ℕ) → level a ≡ level parent → up (find_child (nodes a) key) ≡ a)
    (below_root : level parent ≤ level root) (left_level : level left + 1 ≡ level parent)
    (right_level : level right + 1 ≡ level parent) (inner : 0 < level left)
    (left_up : up left ≡ parent) (right_up : up right ≡ parent)
    (frame : (q : ℕ) → q ≢ parent → q ≢ left → q ≢ right → nodes' q ≡ nodes q)
    (own : (key : ℕ) → level (find_child (nodes' parent) key) + 1 ≡ level parent)
    (same : (key : ℕ)
      → find_child (nodes' (find_child (nodes' parent) key)) key
        ≡ find_child (nodes (find_child (nodes parent) key)) key) where
  abbrev depth : ℕ
  depth = level root - level parent

  above : (key d : ℕ) → d ≤ depth → reach nodes' root key d ≡ reach nodes root key d
  above key zero h = refl
  above key (suc d) h =
      let a = reach nodes root key d in
      let at = descends key d (omega arith) in
      let kept : nodes' a ≡ nodes a =
        frame a (λ e. omega (arith, ap level e)) (λ e. omega (arith, ap level e))
          (λ e. omega (arith, ap level e)) in
      ap (λ b. find_child (nodes' b) key) (above key d (omega arith))
      ∙ ap (λ n. find_child n key) kept

  at_level : (key : ℕ) → level (reach nodes root key depth) ≡ level parent
  at_level key = omega (arith, descends key depth (omega arith))

  -- At the level of the parent, and below it, a search elsewhere is not touched.
  module _ (key : ℕ) (apart : reach nodes root key depth ≢ parent) where
    abbrev a : ℕ
    a = reach nodes root key depth

    kept : nodes' a ≡ nodes a
    kept =
        frame a apart (λ e. omega (arith, ap level e, at_level key))
          (λ e. omega (arith, ap level e, at_level key))

    child_apart : (c : ℕ) → up c ≡ parent → find_child (nodes a) key ≢ c
    child_apart c h e = apart (sym (child_up key a (at_level key)) ∙ ap up e ∙ h)

    elsewhere : reach nodes' root key (suc depth) ≡ reach nodes root key (suc depth)
    elsewhere =
        ap (λ b. find_child (nodes' b) key) (above key depth (omega arith))
        ∙ ap (λ n. find_child n key) kept

    kept_child : nodes' (find_child (nodes a) key) ≡ nodes (find_child (nodes a) key)
    kept_child =
        let at = descends key (suc depth) (omega arith) in
        frame _ (λ e. omega (arith, ap level e)) (child_apart left left_up)
          (child_apart right right_up)

  two_down :
      (key : ℕ) → reach nodes' root key (suc (suc depth)) ≡ reach nodes root key (suc (suc depth))
  two_down key = elim (ℕ_discrete (reach nodes root key depth) parent) [
    | yes e ↦
        let top = above key depth (omega arith) ∙ e in
        ap (λ b. find_child (nodes' (find_child (nodes' b) key)) key) top
        ∙ same key
        ∙ ap (λ b. find_child (nodes (find_child (nodes b) key)) key) (sym e)
    | no apart ↦
        ap (λ b. find_child (nodes' b) key) (elsewhere key apart)
        ∙ ap (λ n. find_child n key) (kept_child key apart)
  ]

  child_level : (key : ℕ) → level (reach nodes' root key (suc depth)) + 1 ≡ level parent
  child_level key = elim (ℕ_discrete (reach nodes root key depth) parent) [
    | yes e ↦
        ap (λ b. level (find_child (nodes' b) key) + 1) (above key depth (omega arith) ∙ e)
        ∙ own key
    | no apart ↦
        let at = descends key (suc depth) (omega arith) in
        omega (arith, ap level (elsewhere key apart))
  ]

  below :
      (key d : ℕ)
      → suc depth < d
      → d ≤ level root
      → reach nodes' root key d ≡ reach nodes root key d
  below key zero deep h = absurd (omega arith)
  below key (suc d) deep h = elim (ℕ_discrete d (suc depth)) [
    | yes e ↦
        subst (λ k. reach nodes' root key (suc k) ≡ reach nodes root key (suc k)) (sym e)
          (two_down key)
    | no other ↦
        let a = reach nodes root key d in
        let at = descends key d (omega arith) in
        let kept : nodes' a ≡ nodes a =
          frame a (λ z. omega (arith, ap level z)) (λ z. omega (arith, ap level z))
            (λ z. omega (arith, ap level z)) in
        ap (λ b. find_child (nodes' b) key) (below key d (omega arith) (omega arith))
        ∙ ap (λ n. find_child n key) kept
  ]

  -- At every depth but that of the two children a search is where it was before.
  reach-same :
      (key d : ℕ)
      → d ≤ level root
      → d ≢ suc depth
      → reach nodes' root key d ≡ reach nodes root key d
  reach-same key d h other = elim (dec_lt depth d) [
    | yes deep ↦ below key d (omega arith) h
    | no high ↦ above key d (omega arith)
  ]

  pub changed-Descends : Descends nodes' level root
  changed-Descends key d h = elim (ℕ_discrete d (suc depth)) [
    | yes e ↦ ap (λ k. level (reach nodes' root key k) + k) e ∙ omega (arith, child_level key)
    | no other ↦ ap (λ b. level b + d) (reach-same key d h other) ∙ descends key d h
  ]

  pub changed-reach :
      (key : ℕ) → reach nodes' root key (level root) ≡ reach nodes root key (level root)
  changed-reach key = reach-same key (level root) (omega arith) (λ e. omega arith)
