-- ===== src/Lockfree/SkipList.antt =====
-- `SkipList` of include/async_toolkit/lockfree/skiplist.hpp, for calls that do not overlap: an exchange that finds what it
-- expects succeeds, and a weak one is tried again until it does. A node is an address, 0 is the null pointer, and the
-- memory pool is a counter of addresses; the handler for a failed exchange in `insert` is left out.
pub mod Above
pub mod Row
pub mod Lookup
pub mod Flat
pub mod Calls
pub mod Runs
use async_toolkit.Base.{
  if◌then◌else◌, leb, ltb, ◌==◌, ℕ, zero, suc, ◌+◌, Bool, true, false, not, ◌&&◌, ◌||◌, Option,
  none, some, List, [], ◌∷◌,
}

-- How a piece of code ends: with a result, with the use of a null pointer or of an entry of `update` that was never
-- written, or with too little fuel.
pub data Ends {ℓ} (A : Type ℓ) : Type ℓ where
  done : A → Ends A
  faults : Ends A
  starves : Ends A

infixl 5 ◌>>=◌
abbrev pub ◌>>=◌ {ℓ κ} : {A : Type ℓ} {B : Type κ} → Ends A → (A → Ends B) → Ends B
done a >>= f = f a
faults >>= f = faults
starves >>= f = starves

-- The members of the nodes, and of the class.
pub record SkipList (V : Type 0) : Type 0 where
  pub key : ℕ → ℕ
  pub value : ℕ → V
  pub next : ℕ → ℕ → ℕ  -- of an address, at a level
  pub marked : ℕ → Bool
  pub head : ℕ
  pub current_level : ℕ
  pub fresh : ℕ

-- `random_level`, where `draws` are the comparisons of `dis(gen)` with 0.5.
unfoldable pub random_level : (max_level level : ℕ) → (draws : List Bool) → ℕ
random_level max_level level [] = level
random_level max_level level (low ∷ draws) =
    let higher = random_level max_level (level + 1) draws in
    if low && ltb level max_level then higher else level

abbrev pub set_next : (ℕ → ℕ → ℕ) → (a level b : ℕ) → ℕ → ℕ → ℕ
set_next next a level b c l = if (c == a) && (l == level) then b else next c l

-- `update`, an array of pointers; `none` was never written.
abbrev pub Update : Type 0
Update = ℕ → Option ℕ

abbrev pub note : Update → (level node : ℕ) → Update
note update level node l = if l == level then some node else update l

module _ {V : Type 0} where
  -- The constructor: the head has address 1.
  abbrev pub new_list : V → SkipList V
  new_list blank = record {
    key = λ a. 0;
    value = λ a. blank;
    next = λ a l. 0;
    marked = λ a. false;
    head = 1;
    current_level = 1;
    fresh = 2;
  }

  -- The inner loop of `insert` at one level: the last node with a smaller key, and whether the next one has the key.
  unfoldable pub walk_to : (fuel : ℕ) → SkipList V → (level key current : ℕ) → Ends (ℕ × Bool)
  walk_to zero s level key current = starves
  walk_to (suc k) s level key current =
      let next = s.next current level in
      let further = walk_to k s level key next in
      if (next == 0) || ltb key (s.key next)
      then done (current, false)
      else if s.key next == key
      then done (current, true)
      else further

  -- The outer loop of `insert`, with `levels` levels left: the node whose value is overwritten, or `update`.
  unfoldable pub search :
      (levels fuel : ℕ) → SkipList V → (key current : ℕ) → Update → Ends (Option ℕ × Update)
  unfolding walk_to
  search zero fuel s key current update = done (none, update)
  search (suc level) fuel s key current update =
      walk_to fuel s level key current >>= λ (last, same).
      let next = s.next last level in
      let beyond = search level fuel s key last (note update level last) in
      let deleted = search level fuel s key last update in
      if same then if s.marked next then deleted else done (some next, update) else beyond

  -- The loop that links the new node, with `left` levels left, from `level` on.
  unfoldable pub link : (left level : ℕ) → SkipList V → (node : ℕ) → Update → Ends (SkipList V)
  link zero level s node update = done s
  link (suc k) level s node update = elim (update level) [
    | none ↦ faults
    | some before ↦
        let after = s.next before level in
        link k (level + 1)
          (record s { next = set_next (set_next s.next node level after) before level node }) node
          update
  ]

  -- The new node, and the raised level of the list.
  abbrev pub add_node : SkipList V → (new_level key : ℕ) → V → SkipList V
  add_node s new_level key value = record s {
    key = λ a. if a == s.fresh then key else s.key a;
    value = λ a. if a == s.fresh then value else s.value a;
    next = λ a l. if a == s.fresh then 0 else s.next a l;
    marked = λ a. if a == s.fresh then false else s.marked a;
    current_level = if ltb s.current_level new_level then new_level else s.current_level;
    fresh = s.fresh + 1;
  }

  abbrev pub set_value : SkipList V → ℕ → V → SkipList V
  set_value s a v = record s { value = λ b. if b == a then v else s.value b }

  -- `insert`, where `new_level` is what `random_level` answers if it is called.
  unfoldable pub insert :
      (fuel : ℕ) → SkipList V → (new_level key : ℕ) → V → Ends (Bool × SkipList V)
  unfolding search link
  insert fuel s new_level key value =
      search s.current_level fuel s key s.head (λ l. none) >>= λ (old, update). elim old [
        | some node ↦ done (true, set_value s node value)
        | none ↦ link new_level 0 (add_node s new_level key value) s.fresh update >>= λ s'.
            done (true, s')
      ]

  -- The inner loop of `remove` and `find` at one level: the last node with a smaller key.
  unfoldable pub walk_before : (fuel : ℕ) → SkipList V → (level key current : ℕ) → Ends ℕ
  walk_before zero s level key current = starves
  walk_before (suc k) s level key current =
      let next = s.next current level in
      let further = walk_before k s level key next in
      if (next == 0) || leb key (s.key next) then done current else further

  -- The outer loop of `remove` and `find`, which does not keep `update`.
  unfoldable pub descend :
      (levels fuel : ℕ) → SkipList V → (key current : ℕ) → Update → Ends (ℕ × Update)
  unfolding walk_before
  descend zero fuel s key current update = done (current, update)
  descend (suc level) fuel s key current update = walk_before fuel s level key current >>= λ last.
      descend level fuel s key last (note update level last)

  unfoldable pub find : (fuel : ℕ) → SkipList V → (key : ℕ) → Ends (Option V)
  unfolding descend
  find fuel s key = descend s.current_level fuel s key s.head (λ l. none) >>= λ (last, update).
      let node = s.next last 0 in
      if not (node == 0) && (s.key node == key) && not (s.marked node)
      then done (some (s.value node))
      else done none

  -- `while (current && current->marked.load()) current = current->next[i].load();`
  unfoldable pub skip_marked : (fuel : ℕ) → SkipList V → (level current : ℕ) → Ends ℕ
  skip_marked zero s level current = starves
  skip_marked (suc k) s level current =
      let further = skip_marked k s level (s.next current level) in
      if not (current == 0) && s.marked current then further else done current

  -- The loop that unlinks at one level: the list, and `current` after it.
  unfoldable pub unlink_at :
      (fuel : ℕ) → SkipList V → (level before current : ℕ) → Ends (SkipList V × ℕ)
  unfolding skip_marked
  unlink_at zero s level before current = starves
  unlink_at (suc k) s level before current =
      let next = s.next current level in
      let found = s.next before level in
      let retry = skip_marked k s level found >>= λ c. unlink_at k s level before c in
      if current == 0
      then faults
      else if found == current
      then done (record s { next = set_next s.next before level next }, current)
      else retry

  -- The loop over the levels of the list.
  unfoldable pub unlink :
      (left level fuel : ℕ) → SkipList V → (current : ℕ) → Update → Ends (SkipList V)
  unfolding unlink_at
  unlink zero level fuel s current update = done s
  unlink (suc k) level fuel s current update = elim (update level) [
    | none ↦ faults
    | some before ↦ unlink_at fuel s level before current >>= λ (s', current').
        unlink k (level + 1) fuel s' current' update
  ]

  unfoldable pub remove : (fuel : ℕ) → SkipList V → (key : ℕ) → Ends (Bool × SkipList V)
  unfolding descend unlink
  remove fuel s key = descend s.current_level fuel s key s.head (λ l. none) >>= λ (last, update).
      let node = s.next last 0 in
      let s' = record s { marked = λ a. if a == node then true else s.marked a } in
      let rest = unlink s.current_level 0 fuel s' node update >>= λ r. done (true, r) in
      if (node == 0) || not (s.key node == key)
      then done (false, s)
      else if s.marked node
      then done (false, s)
      else rest
