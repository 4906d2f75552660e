-- ===== src/Lockfree/HashMap.antt =====
-- `HashMap` of include/async_toolkit/lockfree/hashmap.hpp, between calls that do not overlap: every
-- compare-exchange finds what was read before it. A bucket is the list of its nodes from the head on;
-- `find` and the others pass by a node that is marked as deleted. The keys and values are numbers, and
-- the hash function is a parameter.
pub mod Lookup
use mathlib.Core.Option
use async_toolkit.Base.{
  if◌then◌else◌, ◌==◌, ℕ, ◌+◌, ◌-◌, ◌%◌, ◌^◌, Bool, true, false, not, ◌&&◌, Option, none, some,
  List, [], ◌∷◌, map,
}

pub record Node : Type 0 where
  pub key : ℕ
  pub value : ℕ
  pub marked : Bool

pub record HashMap : Type 0 where
  pub buckets : ℕ → List Node
  pub size : ℕ

-- `HashMap()`.
abbrev pub empty_map : HashMap
empty_map = record { buckets = λ b. []; size = 0 }

-- The test of every loop: an unmarked node with the key.
unfoldable pub holds : ℕ → Node → Bool
holds key node = (node.key == key) && not node.marked

unfoldable pub find_in : ℕ → List Node → Option ℕ
unfolding holds
find_in key [] = none
find_in key (node ∷ nodes) = if holds key node then some node.value else find_in key nodes

-- The bucket without the node that is found: it is marked and taken out of the list.
unfoldable pub remove_in : ℕ → List Node → Option (List Node)
unfolding holds
remove_in key [] = none
remove_in key (node ∷ nodes) =
    if holds key node then some nodes else Option.map (◌∷◌ node) (remove_in key nodes)

unfoldable pub update_in : ℕ → ℕ → List Node → Option (List Node)
unfolding holds
update_in key new_value [] = none
update_in key new_value (node ∷ nodes) =
    if holds key node
    then some (record node { value = new_value } ∷ nodes)
    else Option.map (◌∷◌ node) (update_in key new_value nodes)

module _ (buckets : ℕ) (hash : ℕ → ℕ) where
  abbrev pub bucket : ℕ → ℕ
  bucket key = hash key % buckets

  abbrev pub write_bucket : HashMap → ℕ → List Node → HashMap
  write_bucket m b nodes = record m { buckets = λ a. if a == b then nodes else m.buckets a }

  unfoldable pub insert : HashMap → ℕ → ℕ → Bool × HashMap
  insert m key value =
      let node : Node = record { key = key; value = value; marked = false } in
      (
        true,
        record (write_bucket m (bucket key) (node ∷ m.buckets (bucket key))) {
          size = (m.size + 1) % 2 ^ 64;
        },
      )

  unfoldable pub remove : HashMap → ℕ → Bool × HashMap
  unfolding remove_in
  remove m key = elim (remove_in key (m.buckets (bucket key))) [
    | none ↦ (false, m)
    | some nodes ↦ (
      true,
      record (write_bucket m (bucket key) nodes) { size = (m.size + (2 ^ 64 - 1)) % 2 ^ 64 },
    )
  ]

  unfoldable pub find : HashMap → ℕ → Option ℕ
  unfolding find_in
  find m key = find_in key (m.buckets (bucket key))

  unfoldable pub update : HashMap → ℕ → ℕ → Bool × HashMap
  unfolding update_in
  update m key new_value = elim (update_in key new_value (m.buckets (bucket key))) [
    | none ↦ (false, m)
    | some nodes ↦ (true, write_bucket m (bucket key) nodes)
  ]

-- `size` and `empty`.
unfoldable pub is_empty : HashMap → Bool
is_empty m = m.size == 0
