-- ===== src/Lockfree/BPlusTree/Internal.antt =====
-- `InternalNode` of include/async_toolkit/lockfree/bptree.hpp. The `parent` pointers of nodes are left
-- out: they are written and never read.
use async_toolkit.Base.{if◌then◌else◌, leb, ltb, ◌==◌, ℕ, zero, suc, ◌+◌, ◌-◌, Bool, true, false}
use async_toolkit.Lockfree.BPlusTree.Arrays.{write, shift_right}

pub record Internal : Type 0 where
  pub size : ℕ
  pub keys : ℕ → ℕ
  pub children : ℕ → ℕ

abbrev pub new_internal : Internal
new_internal = record { size = 0; keys = λ _. 0; children = λ _. 0 }

-- The loop of `find_child`: past the keys that are not above `key`.
unfoldable pub child_position : (left pos : ℕ) → (ℕ → ℕ) → ℕ → ℕ
child_position zero pos keys key = pos
child_position (suc k) pos keys key =
    let rest = child_position k (pos + 1) keys key in if leb (keys pos) key then rest else pos

unfoldable pub find_child : Internal → ℕ → ℕ
unfolding child_position
find_child n key = n.children (child_position n.size 0 n.keys key)

-- The loop of `insert_child`: past the keys that are below `key`.
unfoldable pub key_position : (left pos : ℕ) → (ℕ → ℕ) → ℕ → ℕ
key_position zero pos keys key = pos
key_position (suc k) pos keys key =
    let rest = key_position k (pos + 1) keys key in if ltb (keys pos) key then rest else pos

unfoldable pub insert_child : (order : ℕ) → Internal → (key child : ℕ) → Bool × Internal
unfolding key_position
insert_child order n key child =
    if leb order n.size
    then (false, n)
    else (let pos = key_position n.size 0 n.keys key in
        (
          true,
          record {
            size = n.size + 1;
            keys = write (shift_right (n.size - pos) n.size n.keys) pos key;
            children = write (shift_right (n.size - pos) (n.size + 1) n.children) (pos + 1) child;
          },
        ))

-- The first index with this child, or one past the last child.
unfoldable pub index_of : (left pos : ℕ) → (ℕ → ℕ) → ℕ → ℕ
index_of zero pos children node = pos
index_of (suc k) pos children node =
    let rest = index_of k (pos + 1) children node in if children pos == node then pos else rest
