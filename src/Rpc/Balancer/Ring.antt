-- ===== src/Rpc/Balancer/Ring.antt =====
-- `ConsistentHashLoadBalancer` of include/async_toolkit/rpc/load_balancer.hpp. `hash_node server i` is
-- `std::hash` of the name of a virtual node, a parameter. A `std::map` is its list of entries, the least
-- key first.
use mathlib.Core.Option
use async_toolkit.Base.{
  get_elem?, if◌then◌else◌, ltb, ◌==◌, ℕ, zero, suc, ◌+◌, Bool, true, false, ◌&&◌, Option, none,
  some, List, [], ◌∷◌,
}

pub record ConsistentHash : Type 0 where
  pub virtual_nodes : ℕ
  pub current_servers : List ℕ
  pub hash_ring : List (ℕ × ℕ)

-- `hash_ring_[hash] = server`.
unfoldable pub ring_set : (hash server : ℕ) → List (ℕ × ℕ) → List (ℕ × ℕ)
ring_set hash server [] = (hash, server) ∷ []
ring_set hash server ((key, other) ∷ ring) =
    if ltb hash key
    then (hash, server) ∷ (key, other) ∷ ring
    else (if hash == key then (key, server) ∷ ring else (key, other) ∷ ring_set hash server ring)

unfoldable pub lower_bound : ℕ → List (ℕ × ℕ) → Option (ℕ × ℕ)
lower_bound hash [] = none
lower_bound hash ((key, server) ∷ ring) =
    if ltb key hash then lower_bound hash ring else some (key, server)

-- `it->second`, after the step back to `begin()`: `none` on an empty ring.
unfoldable pub at_or_after : ℕ → List (ℕ × ℕ) → Option (ℕ × ℕ)
unfolding lower_bound
at_or_after hash ring = elim (lower_bound hash ring) [
  | some entry ↦ some entry
  | none ↦ get_elem? ring 0
]

unfoldable pub same_servers : List ℕ → List ℕ → Bool
same_servers [] [] = true
same_servers (x ∷ xs) (y ∷ ys) = (x == y) && same_servers xs ys
same_servers [] (y ∷ ys) = false
same_servers (x ∷ xs) [] = false

module _ (hash_node : ℕ → ℕ → ℕ) where
  unfoldable pub add_nodes : (server i left : ℕ) → List (ℕ × ℕ) → List (ℕ × ℕ)
  unfolding ring_set
  add_nodes server i zero ring = ring
  add_nodes server i (suc left) ring =
      add_nodes server (i + 1) left (ring_set (hash_node server i) server ring)

  unfoldable pub add_servers : (virtual_nodes : ℕ) → List ℕ → List (ℕ × ℕ) → List (ℕ × ℕ)
  unfolding add_nodes
  add_servers virtual_nodes [] ring = ring
  add_servers virtual_nodes (server ∷ servers) ring =
      add_servers virtual_nodes servers (add_nodes server 0 virtual_nodes ring)

  unfoldable pub rebuild_hash_ring : (virtual_nodes : ℕ) → List ℕ → List (ℕ × ℕ)
  unfolding add_servers
  rebuild_hash_ring virtual_nodes servers = add_servers virtual_nodes servers []

  unfoldable pub rebuild_if_needed : ConsistentHash → List ℕ → ConsistentHash
  unfolding same_servers rebuild_hash_ring
  rebuild_if_needed c servers = if same_servers servers c.current_servers then c else record c {
    hash_ring = rebuild_hash_ring c.virtual_nodes servers;
    current_servers = servers;
  }

  -- `now` is the hash of the time of the call.
  unfoldable pub consistent_select :
      (now : ℕ) → ConsistentHash → List ℕ → Option (ℕ × ConsistentHash)
  unfolding rebuild_if_needed at_or_after
  consistent_select now c [] = some (0, c)
  consistent_select now c (server ∷ servers) =
      let c' = rebuild_if_needed c (server ∷ servers) in
      Option.map (λ (key, selected). (selected, c')) (at_or_after now c'.hash_ring)
