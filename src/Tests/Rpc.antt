-- ===== src/Tests/Rpc.antt =====
-- The load balancers at concrete inputs.
use async_toolkit.Base.{count, ℕ, ◌+◌, ◌*◌, ◌%◌, ◌<◌, ◌≡◌, refl, some, List, [], ◌∷◌, arith}
use async_toolkit.Rpc.Balancer.RoundRobin.{select_all, select_all-fair}
use async_toolkit.Rpc.Balancer.Ring.{
  ConsistentHash, consistent_select, rebuild_hash_ring, add_servers,
}
use async_toolkit.Rpc.Balancer.RingSearch.{IsNext, HasEntry}
use async_toolkit.Rpc.Balancer.RingValid.{IsValid, consistent_select_lem}

abbrev servers : List ℕ
servers = 8 ∷ 9 ∷ []

select_all-fair_example :
    (selected : List ℕ) × (select_all 3 5 (7 ∷ servers) ≡ some (selected, 5 + 3))
    × ((a : ℕ) → count a selected ≡ count a (7 ∷ servers))
select_all-fair_example = select_all-fair 5 7 servers (omega arith)

abbrev counts : List (ℕ × ℕ)
counts = (7, 3) ∷ (8, 1) ∷ (9, 2) ∷ []

-- The hash of a virtual node, and a balancer that has not been called yet.
abbrev node_hash : ℕ → ℕ → ℕ
node_hash server i = (server * 31 + i * 17) % 64

abbrev new_balancer : ConsistentHash
new_balancer = record { virtual_nodes = 2; current_servers = []; hash_ring = [] }

new_balancer-IsValid : IsValid node_hash new_balancer
unfolding rebuild_hash_ring add_servers
new_balancer-IsValid = refl

consistent_select_lem_example :
    (key : ℕ) × (selected : ℕ) × (c' : ConsistentHash) × (consistent_select node_hash 40
        new_balancer
        (7 ∷ servers)
      ≡ some (selected, c'))
    × (0 < count selected (7 ∷ servers))
    × IsNext 40 key c'.hash_ring
    × HasEntry key selected c'.hash_ring
    × IsValid node_hash c'
    × (c'.current_servers ≡ 7 ∷ servers)
consistent_select_lem_example =
    consistent_select_lem node_hash 40 new_balancer 7 servers (omega arith) new_balancer-IsValid
