-- ===== src/Rpc/Balancer.antt =====
-- The load balancers of include/async_toolkit/rpc/load_balancer.hpp. The name of a server is a number, 0
-- the empty string. A call holds the mutex of its balancer; `none` is an access outside `servers` or past
-- the end of the ring.
pub mod RoundRobin
pub mod LeastConn
pub mod Ring
pub mod RingSearch
pub mod RingValid
use mathlib.Core.Option
use async_toolkit.Base.{
  count, get_elem?, if◌then◌else◌, length, ltb, ◌==◌, ℕ, ◌+◌, ◌*◌, ◌/◌, ◌%◌, ◌^◌, Option, some,
  List, [], ◌∷◌, map,
}

pub data LoadBalanceStrategy : Type 0 where
  random : LoadBalanceStrategy
  round_robin : LoadBalanceStrategy
  least_conn : LoadBalanceStrategy
  consistent_hash : LoadBalanceStrategy

-- `RandomLoadBalancer::select_server`: the draw of `dist_(gen_)` is the fraction `draw / scale` below 1.
unfoldable pub random_select : (draw scale : ℕ) → List ℕ → Option ℕ
random_select draw scale [] = some 0
random_select draw scale (server ∷ servers) =
    get_elem? (server ∷ servers) (draw * length (server ∷ servers) / scale)

-- `RoundRobinLoadBalancer::select_server`, with `current_index_`.
unfoldable pub round_robin_select : (current_index : ℕ) → List ℕ → Option (ℕ × ℕ)
round_robin_select current_index [] = some (0, current_index)
round_robin_select current_index (server ∷ servers) =
    Option.map (λ selected. (selected, (current_index + 1) % 2 ^ 64))
      (get_elem? (server ∷ servers) (current_index % length (server ∷ servers)))

-- `connection_counts_`, a map from servers.
unfoldable pub get_connection_count : List (ℕ × ℕ) → ℕ → ℕ
get_connection_count [] server = 0
get_connection_count ((name, count) ∷ counts) server =
    if name == server then count else get_connection_count counts server

unfoldable pub update_server_stats : List (ℕ × ℕ) → (server active_connections : ℕ) → List (ℕ × ℕ)
update_server_stats [] server active_connections = (server, active_connections) ∷ []
update_server_stats ((name, count) ∷ counts) server active_connections =
    if name == server
    then (name, active_connections) ∷ counts
    else (name, count) ∷ update_server_stats counts server active_connections

-- The loop of `LeastConnLoadBalancer::select_server`.
unfoldable pub least_conn_loop : List (ℕ × ℕ) → (selected_server min_connections : ℕ) → List ℕ → ℕ
least_conn_loop counts selected_server min_connections [] = selected_server
least_conn_loop counts selected_server min_connections (server ∷ servers) =
    let conn_count = get_connection_count counts server in
    let fewer = ltb conn_count min_connections in
    least_conn_loop counts (if fewer then server else selected_server)
      (if fewer then conn_count else min_connections) servers

unfoldable pub least_conn_select : List (ℕ × ℕ) → List ℕ → ℕ
unfolding least_conn_loop
least_conn_select counts [] = 0
least_conn_select counts (server ∷ servers) =
    least_conn_loop counts server (get_connection_count counts server) servers

-- What `create_load_balancer` makes for a strategy: an empty round-robin counter, connection map or ring.
pub data LoadBalancer : Type 0 where
  random_balancer : LoadBalancer
  round_robin_balancer : (current_index : ℕ) → LoadBalancer
  least_conn_balancer : (connection_counts : List (ℕ × ℕ)) → LoadBalancer
  consistent_hash_balancer : (virtual_nodes : ℕ) → LoadBalancer

unfoldable pub create_load_balancer : LoadBalanceStrategy → LoadBalancer
create_load_balancer random = random_balancer
create_load_balancer round_robin = round_robin_balancer 0
create_load_balancer least_conn = least_conn_balancer []
create_load_balancer consistent_hash = consistent_hash_balancer 100
