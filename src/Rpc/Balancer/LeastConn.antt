-- ===== src/Rpc/Balancer/LeastConn.antt =====
-- The least-connections balancer of include/async_toolkit/rpc/load_balancer.hpp.
use async_toolkit.Base.{
  Bool-cases, count, ltb, ltb→lt, ℕ, ◌≤◌, ◌<◌, ◌≡◌, refl, subst, inl, inr, List, [], ◌∷◌, arith,
}
use async_toolkit.Rpc.Balancer.{get_connection_count, least_conn_loop, least_conn_select}

abbrev IsLeast : List (ℕ × ℕ) → (selected min : ℕ) → List ℕ → ℕ → Type 0
IsLeast counts selected min servers result =
    (0 < count result (selected ∷ servers))
    × (get_connection_count counts result ≤ min)
    × ((s : ℕ)
        → 0 < count s servers
        → get_connection_count counts result ≤ get_connection_count counts s)

loop-IsLeast :
    (counts : List (ℕ × ℕ)) (selected min : ℕ) (servers : List ℕ)
    → min ≡ get_connection_count counts selected
    → IsLeast counts selected min servers (least_conn_loop counts selected min servers)
unfolding least_conn_loop
loop-IsLeast counts selected min [] e = (ground arith, ground arith, λ s h. absurd (omega arith))
loop-IsLeast counts selected min (server ∷ servers) e =
    elim (Bool-cases (ltb (get_connection_count counts server) min)) [
      | inl fewer ↦
          let (a, b, c) =
            loop-IsLeast counts server (get_connection_count counts server) servers refl in
          let less = ltb→lt _ _ fewer in
          let same : least_conn_loop counts server (get_connection_count counts server) servers
              ≡ least_conn_loop counts selected min (server ∷ servers) =
            rw fewer refl in
          subst (IsLeast counts selected min (server ∷ servers)) same
            (ground arith, omega arith, λ s h. ground (arith, c s))
      | inr more ↦
          let (a, b, c) = loop-IsLeast counts selected min servers e in
          let same : least_conn_loop counts selected min servers
              ≡ least_conn_loop counts selected min (server ∷ servers) =
            rw more refl in
          subst (IsLeast counts selected min (server ∷ servers)) same
            (ground arith, b, λ s h. ground (arith, c s))
    ]

-- The selected server is one of those given, and no other one has fewer connections.
pub least_conn_select_lem :
    (counts : List (ℕ × ℕ)) (server : ℕ) (servers : List ℕ)
    → (0 < count (least_conn_select counts (server ∷ servers)) (server ∷ servers))
      × ((s : ℕ)
          → 0 < count s (server ∷ servers)
          → get_connection_count counts (least_conn_select counts (server ∷ servers))
            ≤ get_connection_count counts s)
unfolding least_conn_select
least_conn_select_lem counts server servers =
    let (a, b, c) = loop-IsLeast counts server (get_connection_count counts server) servers refl in
    (a, λ s h. ground (arith, c s))
