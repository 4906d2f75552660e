-- ===== src/Network/PoolOrder.antt =====
-- The connection pool is bounded and first in, first out.
use mathlib.Core.List.{append_assoc, append-nil}
use async_toolkit.Base.{
  length, length-append, ltb-false, lt→ltb, ℕ, ◌<◌, ◌≡◌, refl, sym, ap, ◌∙◌, subst, ◌⊎◌, inl, inr,
  Option, none, some, List, [], ◌∷◌, ◌++◌, arith,
}
use async_toolkit.Network.ConnectionPool.{
  Connections, ConnectionPool, acquire, release, add_connection, State, Call, accepted, step, run,
  IsValid,
}

release-shape :
    (c : Connections) (p : ConnectionPool) (fd : ℕ)
    → ((release c p (some fd) ≡ p)
        ⊎ ((length p.idle_connections < p.max_size)
            × (release c p (some fd)
                ≡ record p { idle_connections = p.idle_connections ++ fd ∷ [] })))
unfolding release
release-shape c p fd = ground arith

add_connection-release :
    (c : Connections) (p : ConnectionPool) (o : Option ℕ) → add_connection c p o ≡ release c p o
unfolding release add_connection
add_connection-release c p none = refl
add_connection-release c p (some fd) = refl

pooled :
    (s : State) (fd : ℕ)
    → IsValid s
    → (p : ConnectionPool) → p ≡ release s.connections s.pool (some fd)
    → IsValid (record s { pool = p; taken = s.taken ++ accepted s.pool p fd })
pooled s fd valid p e = elim (release-shape s.connections s.pool fd) [
  | inl same ↦
      subst (λ q. IsValid (record s { pool = q; taken = s.taken ++ accepted s.pool q fd }))
        (sym (e ∙ same))
        (
          valid.0,
          rw
              (
                ltb-false (length s.pool.idle_connections) (length s.pool.idle_connections)
                    (omega arith),
                append-nil,
              )
              valid.1,
        )
  | inr (room, longer) ↦
      let size = length-append s.pool.idle_connections (fd ∷ []) in
      subst (λ q. IsValid (record s { pool = q; taken = s.taken ++ accepted s.pool q fd }))
        (sym (e ∙ longer))
        (
          omega (arith, size),
          rw
              (lt→ltb (length s.pool.idle_connections) (length (s.pool.idle_connections ++ fd ∷ []))
                (omega (arith, size)))
              (ap (λ l. l ++ fd ∷ []) valid.1 ∙ append_assoc s.out _ _),
        )
]

acquired :
    (s : State) (idle : List ℕ)
    → s.pool.idle_connections ≡ idle
    → IsValid s
    → IsValid (step s Call.acquires)
unfolding step acquire
acquired s [] e h =
    rw (e) (omega arith, h.1 ∙ ap (λ l. s.out ++ l) e ∙ sym (append-nil (s.out ++ [])))
acquired s (fd ∷ rest) e h =
    let (size, order) = h in
    rw e (ground (arith), order ∙ ap (λ l. s.out ++ l) e ∙ sym (append_assoc s.out (fd ∷ []) rest))

step-IsValid : (s : State) (c : Call) → IsValid s → IsValid (step s c)
unfolding step
step-IsValid s (Call.connects fd) h = h
step-IsValid s (Call.disconnects fd) h = h
step-IsValid s Call.acquires h = acquired s s.pool.idle_connections refl h
step-IsValid s (Call.releases fd) h = pooled s fd h _ refl
step-IsValid s (Call.adds fd) h =
    pooled s fd h _ (add_connection-release s.connections s.pool (some fd))

run_from : (s : State) (cs : List Call) → IsValid s → IsValid (run s cs)
unfolding run
run_from s [] h = h
run_from s (c ∷ cs) h = run_from (step s c) cs (step-IsValid s c h)

-- From an empty pool, every history of calls leaves at most `max_size` idle connections, and the
-- connections handed out followed by the idle ones are those the pool took, in the order it took them.
pub run-IsValid :
    (max_size : ℕ) (c : Connections) (calls : List Call)
    → IsValid (
        run
          (record {
            connections = c;
            pool = record { max_size = max_size; idle_connections = [] };
            out = [];
            taken = [];
          })
          calls)
run-IsValid max_size c calls = run_from _ calls (omega arith, refl)
