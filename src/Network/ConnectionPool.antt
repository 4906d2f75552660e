-- ===== src/Network/ConnectionPool.antt =====
-- `Connection` and `ConnectionPool` of include/async_toolkit/network/connection_pool.hpp. A connection is
-- its descriptor; `connected` and `closed` are shared by all the pointers to it. A call holds the mutex.
use async_toolkit.Base.{
  if◌then◌else◌, length, ltb, ◌==◌, ℕ, ◌≤◌, ◌≡◌, Bool, true, false, not, Option, none, some, List,
  [], ◌∷◌, ◌++◌,
}

-- Which descriptors are connected, and those that `close` was called on, latest first.
pub record Connections : Type 0 where
  pub connected : ℕ → Bool
  pub closed : List ℕ

unfoldable pub is_connected : Connections → ℕ → Bool
is_connected c fd = c.connected fd

-- The constructor of `Connection`.
unfoldable pub connect : Connections → ℕ → Connections
connect c fd = record c { connected = λ a. if a == fd then true else c.connected a }

-- `disconnect`, which the destructor also calls.
unfoldable pub disconnect : Connections → ℕ → Connections
disconnect c fd =
    if c.connected fd
    then record c {
      connected = λ a. if a == fd then false else c.connected a;
      closed = fd ∷ c.closed;
    }
    else c

pub record ConnectionPool : Type 0 where
  pub max_size : ℕ
  pub idle_connections : List ℕ

-- `none` is the null pointer.
unfoldable pub acquire : ConnectionPool → Option ℕ × ConnectionPool
acquire p = elim p.idle_connections [
  | [] ↦ (none, p)
  | fd ∷ rest ↦ (some fd, record p { idle_connections = rest })
]

unfoldable pub release : Connections → ConnectionPool → Option ℕ → ConnectionPool
unfolding is_connected
release c p none = p
release c p (some fd) =
    if not (is_connected c fd)
    then p
    else (if ltb (length p.idle_connections) p.max_size
        then record p { idle_connections = p.idle_connections ++ fd ∷ [] }
        else p)

unfoldable pub add_connection : Connections → ConnectionPool → Option ℕ → ConnectionPool
unfolding is_connected
add_connection c p none = p
add_connection c p (some fd) =
    if not (is_connected c fd)
    then p
    else (if ltb (length p.idle_connections) p.max_size
        then record p { idle_connections = p.idle_connections ++ fd ∷ [] }
        else p)

-- The calls of a history on the connections and the pool.
pub data Call : Type 0 where
  connects : (fd : ℕ) → Call
  disconnects : (fd : ℕ) → Call
  acquires : Call
  releases : (fd : ℕ) → Call
  adds : (fd : ℕ) → Call

-- The connections, the pool, the descriptors handed out, and those the pool took, both latest last.
pub record State : Type 0 where
  pub connections : Connections
  pub pool : ConnectionPool
  pub out : List ℕ
  pub taken : List ℕ

-- What a call put into the pool.
abbrev pub accepted : ConnectionPool → ConnectionPool → ℕ → List ℕ
accepted p q fd =
    if ltb (length p.idle_connections) (length q.idle_connections) then fd ∷ [] else []

unfoldable pub step : State → Call → State
unfolding acquire release add_connection connect disconnect
step s (connects fd) = record s { connections = connect s.connections fd }
step s (disconnects fd) = record s { connections = disconnect s.connections fd }
step s acquires =
    let (got, p) = acquire s.pool in
    record s { pool = p; out = s.out ++ (elim got [ none ↦ [] | some fd ↦ fd ∷ [] ]) }
step s (releases fd) =
    let p = release s.connections s.pool (some fd) in
    record s { pool = p; taken = s.taken ++ accepted s.pool p fd }
step s (adds fd) =
    let p = add_connection s.connections s.pool (some fd) in
    record s { pool = p; taken = s.taken ++ accepted s.pool p fd }

unfoldable pub run : State → List Call → State
unfolding step
run s [] = s
run s (c ∷ cs) = run (step s c) cs

-- The pool holds at most `max_size` connections, and its connections are, in order, those it took and
-- has not handed out.
abbrev pub IsValid : State → Type 0
IsValid s =
    (length s.pool.idle_connections ≤ s.pool.max_size)
    × (s.taken ≡ s.out ++ s.pool.idle_connections)
