-- ===== src/Tests/Services.antt =====
-- The task graph, the timers, the logger, the coroutines and the connection pool at concrete inputs.
use async_toolkit.Base.{
  count, if◌then◌else◌, leb, ◌==◌, ℕ, zero, suc, ◌+◌, ◌<◌, ◌≡◌, refl, Bool, true, false, none, some,
  List, [], ◌∷◌, arith,
}
use async_toolkit.Graph.{TaskGraph, dependencies_of, start, visits, finishes}
use async_toolkit.Graph
use async_toolkit.Graph.Order.{cycle_never_submitted}
use async_toolkit.Reactor.{Timer, process_timers}
use async_toolkit.Reactor.Timers.{sum, due, process_timers_lem, process_timers_stuck}
use async_toolkit.Logging.{AsyncLogger, new_logger, finish, logs, works, stops}
use async_toolkit.Logging
use async_toolkit.Logging.Written.{messages}
use async_toolkit.Logging.Order.{left, stopped_writes_all}
use async_toolkit.Coroutine.Scheduler.{CoroutineState, Outcome, submits, starts, settles}
use async_toolkit.Coroutine.Scheduler
use async_toolkit.Network.ConnectionPool.{
  Connections, IsValid, connects, adds, acquires, disconnects, releases,
}
use async_toolkit.Network.ConnectionPool
use async_toolkit.Network.PoolOrder.{run-IsValid}

-- Node 0 depends on node 1.
abbrev chain : TaskGraph
chain = record { dependencies = 1 ∷ [] } ∷ record { dependencies = [] } ∷ []

abbrev visits_and_finish : List Graph.Event
visits_and_finish = visits ∷ visits ∷ finishes 1 ∷ visits ∷ []

-- Nodes 0 and 1 depend on each other.
abbrev cycle : TaskGraph
cycle = record { dependencies = 1 ∷ [] } ∷ record { dependencies = 0 ∷ [] } ∷ []

abbrev in_cycle : ℕ → Bool
in_cycle i = leb i 1

in_cycle_waits :
    (i : ℕ)
    → in_cycle i ≡ true
    → (d : ℕ) × (0 < count d (dependencies_of cycle i)) × (in_cycle d ≡ true)
in_cycle_waits zero e = (1, omega arith, refl)
in_cycle_waits (suc zero) e = (0, omega arith, refl)
in_cycle_waits (suc (suc i)) e = absurd (ground arith)

cycle_never_submitted_example : count 0 (Graph.run cycle start visits_and_finish).submitted ≡ 0
cycle_never_submitted_example =
    cycle_never_submitted cycle in_cycle in_cycle_waits visits_and_finish 0 refl

-- A periodic timer that is two periods late, and one that is not due.
abbrev timers : List Timer
timers =
    record { deadline = 10; callback = 1; period = 5; periodic = true }
    ∷ record { deadline = 30; callback = 2; period = 30; periodic = false }
    ∷ []

abbrev registers : ℕ → List Timer
registers callback = []

process_timers_lem_example :
    (calls : List ℕ) × (left : List Timer) × (process_timers registers 20 20 timers
      ≡ some (calls, left))
    × (sum (due 20) left ≡ 0)
process_timers_lem_example =
    process_timers_lem registers 20 20 timers (λ c. refl) refl (omega arith)

process_timers_stuck_example :
    process_timers registers 1000 20
      (record { deadline = 10; callback = 1; period = 0; periodic = true } ∷ [])
    ≡ none
process_timers_stuck_example =
    process_timers_stuck registers 1000 20
      (record { deadline = 10; callback = 1; period = 0; periodic = true }) refl refl refl
      (omega arith)

abbrev entry_size : ℕ → ℕ
entry_size msg = 60

abbrev clock : ℕ → ℕ
clock rotation = rotation

abbrev log_events : List Logging.Event
log_events = logs 1 ∷ logs 2 ∷ works ∷ logs 3 ∷ stops ∷ []

stopped_writes_all_example :
    let l = Logging.run entry_size clock (new_logger entry_size clock 8) log_events in
    (l' : AsyncLogger) × (finish entry_size clock (left entry_size clock l + 1) l ≡ some l')
    × (messages l'.log_file ≡ l.accepted)
unfolding Logging.run Logging.step Logging.log Logging.work Logging.take new_logger
    Logging.rotate_log_file
stopped_writes_all_example = stopped_writes_all entry_size clock 8 log_events refl

-- Every task suspends once and then finishes.
abbrev body : ℕ → ℕ → Outcome
body task n = if n == 1 then Outcome.suspends else Outcome.finishes

abbrev no_tasks : Scheduler.Scheduler
no_tasks = record {
  state = λ t. CoroutineState.suspended;
  priority = λ t. 0;
  cancellation_requested = λ t. false;
  task_queue = [];
  in_resume = [];
  resumed = [];
}

abbrev task_events : List Scheduler.Event
task_events = submits 4 0 ∷ starts ∷ settles 4 ∷ starts ∷ []

abbrev no_connections : Connections
no_connections = record { connected = λ fd. false; closed = [] }

abbrev pool_events : List ConnectionPool.Call
pool_events =
    connects 5
    ∷ connects 6
    ∷ adds 5
    ∷ adds 6
    ∷ acquires
    ∷ releases 5
    ∷ disconnects 6
    ∷ acquires
    ∷ []

run-IsValid_example : IsValid (
    ConnectionPool.run
      (record {
        connections = no_connections;
        pool = record { max_size = 2; idle_connections = [] };
        out = [];
        taken = [];
      })
      pool_events)
run-IsValid_example = run-IsValid 2 no_connections pool_events
