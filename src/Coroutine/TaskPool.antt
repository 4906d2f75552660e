-- ===== src/Coroutine/TaskPool.antt =====
-- `TaskPool` of include/async_toolkit/coroutine/task_pool.hpp. A call or a worker's critical section holds the
-- mutex; a task is known by a number in place of its function, and workers by their numbers.
pub mod Drain
use async_toolkit.Base.{
  if◌then◌else◌, length, ltb, ◌==◌, ℕ, Bool, true, false, not, ◌||◌, Option, none, some, List, [],
  ◌∷◌, ◌++◌,
}

-- `taken` logs the tasks that workers took, in order, and `returned` tells which workers have left their loop.
pub record TaskPool : Type 0 where
  pub tasks : List ℕ
  pub stop : Bool
  pub thread_count : ℕ
  pub taken : List ℕ
  pub returned : ℕ → Bool

-- The constructor.
abbrev pub new_pool : (thread_count : ℕ) → TaskPool
new_pool thread_count = record {
  tasks = [];
  stop = false;
  thread_count = thread_count;
  taken = [];
  returned = λ worker. false;
}

-- The critical section of `submit`: `none` is the exception "Cannot submit task to stopped ThreadPool".
unfoldable pub submit : TaskPool → (task : ℕ) → Option TaskPool
submit p task = if p.stop then none else some (record p { tasks = p.tasks ++ task ∷ [] })

-- The first block of the destructor.
unfoldable pub stop_pool : TaskPool → TaskPool
stop_pool p = record p { stop = true }

abbrev pub queued_tasks : TaskPool → ℕ
queued_tasks p = length p.tasks

-- The test of `condition_.wait`.
unfoldable pub wakes : TaskPool → Bool
wakes p = p.stop || not (length p.tasks == 0)

-- One round of a worker's loop, from the wait to the call of the task: `pop` on a queue is never made when it
-- is empty.
unfoldable pub work : TaskPool → (worker : ℕ) → List ℕ → TaskPool
work p worker [] =
    if p.stop then record p { returned = λ w. if w == worker then true else p.returned w } else p
work p worker (task ∷ rest) = record p { tasks = rest; taken = p.taken ++ task ∷ [] }

unfoldable pub round : TaskPool → (worker : ℕ) → TaskPool
unfolding work
round p worker =
    if not (ltb worker p.thread_count) || p.returned worker
    then p
    else if wakes p
    then work p worker p.tasks
    else p

pub data Event : Type 0 where
  submits : (task : ℕ) → Event
  works : (worker : ℕ) → Event
  stops : Event

-- The pool after an event; a call that throws leaves it alone.
unfoldable pub step : TaskPool → Event → TaskPool
unfolding submit round stop_pool
step p (submits task) = elim (submit p task) [ none ↦ p | some p' ↦ p' ]
step p (works worker) = round p worker
step p stops = stop_pool p

unfoldable pub run : TaskPool → List Event → TaskPool
unfolding step
run p [] = p
run p (e ∷ es) = run (step p e) es
