-- ===== src/Logging.antt =====
-- `AsyncLogger` of include/async_toolkit/logging/async_logger.hpp. A message is a number; `entry_size` is
-- the size of its formatted entry and `clock` the name, in seconds, that the log file gets at each
-- rotation: both are parameters. The queue is bounded and first in, first out.
pub mod Written
pub mod Order
use async_toolkit.Base.{
  if◌then◌else◌, leb, length, ltb, ◌==◌, ℕ, zero, suc, ◌+◌, ◌*◌, Bool, true, false, not, ◌||◌,
  Option, none, some, List, [], ◌∷◌, ◌++◌,
}

-- The log file: its name while it is open, its size counter, the rotations so far, and what was written
-- to which file, latest last.
pub record LogFile : Type 0 where
  pub open_file : Option ℕ
  pub current_file_size : ℕ
  pub rotations : ℕ
  pub written : List (ℕ × ℕ)

-- `waiting_check`: the worker has put a message into the batch and not yet tested whether to write it.
pub record AsyncLogger : Type 0 where
  pub queue : List ℕ
  pub queue_size : ℕ
  pub running : Bool
  pub batch : List ℕ
  pub waiting_check : Bool
  pub log_file : LogFile
  pub accepted : List ℕ

abbrev pub max_file_size : ℕ
max_file_size = 100 * 1024 * 1024

abbrev pub batch_size : ℕ
batch_size = 100

-- A try of the loop of `log`; on a full queue the thread yields and tries again.
unfoldable pub log : AsyncLogger → ℕ → AsyncLogger
log l msg =
    if ltb (length l.queue) l.queue_size
    then record l { queue = l.queue ++ msg ∷ []; accepted = l.accepted ++ msg ∷ [] }
    else l

-- `try_dequeue` in the loop of `process_logs`, and the message's way into the batch.
unfoldable pub take : AsyncLogger → AsyncLogger
take l = elim l.queue [
  | [] ↦ l
  | msg ∷ rest ↦ record l { queue = rest; batch = l.batch ++ msg ∷ []; waiting_check = true }
]

-- `running_ || !queue_.empty()` at the head of the loop.
unfoldable pub goes_on : AsyncLogger → Bool
goes_on l = l.running || not (length l.queue == 0)

module _ (entry_size clock : ℕ → ℕ) where
  -- The old file is closed and the new one opened to append.
  unfoldable pub rotate_log_file : LogFile → LogFile
  rotate_log_file f = record f {
    open_file = some (clock f.rotations);
    current_file_size = 0;
    rotations = f.rotations + 1;
  }

  -- One round of the loop of `write_batch`, on the open file `name`.
  unfoldable pub write_entry : LogFile → (name msg : ℕ) → LogFile
  unfolding rotate_log_file
  write_entry f name msg =
      let f' : LogFile = record f {
        written = f.written ++ (name, msg) ∷ [];
        current_file_size = f.current_file_size + entry_size msg;
      } in
      if leb max_file_size f'.current_file_size then rotate_log_file f' else f'

  unfoldable pub write_entries : LogFile → List ℕ → LogFile
  unfolding write_entry
  write_entries f [] = f
  write_entries f (msg ∷ msgs) = elim f.open_file [
    | none ↦ f
    | some name ↦ write_entries (write_entry f name msg) msgs
  ]

  unfoldable pub write_batch : LogFile → List ℕ → LogFile
  unfolding write_entries rotate_log_file
  write_batch f msgs = elim f.open_file [
    | none ↦ write_entries (rotate_log_file f) msgs
    | some name ↦ write_entries f msgs
  ]

  -- The constructor, up to the start of the worker.
  unfoldable pub new_logger : (queue_size : ℕ) → AsyncLogger
  unfolding rotate_log_file
  new_logger queue_size = record {
    queue = [];
    queue_size = queue_size;
    running = true;
    batch = [];
    waiting_check = false;
    log_file =
        rotate_log_file
          (record { open_file = none; current_file_size = 0; rotations = 0; written = [] });
    accepted = [];
  }

  -- The test after `take`, which writes a full batch or one that no message in the queue follows.
  unfoldable pub check : AsyncLogger → AsyncLogger
  unfolding write_batch
  check l =
      if leb batch_size (length l.batch) || (length l.queue == 0)
      then record l { log_file = write_batch l.log_file l.batch; batch = []; waiting_check = false }
      else record l { waiting_check = false }

  -- A step of the worker.
  unfoldable pub work : AsyncLogger → AsyncLogger
  unfolding take check
  work l = if l.waiting_check then check l else take l

  -- The rest of `process_logs` once `running_` is false, up to the last batch; `none` is out of fuel.
  unfoldable pub finish : (fuel : ℕ) → AsyncLogger → Option AsyncLogger
  unfolding work goes_on write_batch
  finish zero l = none
  finish (suc k) l =
      let rest = finish k (work l) in
      if l.waiting_check || goes_on l
      then rest
      else (if length l.batch == 0
          then some l
          else some (record l { log_file = write_batch l.log_file l.batch; batch = [] }))

-- The predicate that `flush` waits for.
unfoldable pub flush_returns : AsyncLogger → Bool
flush_returns l = length l.queue == 0

pub data Event : Type 0 where
  logs : (msg : ℕ) → Event
  works : Event
  stops : Event

unfoldable pub step : (entry_size clock : ℕ → ℕ) → AsyncLogger → Event → AsyncLogger
unfolding log work
step entry_size clock l (logs msg) = log l msg
step entry_size clock l works = work entry_size clock l
step entry_size clock l stops = record l { running = false }

unfoldable pub run : (entry_size clock : ℕ → ℕ) → AsyncLogger → List Event → AsyncLogger
unfolding step
run entry_size clock l [] = l
run entry_size clock l (e ∷ es) = run entry_size clock (step entry_size clock l e) es
