-- ===== src/Tests/Bounded.antt =====
-- The bounded queue, the channel and the skip list at concrete inputs.
use async_toolkit.Base.{
  if◌then◌else◌, length, ◌==◌, ℕ, ◌≡◌, true, false, ◌&&◌, none, some, List, [], ◌∷◌, arith,
}
use async_toolkit.Lockfree.Bounded.{Nodes, new_queue, Call, enqueues, dequeues}
use async_toolkit.Lockfree.Bounded.Refines.{run, spec_run, run-refines}
use async_toolkit.Lockfree.Channel.Runs
use async_toolkit.Lockfree.Channel.Runs.{channel_run-refines}
use async_toolkit.Lockfree.SkipList.{new_list, SkipList, done}
use async_toolkit.Lockfree.SkipList.Runs as Lists
use async_toolkit.Lockfree.SkipList.Runs.{skip_list_run-refines}

abbrev calls : List (Call ℕ)
calls =
    enqueues 7 (true ∷ false ∷ true ∷ [])
    ∷ enqueues 8 []
    ∷ dequeues (true ∷ [])
    ∷ enqueues 9 []
    ∷ dequeues []
    ∷ []

run-refines_example :
    (r : Nodes ℕ) × (run (new_queue 0 1) calls ≡ some ((spec_run 1 [] calls).0, r))
    × (r.size ≡ length (spec_run 1 [] calls).1)
run-refines_example = run-refines 0 1 calls (omega arith)

abbrev channel_calls : List (Runs.Call ℕ)
channel_calls =
    Runs.sends 7 0 [] (true ∷ [])
    ∷ Runs.sends 8 5 (true ∷ false ∷ []) []
    ∷ Runs.receives 0 [] (true ∷ [])
    ∷ []

abbrev zeroed : ℕ → ℕ
zeroed n = 0

channel_run-refines_example :
    (r : Nodes ℕ) × (Runs.run zeroed (new_queue 0 1) channel_calls
      ≡ some ((Runs.spec_run zeroed 1 [] channel_calls).0, r))
    × (r.size ≡ length (Runs.spec_run zeroed 1 [] channel_calls).1)
channel_run-refines_example = channel_run-refines zeroed 0 1 channel_calls (omega arith)

-- The list after a first insertion at level 1.
abbrev one_node : SkipList ℕ
one_node = record {
  key = λ a. if a == 2 then 5 else 0;
  value = λ a. if a == 2 then 50 else 0;
  next = λ a l. if (a == 1) && (l == 0) then 2 else 0;
  marked = λ a. false;
  head = 1;
  current_level = 1;
  fresh = 3;
}

abbrev history : List (Lists.Call ℕ)
history =
    Lists.inserts 5 50
    ∷ Lists.inserts 3 30
    ∷ Lists.inserts 5 51
    ∷ Lists.removes 3
    ∷ Lists.finds 5
    ∷ Lists.removes 4
    ∷ []

skip_list_run-refines_example :
    (r : SkipList ℕ) × (Lists.run 7 (new_list 0) history
      ≡ done ((Lists.spec_run (λ j. none) history).0, r))
    × (r.current_level ≡ 1)
skip_list_run-refines_example = skip_list_run-refines 0 7 history (omega arith)
