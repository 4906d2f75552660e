-- ===== src/Graph.antt =====
-- `TaskGraph` of include/async_toolkit/graph/task_graph.hpp. A node is its index in `nodes_`. `execute`
-- visits the nodes in a loop while the threads of the pool run the nodes it submitted, so a run is a
-- sequence of visits and of finished nodes, in any order that the threads take. What a node computes is a
-- parameter.
pub mod Order
use mathlib.Core.Option
use async_toolkit.Base.{
  count, get_elem?, if◌then◌else◌, leb, length, ltb, set, ◌==◌, ℕ, ◌+◌, Bool, true, not, ◌&&◌,
  Option, none, some, List, [], ◌∷◌, ◌++◌, map,
}

pub record Node : Type 0 where
  pub dependencies : List ℕ

-- `nodes_`.
abbrev pub TaskGraph : Type 0
TaskGraph = List Node

unfoldable pub add_task : TaskGraph → ℕ × TaskGraph
add_task g = (length g, g ++ record { dependencies = [] } ∷ [])

-- `none`: there is no such node.
unfoldable pub add_dependency : TaskGraph → (dependent dependency : ℕ) → Option TaskGraph
add_dependency g dependent dependency =
    Option.map (λ n. set g dependent (record { dependencies = n.dependencies ++ dependency ∷ [] }))
      (get_elem? g dependent)

abbrev pub dependencies_of : TaskGraph → ℕ → List ℕ
dependencies_of g i = elim (get_elem? g i) [ none ↦ [] | some n ↦ n.dependencies ]

-- The nodes with `executed_`, the submitted ones, which are those of `completed` and of `futures`, latest
-- first, and the index that the inner loop is at.
pub record Execution : Type 0 where
  pub executed : List ℕ
  pub submitted : List ℕ
  pub cursor : ℕ

abbrev pub contains : List ℕ → ℕ → Bool
contains is i = ltb 0 (count i is)

unfoldable pub all_executed : List ℕ → List ℕ → Bool
all_executed executed [] = true
all_executed executed (d ∷ ds) = contains executed d && all_executed executed ds

unfoldable pub can_execute : TaskGraph → Execution → ℕ → Bool
unfolding all_executed
can_execute g x i = all_executed x.executed (dependencies_of g i) && not (contains x.executed i)

-- `completed.size() < nodes_.size()`, which the outer loop tests before it starts the inner one.
unfoldable pub is_running : TaskGraph → Execution → Bool
is_running g x = ltb (length x.submitted) (length g)

-- One round of the inner loop; the last one brings the outer loop back to its test.
unfoldable pub visit : TaskGraph → Execution → Execution
unfolding can_execute
visit g x =
    let i = x.cursor in
    let ready = not (contains x.submitted i) && can_execute g x i in
    record x {
      submitted = if ready then i ∷ x.submitted else x.submitted;
      cursor = if leb (length g) (i + 1) then 0 else i + 1;
    }

-- `Node::execute` of a submitted node, on a thread of the pool.
unfoldable pub finish : Execution → ℕ → Execution
finish x i =
    if contains x.submitted i && not (contains x.executed i)
    then record x { executed = i ∷ x.executed }
    else x

pub data Event : Type 0 where
  visits : Event
  finishes : (i : ℕ) → Event

unfoldable pub step : TaskGraph → Execution → Event → Execution
unfolding visit finish is_running
step g x visits = if (x.cursor == 0) && not (is_running g x) then x else visit g x
step g x (finishes i) = finish x i

unfoldable pub run : TaskGraph → Execution → List Event → Execution
unfolding step
run g x [] = x
run g x (e ∷ es) = run g (step g x e) es

abbrev pub start : Execution
start = record { executed = []; submitted = []; cursor = 0 }
