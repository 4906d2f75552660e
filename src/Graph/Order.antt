-- ===== src/Graph/Order.antt =====
-- `TaskGraph::execute` runs every node after its dependencies.
use async_toolkit.Base.{
  ==_iff, Bool-cases, count, ◌==◌, ℕ, ◌≤◌, ◌<◌, ◌≡◌, refl, sym, subst, inl, inr, Bool, true, false,
  not, ◌&&◌, List, [], ◌∷◌, arith,
}
use async_toolkit.PriorityQueue.{All}
use async_toolkit.Graph.{
  TaskGraph, dependencies_of, Execution, contains, all_executed, can_execute, is_running, visit,
  finish, Event, step, run, start,
}
use async_toolkit.Graph.{visits, finishes}

abbrev pub AllIn : List ℕ → List ℕ → Type 0
AllIn is = All λ d. 0 < count d is

-- A list of nodes, latest first, in which each stands once and after its dependencies.
abbrev pub IsOrdered : TaskGraph → List ℕ → Type 0
IsOrdered g [] = Unit
IsOrdered g (i ∷ is) = (count i is ≡ 0) × AllIn is (dependencies_of g i) × IsOrdered g is

all_executed_lem :
    (executed submitted ds : List ℕ)
    → ((i : ℕ) → count i executed ≤ count i submitted)
    → all_executed executed ds ≡ true
    → AllIn submitted ds
unfolding all_executed
all_executed_lem executed submitted [] h e = tt
all_executed_lem executed submitted (d ∷ ds) h e =
    (ground (arith, h d), all_executed_lem executed submitted ds h (ground (arith)))

abbrev IsValid : TaskGraph → Execution → Type 0
IsValid g x = IsOrdered g x.submitted × ((i : ℕ) → count i x.executed ≤ count i x.submitted)

can_execute-AllIn :
    (g : TaskGraph) (x : Execution) (i : ℕ)
    → ((j : ℕ) → count j x.executed ≤ count j x.submitted)
    → can_execute g x i ≡ true
    → AllIn x.submitted (dependencies_of g i)
unfolding can_execute
can_execute-AllIn g x i ran can =
    all_executed_lem x.executed x.submitted (dependencies_of g i) ran (first _ _ can)
  where
    first : (a b : Bool) → (a && b) ≡ true → a ≡ true
    first true b e = refl
    first false b e = cc

visit-IsValid : (g : TaskGraph) (x : Execution) → IsValid g x → IsValid g (visit g x)
unfolding visit
visit-IsValid g x (order, ran) =
    elim (Bool-cases (not (contains x.submitted x.cursor) && can_execute g x x.cursor)) [
      | inl ready ↦
          let (fresh, can) : (count x.cursor x.submitted ≡ 0) × (can_execute g x x.cursor ≡ true) =
            (ground arith, ground arith) in
          rw ready
            ((fresh, can_execute-AllIn g x x.cursor ran can, order), λ i. omega (arith, ran i))
      | inr busy ↦ rw busy (order, ran)
    ]

finish-IsValid : (g : TaskGraph) (x : Execution) (i : ℕ) → IsValid g x → IsValid g (finish x i)
unfolding finish
finish-IsValid g x i (order, ran) = (ground arith, λ j. ground (arith, ran j))

step-IsValid : (g : TaskGraph) (x : Execution) (e : Event) → IsValid g x → IsValid g (step g x e)
unfolding step
step-IsValid g x visits h = elim (Bool-cases ((x.cursor == 0) && not (is_running g x))) [
  | inl ends ↦ rw ends h
  | inr goes ↦ rw goes (visit-IsValid g x h)
]
step-IsValid g x (finishes i) h = finish-IsValid g x i h

run-IsValid :
    (g : TaskGraph) (x : Execution) (es : List Event) → IsValid g x → IsValid g (run g x es)
unfolding run
run-IsValid g x [] h = h
run-IsValid g x (e ∷ es) h = run-IsValid g (step g x e) es (step-IsValid g x e h)

pub run-IsOrdered :
    (g : TaskGraph) (es : List Event)
    → IsOrdered g (run g start es).submitted
      × ((i : ℕ) → count i (run g start es).executed ≤ count i (run g start es).submitted)
run-IsOrdered g es = run-IsValid g start es (tt, λ i. omega arith)

AllIn-mem : (is ds : List ℕ) (d : ℕ) → AllIn is ds → 0 < count d ds → 0 < count d is
AllIn-mem is [] d h m = absurd (omega arith)
AllIn-mem is (e ∷ ds) d h m = ground (arith, AllIn-mem is ds d h.1)

module _ (g : TaskGraph) (stuck : ℕ → Bool)
    (waits : (i : ℕ)
      → stuck i ≡ true
      → (d : ℕ) × (0 < count d (dependencies_of g i)) × (stuck d ≡ true)) where
  none_stuck : (is : List ℕ) (i : ℕ) → IsOrdered g is → stuck i ≡ true → count i is ≡ 0
  none_stuck [] i h e = refl
  none_stuck (j ∷ is) i h e = elim (Bool-cases (j == i)) [
    | inl same ↦
        let (d, dep, waiting) = waits i e in
        let at : j ≡ i = (==_iff j i).0 same in
        let dep' = subst (λ k. 0 < count d (dependencies_of g k)) (sym at) dep in
        absurd (
          omega (arith, AllIn-mem is (dependencies_of g j) d h.1 dep', none_stuck is d h.2 waiting))
    | inr other ↦ rw other (omega (arith, none_stuck is i h.2 e))
  ]

  -- Nodes that each depend on one of them, as those of a cycle do, are never submitted, however long
  -- `execute` goes on.
  pub cycle_never_submitted :
      (es : List Event) (i : ℕ) → stuck i ≡ true → count i (run g start es).submitted ≡ 0
  cycle_never_submitted es i = none_stuck (run g start es).submitted i (run-IsOrdered g es).0
