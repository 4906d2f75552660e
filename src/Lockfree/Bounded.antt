-- ===== src/Lockfree/Bounded.antt =====
-- `MPMCQueue` of include/async_toolkit/lockfree/mpmc_queue.hpp, for calls that do not overlap. A node is an address, 0 is
-- the null pointer; the memory pool is a counter of addresses, and `freed` logs what went back to it. A weak
-- compare-exchange may fail whatever it finds: `fails` tells which of the next ones do.
pub mod Ends
pub mod Enqueue
pub mod Dequeue
pub mod Refines
use mathlib.Core.Option
use async_toolkit.Base.{
  if◌then◌else◌, leb, ◌==◌, ℕ, zero, suc, ◌+◌, ◌-◌, ◌%◌, ◌^◌, Bool, true, false, not, ◌&&◌, Option,
  none, some, List, [], ◌∷◌, map,
}

abbrev pub update {ℓ} : {A : Type ℓ} → (ℕ → A) → ℕ → A → ℕ → A
update f p a q = if q == p then a else f q

pub record Nodes (A : Type 0) : Type 0 where
  pub next : ℕ → ℕ
  pub content : ℕ → A
  pub head : ℕ
  pub tail : ℕ
  pub size : ℕ
  pub capacity : ℕ
  pub fresh : ℕ
  pub freed : List ℕ

-- Whether the next weak compare-exchange fails for no reason, and those after it.
abbrev pub spurious : List Bool → Bool
spurious [] = false
spurious (b ∷ bs) = b

abbrev pub later : List Bool → List Bool
later [] = []
later (b ∷ bs) = bs

-- How the loop of `try_dequeue` ends: it reads through a null pointer, finds nothing, or takes the value after
-- `head`.
pub data Taken (A : Type 0) : Type 0 where
  faults : Taken A
  finds_nothing : Nodes A → Taken A
  takes : Nodes A → (head : ℕ) → A → Taken A

pub data Call (A : Type 0) : Type 0 where
  enqueues : A → List Bool → Call A
  dequeues : List Bool → Call A

-- What a call answers.
pub data Answer (A : Type 0) : Type 0 where
  sent : Bool → Answer A
  got : Option A → Answer A

module _ {A : Type 0} where
  -- The constructor: the dummy node has address 1, and `blank` in it.
  abbrev pub new_queue : (blank : A) → (capacity : ℕ) → Nodes A
  new_queue blank capacity = record {
    next = λ a. 0;
    content = λ a. blank;
    head = 1;
    tail = 1;
    size = 0;
    capacity = capacity;
    fresh = 2;
    freed = [];
  }

  -- `pool_.allocate` with the two stores after it.
  abbrev pub allocate : Nodes A → A → Nodes A
  allocate q value = record q {
    next = update q.next q.fresh 0;
    content = update q.content q.fresh value;
    fresh = q.fresh + 1;
  }

  -- The loop of `try_enqueue`: the queue with the node linked, the local `tail`, and the failures left. `none` is too
  -- little fuel.
  unfoldable pub enqueue_loop :
      (fuel : ℕ) → List Bool → Nodes A → (node tail : ℕ) → Option (Nodes A × ℕ × List Bool)
  enqueue_loop zero fails q node tail = none
  enqueue_loop (suc k) fails q node tail =
      let next = q.next tail in
      let helped = if spurious fails then q else record q { tail = next } in
      let again = enqueue_loop k (later fails) q node q.tail in
      let after_help = enqueue_loop k (later fails) helped node helped.tail in
      let reloaded = enqueue_loop k fails q node q.tail in
      if tail == q.tail
      then (if next == 0
          then (if spurious fails
              then again
              else some (record q { next = update q.next tail node }, tail, later fails))
          else after_help)
      else reloaded

  unfoldable pub try_enqueue : (fuel : ℕ) → List Bool → Nodes A → A → Option (Bool × Nodes A)
  unfolding enqueue_loop
  try_enqueue fuel fails q value =
      let node = q.fresh in
      let q' = allocate q value in
      let linked = enqueue_loop fuel fails q' node q'.tail in
      if leb q.capacity q.size
      then some (false, q)
      else Option.map
          (λ (r, tail, fails'). (
            true,
            record r {
              tail = if r.tail == tail && not (spurious fails') then node else r.tail;
              size = (r.size + 1) % 2 ^ 64;
            },
          ))
          linked

  unfoldable pub dequeue_loop :
      (fuel : ℕ) → List Bool → Nodes A → (head tail : ℕ) → Option (Taken A)
  dequeue_loop zero fails q head tail = none
  dequeue_loop (suc k) fails q head tail =
      let next = q.next head in
      let moves = q.tail == tail && not (spurious fails) in
      let helped = if moves then record q { tail = next } else q in
      let after_help =
        dequeue_loop k (later fails) helped helped.head (if moves then tail else q.tail) in
      let again = dequeue_loop k (later fails) q q.head tail in
      let reloaded = dequeue_loop k fails q q.head tail in
      if head == q.head
      then (if head == tail
          then (if next == 0 then some (finds_nothing q) else after_help)
          else if next == 0
          then some faults
          else if spurious fails
          then again
          else some (takes (record q { head = next }) head (q.content next)))
      else reloaded

  -- What `try_dequeue` answers: nothing, or a value; `none` inside is a fault.
  unfoldable pub try_dequeue :
      (fuel : ℕ) → List Bool → Nodes A → Option (Option (Option A × Nodes A))
  unfolding dequeue_loop
  try_dequeue fuel fails q =
      let looked = dequeue_loop fuel fails q q.head q.tail in
      if q.size == 0
      then some (some (none, q))
      else Option.map
          (λ t. elim t [
            | faults ↦ none
            | finds_nothing r ↦ some (none, r)
            | takes r head value ↦ some (
              some value,
              record r { freed = head ∷ r.freed; size = (r.size + 2 ^ 64 - 1) % 2 ^ 64 },
            )
          ])
          looked
