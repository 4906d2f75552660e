-- ===== src/Lockfree/Channel.antt =====
-- `MPMCChannel` of include/async_toolkit/lockfree/mpmc_channel.hpp, for calls that do not overlap, with the nodes and the
-- failing exchanges of Bounded. The flag `committed` of a node is never read and is left out. `moved` is what
-- `std::move` leaves behind.
pub mod Refines
pub mod Runs
use mathlib.Core.Option
use async_toolkit.Base.{
  if◌then◌else◌, leb, ltb, ◌==◌, ◌>>=◌, ℕ, zero, suc, ◌+◌, ◌-◌, ◌%◌, ◌^◌, Bool, true, false, ◌&&◌,
  Option, none, some, List, [], ◌∷◌, map,
}
use async_toolkit.Lockfree.Bounded.{update, Nodes, spurious, later, allocate}

module _ {A : Type 0} where
  -- The loop of `try_send_impl`; `none` is too little fuel.
  unfoldable pub send_loop :
      (fuel : ℕ) → List Bool → Nodes A → (new_node tail next : ℕ) → Option (Nodes A)
  send_loop zero fails q new_node tail next = none
  send_loop (suc k) fails q new_node tail next =
      let sent = record q {
        next = update q.next tail new_node;
        tail = new_node;
        size = (q.size + 1) % 2 ^ 64;
      } in
      let again = send_loop k (later fails) q new_node q.tail (q.next q.tail) in
      let helped = record q { tail = next } in
      let after_help = send_loop k fails helped new_node helped.tail (helped.next helped.tail) in
      let reloaded = send_loop k fails q new_node q.tail (q.next q.tail) in
      if tail == q.tail
      then if next == 0 then if spurious fails then again else some sent else after_help
      else reloaded

  unfoldable pub try_send_impl : (fuel : ℕ) → List Bool → Nodes A → A → Option (Bool × Nodes A)
  unfolding send_loop
  try_send_impl fuel fails q value =
      let q' = allocate q value in
      let result =
        Option.map (λ r. (true, r)) (send_loop fuel fails q' q.fresh q'.tail (q'.next q'.tail)) in
      if leb q.capacity q.size then some (false, q) else result

  -- The loop of `try_send`: `clock` tells after which of the failed attempts it is before `end_time`.
  unfoldable pub try_send :
      (fuel : ℕ)
      → List Bool
      → Nodes A
      → A
      → (timeout : ℕ) → (clock : List Bool) → Option (Bool × Nodes A)
  unfolding try_send_impl
  try_send fuel fails q value timeout [] = try_send_impl fuel fails q value
  try_send fuel fails q value timeout (before ∷ clock) =
      try_send_impl fuel fails q value >>= λ (done, r).
      let again = try_send fuel fails r value timeout clock in
      if done then some (true, r) else if ltb 0 timeout && before then again else some (false, r)

  -- The loop of `try_receive_impl`.
  unfoldable pub receive_loop :
      (moved : A → A) (fuel : ℕ)
      → List Bool
      → Nodes A
      → (head next : ℕ) → Option (Option A × Nodes A)
  receive_loop moved zero fails q head next = none
  receive_loop moved (suc k) fails q head next =
      let result = q.content next in
      let q' = record q { content = update q.content next (moved result) } in
      let again = receive_loop moved k (later fails) q' q'.head (q'.next q'.head) in
      let received = record q' {
        head = next;
        freed = head ∷ q.freed;
        size = (q.size + 2 ^ 64 - 1) % 2 ^ 64;
      } in
      let reloaded = receive_loop moved k fails q q.head (q.next q.head) in
      if head == q.head
      then if next == 0
        then some (none, q)
        else if spurious fails
        then again
        else some (some result, received)
      else reloaded

  unfoldable pub try_receive_impl :
      (moved : A → A) (fuel : ℕ) → List Bool → Nodes A → Option (Option A × Nodes A)
  unfolding receive_loop
  try_receive_impl moved fuel fails q = receive_loop moved fuel fails q q.head (q.next q.head)

  -- The loop of `try_receive`.
  unfoldable pub try_receive :
      (moved : A → A) (fuel : ℕ)
      → List Bool
      → Nodes A
      → (timeout : ℕ) → (clock : List Bool) → Option (Option A × Nodes A)
  unfolding try_receive_impl
  try_receive moved fuel fails q timeout [] = try_receive_impl moved fuel fails q
  try_receive moved fuel fails q timeout (before ∷ clock) =
      try_receive_impl moved fuel fails q >>= λ (result, r).
      let again = try_receive moved fuel fails r timeout clock in
      elim result [
        | some value ↦ some (some value, r)
        | none ↦ if ltb 0 timeout && before then again else some (none, r)
      ]
