-- ===== src/Lockfree/Queue.antt =====
-- `Queue` of include/async_toolkit/lockfree/queue.hpp, one shared access at a time, for any number
-- of threads. Atomics are sequentially consistent. A node is an address, 0 is the null pointer.
pub mod Chain
pub mod Invariant
pub mod Moves
pub mod Steps
pub mod Refines
use async_toolkit.Base.{
  ℕ, ◌+◌, ◌-◌, ◌%◌, ◌^◌, ◌<◌, ◌≡◌, ◌≢◌, Bool, true, false, Option, none, some, ◌==◌, if◌then◌else◌,
}

abbrev pub update {ℓ} : {A : Type ℓ} → (ℕ → A) → ℕ → A → ℕ → A
update f p a q = if q == p then a else f q

-- The nodes and the members of the class. `alive` marks what is allocated now, `used` what ever was.
pub record Shared (A : Type 0) : Type 0 where
  pub next : ℕ → ℕ
  pub content : ℕ → Option A  -- `data`, null in the dummy node
  pub alive : ℕ → Bool
  pub used : ℕ → Bool
  pub head : ℕ
  pub tail : ℕ
  pub size : ℕ

-- Where a thread stands, with the local variables that are live there. In `push` the new node is
-- `node`.
pub data Pc (A : Type 0) : Type 0 where
  idle : Pc A
  push_loop : (node : ℕ) → Pc A
  push_tail : (node tail : ℕ) → Pc A
  push_next : (node tail next : ℕ) → Pc A
  push_cas : (node tail : ℕ) → Pc A
  push_help : (node tail next : ℕ) → Pc A
  push_swing : (node tail : ℕ) → Pc A
  push_count : Pc A
  pop_loop : Pc A
  pop_head : (head : ℕ) → Pc A
  pop_tail : (head tail : ℕ) → Pc A
  pop_next : (head tail next : ℕ) → Pc A
  pop_help : (tail next : ℕ) → Pc A
  pop_read : (head next : ℕ) → Pc A
  pop_cas : (head next : ℕ) (result : A) → Pc A
  pop_count : (head : ℕ) (result : A) → Pc A
  pop_delete : (head : ℕ) (result : A) → Pc A

-- One step of one thread. Every access through a pointer wants the node alive. `new` gives an
-- address that is not alive; with `reuse` false, one that was never used. A weak compare-exchange
-- may fail whatever it finds.
pub data Move {A : Type 0} (reuse : Bool) (s : Shared A) : Pc A → Shared A → Pc A → Type 0 where
  allocate :
      (n : ℕ) (value : A)
      → 0 < n
      → s.alive n ≡ false
      → (reuse ≡ false → s.used n ≡ false)
      → Move reuse s idle
          (record s {
            next = update s.next n 0;
            content = update s.content n (some value);
            alive = update s.alive n true;
            used = update s.used n true;
          })
          (push_loop n)
  load_tail : {n : ℕ} → Move reuse s (push_loop n) s (push_tail n s.tail)
  load_next :
      {n t : ℕ} → s.alive t ≡ true → Move reuse s (push_tail n t) s (push_next n t (s.next t))
  tail_moved : {n t x : ℕ} → t ≢ s.tail → Move reuse s (push_next n t x) s (push_loop n)
  at_end : {n t x : ℕ} → t ≡ s.tail → x ≡ 0 → Move reuse s (push_next n t x) s (push_cas n t)
  behind : {n t x : ℕ} → t ≡ s.tail → x ≢ 0 → Move reuse s (push_next n t x) s (push_help n t x)
  link :
      {n t : ℕ}
      → s.alive t ≡ true
      → s.next t ≡ 0
      → Move reuse s (push_cas n t) (record s { next = update s.next t n }) (push_swing n t)
  link_fails : {n t : ℕ} → s.alive t ≡ true → Move reuse s (push_cas n t) s (push_loop n)
  push_helps :
      {n t x : ℕ}
      → s.tail ≡ t
      → Move reuse s (push_help n t x) (record s { tail = x }) (push_loop n)
  push_help_fails : {n t x : ℕ} → Move reuse s (push_help n t x) s (push_loop n)
  swing : {n t : ℕ} → s.tail ≡ t → Move reuse s (push_swing n t) (record s { tail = n }) push_count
  swing_fails : {n t : ℕ} → Move reuse s (push_swing n t) s push_count
  count_up : Move reuse s push_count (record s { size = (s.size + 1) % 2 ^ 64 }) idle
  call_pop : Move reuse s idle s pop_loop
  load_head : Move reuse s pop_loop s (pop_head s.head)
  pop_load_tail : {h : ℕ} → Move reuse s (pop_head h) s (pop_tail h s.tail)
  pop_load_next :
      {h t : ℕ} → s.alive h ≡ true → Move reuse s (pop_tail h t) s (pop_next h t (s.next h))
  head_moved : {h t x : ℕ} → h ≢ s.head → Move reuse s (pop_next h t x) s pop_loop
  empty : {h t x : ℕ} → h ≡ s.head → h ≡ t → x ≡ 0 → Move reuse s (pop_next h t x) s idle
  lagging :
      {h t x : ℕ} → h ≡ s.head → h ≡ t → x ≢ 0 → Move reuse s (pop_next h t x) s (pop_help t x)
  ready : {h t x : ℕ} → h ≡ s.head → h ≢ t → x ≢ 0 → Move reuse s (pop_next h t x) s (pop_read h x)
  unready : {h t x : ℕ} → h ≡ s.head → h ≢ t → x ≡ 0 → Move reuse s (pop_next h t x) s pop_loop
  pop_helps : {t x : ℕ} → s.tail ≡ t → Move reuse s (pop_help t x) (record s { tail = x }) pop_loop
  pop_help_fails : {t x : ℕ} → Move reuse s (pop_help t x) s pop_loop
  read :
      {h x : ℕ} {v : A}
      → s.alive x ≡ true
      → s.content x ≡ some v
      → Move reuse s (pop_read h x) s (pop_cas h x v)
  unlink :
      {h x : ℕ} {v : A}
      → s.head ≡ h
      → Move reuse s (pop_cas h x v) (record s { head = x }) (pop_count h v)
  unlink_fails : {h x : ℕ} {v : A} → Move reuse s (pop_cas h x v) s pop_loop
  count_down :
      {h : ℕ} {v : A}
      → Move reuse s
          (pop_count h v)
          (record s { size = (s.size + 2 ^ 64 - 1) % 2 ^ 64 })
          (pop_delete h v)
  delete :
      {h : ℕ} {v : A}
      → s.alive h ≡ true
      → Move reuse s (pop_delete h v) (record s { alive = update s.alive h false }) idle

pub record System (A : Type 0) : Type 0 where
  pub mem : Shared A
  pub pc : ℕ → Pc A

pub data Step {A : Type 0} (reuse : Bool) (s : System A) : System A → Type 0 where
  by :
      (i : ℕ) {m : Shared A} {p : Pc A}
      → Move reuse s.mem (s.pc i) m p
      → Step reuse s (record { mem = m; pc = update s.pc i p })

-- The constructor: the dummy node has address 1.
abbrev pub init : {A : Type 0} → System A
init = record {
  mem = record {
    next = λ _. 0;
    content = λ _. none;
    alive = λ a. a == 1;
    used = λ a. a == 1;
    head = 1;
    tail = 1;
    size = 0;
  };
  pc = λ _. idle;
}

pub data Reach {A : Type 0} (reuse : Bool) : System A → Type 0 where
  start : Reach reuse init
  later : {s t : System A} → Reach reuse s → Step reuse s t → Reach reuse t
