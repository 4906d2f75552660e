-- ===== src/Lockfree/Queue/Invariant.antt =====
-- The nodes of the queue as a trail: those already taken, the dummy `head`, and those that hold the
-- values. What each thread's local variables say about it, while no address is used twice.
use async_toolkit.Base.{
  count, if◌then◌else◌, ◌==◌, ℕ, ◌+◌, ◌≤◌, ◌<◌, ◌≡◌, ◌≢◌, true, Option, none, some, List, ◌∷◌,
}
use async_toolkit.Lockfree.Queue.{
  Shared, System, Pc, idle, push_loop, push_tail, push_next, push_cas, push_help, push_swing,
  push_count, pop_loop, pop_head, pop_tail, pop_next, pop_help, pop_read, pop_cas, pop_count,
  pop_delete,
}
use async_toolkit.Lockfree.Queue.Chain.{Chain, Values}

-- `removed` are the nodes that `head` has left, `nodes` those behind `head`, `queue` their values.
pub record Trail (A : Type 0) : Type 0 where
  pub removed : List ℕ
  pub nodes : List ℕ
  pub queue : List A

module _ {A : Type 0} (s : Shared A) (g : Trail A) where
  -- How often a node stands in the trail, and among those that `head` points to or has left.
  abbrev pub on_trail : ℕ → ℕ
  on_trail a = count a g.removed + count a (s.head ∷ g.nodes)

  abbrev pub was_head : ℕ → ℕ
  was_head a = count a g.removed + (if s.head == a then 1 else 0)

  pub record Core : Type 0 where
    pub chain : Chain s.next s.head g.nodes
    pub values : Values s.content g.nodes g.queue
    pub once : (a : ℕ) → on_trail a ≤ 1
    pub left : (a : ℕ) → 0 < count a g.removed → s.next a ≢ 0
    pub known : (a : ℕ) → 0 < on_trail a → s.used a ≡ true
    pub living : (a : ℕ) → 0 < count a (s.head ∷ g.nodes) → s.alive a ≡ true
    pub tail_behind : 0 < count s.tail (s.head ∷ g.nodes)
    pub head_set : 0 < s.head
    pub allocated_used : (a : ℕ) → s.alive a ≡ true → s.used a ≡ true

  -- A new node that is not linked yet.
  abbrev pub Pending : ℕ → Type 0
  Pending n =
      (0 < n)
      × (s.used n ≡ true)
      × (s.alive n ≡ true)
      × (s.next n ≡ 0)
      × (on_trail n ≡ 0)
      × ((v : A) × (s.content n ≡ some v))

  abbrev pub Follows : ℕ → ℕ → Type 0
  Follows t x = (s.next t ≡ x) × (0 < x) × (0 < on_trail t)

  -- If `h` is still the head, the tail is behind it.
  abbrev pub Behind : ℕ → Type 0
  Behind h = s.head ≡ h → s.tail ≢ h

  abbrev pub Local : Pc A → Type 0
  Local idle = Unit {0}
  Local (push_loop n) = Pending n
  Local (push_tail n t) = Pending n × (0 < on_trail t)
  Local (push_next n t x) = Pending n × (0 < on_trail t) × (0 < x → s.next t ≡ x)
  Local (push_cas n t) = Pending n × (0 < on_trail t)
  Local (push_help n t x) = Pending n × Follows t x
  Local (push_swing n t) = Follows t n
  Local push_count = Unit {0}
  Local pop_loop = Unit {0}
  Local (pop_head h) = 0 < was_head h
  Local (pop_tail h t) = (0 < was_head h) × (0 < on_trail t) × (h ≢ t → Behind h)
  Local (pop_next h t x) =
      (0 < was_head h) × (0 < on_trail t) × (h ≢ t → Behind h) × (0 < x → s.next h ≡ x)
  Local (pop_help t x) = Follows t x
  Local (pop_read h x) = (0 < was_head h) × (s.next h ≡ x) × (0 < x) × Behind h
  Local (pop_cas h x v) =
      (0 < was_head h)
      × (s.next h ≡ x)
      × (0 < x)
      × Behind h
      × (s.content x ≡ some v)
      × (s.used x ≡ true)
  Local (pop_count h v) = (0 < count h g.removed) × (s.alive h ≡ true)
  Local (pop_delete h v) = (0 < count h g.removed) × (s.alive h ≡ true)

-- The node that only this thread may link or free.
abbrev pub owned : {A : Type 0} → Pc A → Option ℕ
owned (push_loop n) = some n
owned (push_tail n t) = some n
owned (push_next n t x) = some n
owned (push_cas n t) = some n
owned (push_help n t x) = some n
owned (pop_count h v) = some h
owned (pop_delete h v) = some h
owned _ = none

pub record Inv {A : Type 0} (s : System A) (g : Trail A) : Type 0 where
  pub core : Core s.mem g
  pub local : (i : ℕ) → Local s.mem g (s.pc i)
  pub unique : (i j n : ℕ) → owned (s.pc i) ≡ some n → owned (s.pc j) ≡ some n → i ≡ j
