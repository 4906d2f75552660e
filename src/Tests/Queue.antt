-- ===== src/Tests/Queue.antt =====
-- A push and a pop of the concurrent queue by one thread, step by step.
use async_toolkit.Base.{
  ◌==◌, ℕ, ◌+◌, ◌-◌, ◌%◌, ◌^◌, ◌≡◌, refl, ◌≢◌, true, false, none, some, List, arith,
}
use async_toolkit.Lockfree.Queue.{
  Shared, Pc, Move, System, Step, init, Reach, idle, push_loop, push_tail, push_next, push_cas,
  push_swing, push_count, pop_loop, pop_head, pop_tail, pop_next, pop_read, pop_cas, pop_count,
  pop_delete,
}
use async_toolkit.Lockfree.Queue
use async_toolkit.Lockfree.Queue.Steps.{Effect}
use async_toolkit.Lockfree.Queue.Refines.{Holds, Step-Effect, delete_once}

abbrev moved : System ℕ → Shared ℕ → Pc ℕ → System ℕ
moved s m p = record { mem = m; pc = Queue.update s.pc 0 p }

-- The shared memory after the allocation of node 2 with value 7, after the link, and so on.
abbrev allocated : Shared ℕ
allocated = record {
  next = Queue.update (λ _. 0) 2 0;
  content = Queue.update (λ _. none) 2 (some 7);
  alive = Queue.update (λ a. a == 1) 2 true;
  used = Queue.update (λ a. a == 1) 2 true;
  head = 1;
  tail = 1;
  size = 0;
}

abbrev linked : Shared ℕ
linked = record allocated { next = Queue.update allocated.next 1 2 }

abbrev swung : Shared ℕ
swung = record linked { tail = 2 }

abbrev counted : Shared ℕ
counted = record swung { size = (0 + 1) % 2 ^ 64 }

abbrev unlinked : Shared ℕ
unlinked = record counted { head = 2 }

abbrev at_cas : System ℕ
at_cas =
    moved
      (moved (moved (moved init allocated (push_loop 2)) allocated (push_tail 2 1)) allocated
        (push_next 2 1 0))
      allocated (push_cas 2 1)

at_cas-Reach : Reach false at_cas
at_cas-Reach =
    Reach.later
      (Reach.later
        (Reach.later
          (Reach.later Reach.start (Step.by 0 (Move.allocate 2 7 (omega arith) refl (λ e. refl))))
          (Step.by 0 Move.load_tail))
        (Step.by 0 (Move.load_next refl)))
      (Step.by 0 (Move.at_end refl refl))

Step-Effect_example :
    (q : List ℕ) × (q' : List ℕ) × Holds at_cas.mem q
    × Holds linked q'
    × Effect at_cas.mem (push_cas 2 1) (push_swing 2 1) q q'
Step-Effect_example =
    Step-Effect {A = ℕ} {s = at_cas} {i = 0} {m = linked} {p = push_swing 2 1} at_cas-Reach
      (Move.link refl refl)

abbrev pushed : System ℕ
pushed = moved (moved (moved at_cas linked (push_swing 2 1)) swung push_count) counted idle

pushed-Reach : Reach false pushed
pushed-Reach =
    Reach.later
      (Reach.later (Reach.later at_cas-Reach (Step.by 0 (Move.link refl refl)))
        (Step.by 0 (Move.swing refl)))
      (Step.by 0 Move.count_up)

abbrev before_unlink : System ℕ
before_unlink =
    moved
      (moved
        (moved
          (moved (moved (moved pushed counted pop_loop) counted (pop_head 1)) counted
            (pop_tail 1 2))
          counted (pop_next 1 2 2))
        counted (pop_read 1 2))
      counted (pop_cas 1 2 7)

before_unlink-Reach : Reach false before_unlink
before_unlink-Reach =
    Reach.later
      (Reach.later
        (Reach.later
          (Reach.later
            (Reach.later (Reach.later pushed-Reach (Step.by 0 Move.call_pop))
              (Step.by 0 Move.load_head))
            (Step.by 0 Move.pop_load_tail))
          (Step.by 0 (Move.pop_load_next refl)))
        (Step.by 0 (Move.ready refl (omega arith) (omega arith))))
      (Step.by 0 (Move.read refl refl))

abbrev popped : System ℕ
popped =
    moved (moved before_unlink unlinked (pop_count 1 7))
      (record unlinked { size = (1 + 2 ^ 64 - 1) % 2 ^ 64 }) (pop_delete 1 7)

popped-Reach : Reach false popped
popped-Reach =
    Reach.later (Reach.later before_unlink-Reach (Step.by 0 (Move.unlink refl)))
      (Step.by 0 Move.count_down)

delete_once_example :
    (popped.mem.alive 1 ≡ true)
    × (popped.mem.head ≢ 1)
    × (popped.mem.tail ≢ 1)
    × ((◌≡◌ {A = ℕ} 1 1) → (◌≡◌ {A = ℕ} 0 0))
delete_once_example =
    delete_once {s = popped} 0 0 {h = 1} {k = 1} {x = 7} {y = 7} popped-Reach refl refl
