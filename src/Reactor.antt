-- ===== src/Reactor.antt =====
-- `EventLoop` of include/async_toolkit/reactor/event_loop.hpp: its timers, handlers and running flag. A
-- callback is a number, a time a number of milliseconds. What `epoll_wait` or the completion port reports
-- is an argument.
pub mod Timers
use async_toolkit.Base.{
  if◌then◌else◌, leb, ltb, ℕ, zero, suc, ◌+◌, Bool, false, Option, none, some, List, [], ◌∷◌, ◌++◌,
  arith,
}
use async_toolkit.PriorityQueue.{IsOrder, pop_top}

pub record Timer : Type 0 where
  pub deadline : ℕ
  pub callback : ℕ
  pub period : ℕ
  pub periodic : Bool

-- `Timer::operator>`, by which the queue is ordered: the top has the least deadline.
unfoldable pub later : Timer → Timer → Bool
later a b = ltb b.deadline a.deadline

pub later-IsOrder : IsOrder later
unfolding later
later-IsOrder = record { asym = λ a b h. ground arith; trans = λ a b c h k. ground arith }

pub record EventLoop : Type 0 where
  pub running : Bool
  pub handlers : List (ℕ × ℕ)
  pub timers : List Timer

unfoldable pub stop : EventLoop → EventLoop
stop l = record l { running = false }

-- `handlers_[fd] = callback`.
unfoldable pub register_handler : EventLoop → (fd callback : ℕ) → EventLoop
register_handler l fd callback = record l { handlers = (fd, callback) ∷ l.handlers }

unfoldable pub register_timer : (now : ℕ) → EventLoop → (delay callback : ℕ) → Bool → EventLoop
register_timer now l delay callback periodic = record l {
  timers =
      record { deadline = now + delay; callback = callback; period = delay; periodic = periodic }
      ∷ l.timers;
}

-- `cancel_timer` takes the mutex and does nothing.
unfoldable pub cancel_timer : EventLoop → ℕ → EventLoop
cancel_timer l callback = l

-- The timer goes back to the queue with its next deadline, if it is periodic.
unfoldable pub rearm : Timer → List Timer → List Timer
rearm t timers =
    if t.periodic then record t { deadline = t.deadline + t.period } ∷ timers else timers

-- The loop of `process_timers`, at the time `now`; a callback registers the timers `registers` says. The
-- callbacks run, and the timers left; `none` when the fuel runs out.
unfoldable pub process_timers :
    (registers : ℕ → List Timer) → (fuel now : ℕ) → List Timer → Option (List ℕ × List Timer)
unfolding rearm
process_timers registers zero now timers = none
process_timers registers (suc k) now timers = elim (pop_top later timers) [
  | none ↦ some ([], timers)
  | some (timer, rest) ↦
      let more = process_timers registers k now (rearm timer (registers timer.callback ++ rest)) in
      if leb timer.deadline now
      then elim more [ none ↦ none | some (calls, left) ↦ some (timer.callback ∷ calls, left) ]
      else some ([], timers)
]
