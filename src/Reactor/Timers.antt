-- ===== src/Reactor/Timers.antt =====
-- `process_timers` of include/async_toolkit/reactor/event_loop.hpp ends, what it leaves, and when it does
-- not end.
use mathlib.Core.List.{Perm, Permᴰ}
use mathlib.Core.Logic.{∥∥₁_elim}
use native.Mathlib.Nat.{ℕ_set}
use async_toolkit.Base.{
  Bool-cases, Option-cases, if◌then◌else◌, leb, leb-true, leb→le, ◌==◌, ℕ, zero, suc, ◌+◌, ◌-◌, ◌≤◌,
  ◌<◌, ◌≡◌, refl, sym, ap, ◌∙◌, inl, inr, true, ◌&&◌, none, some, List, [], ◌∷◌, arith,
}
use async_toolkit.PriorityQueue.{pop_top, pop_top_lem, pop_top-ne-none, IsTop}
use async_toolkit.Reactor.{Timer, later, later-IsOrder, rearm, process_timers}

abbrev pub sum : (Timer → ℕ) → List Timer → ℕ
sum f [] = 0
sum f (t ∷ ts) = f t + sum f ts

-- How many rounds a timer can take before it is due after `now`.
abbrev pub rounds : ℕ → Timer → ℕ
rounds now t = if leb t.deadline now then now - t.deadline + 1 else 0

-- 1 for a timer that is due.
abbrev pub due : ℕ → Timer → ℕ
due now t = if leb t.deadline now then 1 else 0

-- 1 for a periodic timer without a period.
abbrev pub still : Timer → ℕ
still t = if t.periodic && (t.period == 0) then 1 else 0

sum-permᴰ : (f : Timer → ℕ) {xs ys : List Timer} → Permᴰ xs ys → sum f xs ≡ sum f ys
sum-permᴰ f Permᴰ.nil = refl
sum-permᴰ f (Permᴰ.cons e p) = omega (arith, ap f e, sum-permᴰ f p)
sum-permᴰ f (Permᴰ.swap e g) = omega (arith, ap f e, ap f g)
sum-permᴰ f (Permᴰ.trans p q) = sum-permᴰ f p ∙ sum-permᴰ f q

sum-perm : (f : Timer → ℕ) {xs ys : List Timer} → Perm xs ys → sum f xs ≡ sum f ys
sum-perm f p = ∥∥₁_elim p (ℕ_set _ _) (sum-permᴰ f)

rearm-rounds :
    (now : ℕ) (t : Timer) (rest : List Timer)
    → still t ≡ 0
    → t.deadline ≤ now
    → sum (rounds now) (rearm t rest) < sum (rounds now) (t ∷ rest)
unfolding rearm
rearm-rounds now t rest h late = ground arith

rearm-still :
    (t : Timer) (rest : List Timer) → sum still (t ∷ rest) ≡ 0 → sum still (rearm t rest) ≡ 0
unfolding rearm
rearm-still t rest h = ground arith

not_due :
    (now : ℕ) (t : Timer) (rest : List Timer)
    → IsTop later t rest
    → now < t.deadline
    → sum (due now) rest ≡ 0
unfolding later
not_due now t [] top h = refl
not_due now t (u ∷ rest) top h = ground (arith, not_due now t rest top.1 h)

due_when_empty :
    (now : ℕ) (timers : List Timer) → pop_top later timers ≡ none → sum (due now) timers ≡ 0
due_when_empty now [] e = refl
due_when_empty now (t ∷ ts) e = absurd (pop_top-ne-none later t ts e)

-- If the only timer is periodic, without a period and due, and its callback registers no timer,
-- then the loop of `process_timers` never ends: no number of rounds is enough.
pub process_timers_stuck :
    (registers : ℕ → List Timer) (fuel now : ℕ) (t : Timer)
    → registers t.callback ≡ []
    → t.periodic ≡ true
    → t.period ≡ 0
    → t.deadline ≤ now
    → process_timers registers fuel now (t ∷ []) ≡ none
unfolding process_timers rearm pop_top
process_timers_stuck registers zero now t quiet again stays late = refl
process_timers_stuck registers (suc k) now t quiet again stays late =
    let ih =
      process_timers_stuck registers k now
        (record t { deadline = t.deadline + t.period; periodic = true }) quiet refl stays
        (omega arith) in
    rw (leb-true t.deadline now late, quiet, again, ih) refl

-- If every periodic timer has a period and the callbacks register no timer, then `process_timers` ends,
-- within one round more than the due timers have rounds left, and leaves no timer that is due.
pub process_timers_lem :
    (registers : ℕ → List Timer) (fuel now : ℕ) (timers : List Timer)
    → ((c : ℕ) → registers c ≡ [])
    → sum still timers ≡ 0
    → sum (rounds now) timers < fuel
    → (calls : List ℕ) × (left : List Timer) × (process_timers registers fuel now timers
        ≡ some (calls, left))
      × (sum (due now) left ≡ 0)
unfolding process_timers
process_timers_lem registers zero now timers quiet s h = absurd (omega arith)
process_timers_lem registers (suc k) now timers quiet s h =
    elim (Option-cases (pop_top later timers)) [
      | inl e ↦ ([], timers, rw (e, process_timers) refl, due_when_empty now timers e)
      | inr ((t, rest), e) ↦
          let (p, top) = pop_top_lem later later-IsOrder timers e in
          elim (Bool-cases (leb t.deadline now)) [
            | inl late ↦
                let s' = rearm-still t rest (sym (sum-perm still p) ∙ s) in
                let fewer =
                  rearm-rounds now t rest (omega (arith, sum-perm still p)) (leb→le _ _ late) in
                let (calls, left, ends, done) =
                  process_timers_lem registers k now (rearm t rest) quiet s'
                    (omega (arith, fewer, sum-perm (rounds now) p)) in
                (
                  t.callback ∷ calls,
                  left,
                  rw (e, process_timers, late, quiet t.callback, ends) refl,
                  done,
                )
            | inr early ↦ (
              [],
              timers,
              rw (e, process_timers, early) refl,
              ground (arith, sum-perm (due now) p, not_due now t rest top),
            )
          ]
    ]
