-- ===== src/Tests/Tasks.antt =====
-- The task pool, the actor, the router and the vectors at concrete inputs.
use async_toolkit.Base.{
  count, if◌then◌else◌, ltb, replicate, ◌==◌, ℕ, ◌+◌, ◌-◌, ◌*◌, ◌<◌, ◌≡◌, refl, Bool, true, false,
  some, List, [], ◌∷◌, ◌++◌, arith,
}
use async_toolkit.Coroutine.TaskPool.{TaskPool, new_pool, Event, submits, works, stops, run}
use async_toolkit.Coroutine.TaskPool.Drain.{accepted, run-in_order, stopped_drains}
use async_toolkit.Actor.{Message, message, Actor, new_actor}
use async_toolkit.Actor
use async_toolkit.Actor.Delivery
use async_toolkit.Actor.Router.{route_all, tell_each, route_all-fair}
use async_toolkit.Simd.{Target, is_float4, add_assign, sub_assign, mul_assign, abs}
use async_toolkit.Simd.Lanes.{IsLanewise, IsDocumented, operators_lem}

abbrev events : List Event
events = submits 1 ∷ submits 2 ∷ works 0 ∷ stops ∷ submits 3 ∷ works 1 ∷ works 1 ∷ []

run-in_order_example :
    let p = run (new_pool 2) events in
    (p.taken ++ p.tasks ≡ accepted false events)
    × ((w : ℕ) → p.returned w ≡ true → (p.stop ≡ true) × (p.taken ≡ accepted false events))
run-in_order_example = run-in_order 2 events

abbrev stopped : TaskPool
stopped = record (new_pool 2) { tasks = 4 ∷ 5 ∷ []; stop = true }

stopped_drains_example :
    let q = run stopped (replicate 3 (works 1)) in
    (q.taken ≡ 4 ∷ 5 ∷ []) × (q.tasks ≡ []) × (q.returned 1 ≡ true)
stopped_drains_example = stopped_drains stopped 1 refl (omega arith) refl

-- Function 9 throws.
abbrev throws : ℕ → ℕ → Bool
throws function content = function == 9

abbrev history : List Actor.Event
history =
    Actor.registers 1 9
    ∷ Actor.tells 1 5 0
    ∷ Actor.tells 2 6 0
    ∷ Actor.tells 1 7 0
    ∷ Actor.processes
    ∷ Actor.registers 1 8
    ∷ []

abbrev routees : List Actor.Actor
routees = new_actor 1 ∷ new_actor 1 ∷ []

abbrev messages : List Message
messages = message 1 5 0 ∷ message 1 6 0 ∷ []

route_all-fair_example :
    (picked : List ℕ) × (route_all routees 3 messages ≡ some (tell_each routees picked messages, 5))
    × ((i : ℕ) → count i picked ≡ (if ltb i 2 then 1 else 0))
route_all-fair_example = route_all-fair routees 3 messages (omega arith) refl (omega arith)

abbrev lanes : (ℕ → ℕ → ℕ) → (ℕ → ℕ) → (ℕ → ℕ) → ℕ → ℕ
lanes op a b i = op (a i) (b i)

-- Exact numbers without a sign, and SSE.
abbrev target : Target ℕ
target = record {
  zero_value = 0;
  add = λ a b. a + b;
  sub = λ a b. a - b;
  mul = λ a b. a * b;
  absolute = λ a. a;
  sse = true;
  sse2 = false;
  mm_add_ps = lanes (λ a b. a + b);
  mm_sub_ps = lanes (λ a b. a - b);
  mm_mul_ps = lanes (λ a b. a * b);
  mm_add_pd = lanes (λ a b. a + b);
  mm_sub_pd = lanes (λ a b. a - b);
  mm_mul_pd = lanes (λ a b. a * b);
}

target-IsDocumented : IsDocumented target
target-IsDocumented = record {
  add_ps = λ a b i h. refl;
  sub_ps = λ a b i h. refl;
  mul_ps = λ a b i h. refl;
  add_pd = λ a b i h. refl;
  sub_pd = λ a b i h. refl;
  mul_pd = λ a b i h. refl;
}

operators_lem_example :
    IsLanewise 4 (add_assign target is_float4 4) target.add
    × IsLanewise 4 (sub_assign target is_float4 4) target.sub
    × IsLanewise 4 (mul_assign target is_float4 4) target.mul
    × ((v r : ℕ → ℕ) (i : ℕ) → i < 4 → abs target 4 v r i ≡ target.absolute (v i))
operators_lem_example = operators_lem target is_float4 4 target-IsDocumented refl
