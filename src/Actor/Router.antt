-- ===== src/Actor/Router.antt =====
-- `RoundRobinRouter`, `Supervisor` and `ActorSystem` of include/async_toolkit/actor/actor.hpp.
use mathlib.Core.Option
use native.Mathlib.Nat.{mod-lt}
use async_toolkit.Base.{
  count, get_elem?, get_elem?-some, if◌then◌else◌, leb, length, length-set, ltb, set, ◌==◌, ◌>>=◌,
  ℕ, zero, suc, ◌+◌, ◌-◌, ◌%◌, ◌^◌, ◌<◌, ◌≡◌, refl, sym, ap, ◌∙◌, ◌&&◌, Option, none, some, List,
  [], ◌∷◌, ◌++◌, arith,
}
use async_toolkit.Actor.{Actor, Message, tell}
use async_toolkit.Rpc.Balancer.{round_robin_select}
use async_toolkit.Rpc.Balancer.RoundRobin.{select_all, select_all-fair}

-- `route`, with `current_`: `none` is the remainder by zero of a router with no routees.
unfoldable pub route : List Actor → (current : ℕ) → Message → Option (List Actor × ℕ)
route [] current m = none
route (r ∷ rs) current m =
    let index = current % length (r ∷ rs) in
    Option.map (λ a. (set (r ∷ rs) index (tell a m), (current + 1) % 2 ^ 64))
      (get_elem? (r ∷ rs) index)

-- Calls of `route` in a row.
unfoldable pub route_all : List Actor → (current : ℕ) → List Message → Option (List Actor × ℕ)
unfolding route
route_all rs current [] = some (rs, current)
route_all rs current (m ∷ ms) = route rs current m >>= λ (rs', next). route_all rs' next ms

-- `Supervisor`: `supervised_` maps actors to strategies; `none` is a failure that no strategy is called for.
unfoldable pub supervise : List (ℕ × ℕ) → (actor strategy : ℕ) → List (ℕ × ℕ)
supervise [] actor strategy = (actor, strategy) ∷ []
supervise ((a, s) ∷ ss) actor strategy =
    if a == actor then (a, strategy) ∷ ss else (a, s) ∷ supervise ss actor strategy

unfoldable pub handle_failure : List (ℕ × ℕ) → (actor : ℕ) → Option ℕ
handle_failure [] actor = none
handle_failure ((a, s) ∷ ss) actor = if a == actor then some s else handle_failure ss actor

-- `ActorSystem`: the actors that it keeps alive.
unfoldable pub spawn_actor : List ℕ → (actor : ℕ) → List ℕ
spawn_actor actors actor = actors ++ actor ∷ []

unfoldable pub shutdown : List ℕ → List ℕ
shutdown actors = []

-- The strategy that was last given for an actor is called, and those of other actors stay.
pub handle_failure-supervise :
    (ss : List (ℕ × ℕ)) (actor strategy a : ℕ)
    → handle_failure (supervise ss actor strategy) a
      ≡ (if actor == a then some strategy else handle_failure ss a)
unfolding handle_failure supervise
handle_failure-supervise [] actor strategy a = refl
handle_failure-supervise ((b, s) ∷ ss) actor strategy a =
    ground (arith, handle_failure-supervise ss actor strategy a)

-- The indices of `n` routees from `i` on.
abbrev pub indices : (n i : ℕ) → List ℕ
indices zero i = []
indices (suc n) i = i ∷ indices n (i + 1)

abbrev put : List Actor → ℕ → Message → Option Actor → List Actor
put rs i m none = rs
put rs i m (some a) = set rs i (tell a m)

-- The routee with this index is told the message.
abbrev pub tell_at : List Actor → ℕ → Message → List Actor
tell_at rs i m = put rs i m (get_elem? rs i)

-- The messages go to the routees with these indices.
abbrev pub tell_each : List Actor → List ℕ → List Message → List Actor
tell_each rs (i ∷ is) (m ∷ ms) = tell_each (tell_at rs i m) is ms
tell_each rs [] ms = rs
tell_each rs (i ∷ is) [] = rs

length-indices : (n i : ℕ) → length (indices n i) ≡ n
length-indices zero i = refl
length-indices (suc n) i = ap suc (length-indices n (i + 1))

get_elem?-indices : (n i k : ℕ) → k < n → get_elem? (indices n i) k ≡ some (i + k)
get_elem?-indices zero i k h = absurd (omega arith)
get_elem?-indices (suc n) i zero h = ap some (omega arith)
get_elem?-indices (suc n) i (suc k) h =
    get_elem?-indices n (i + 1) k (omega arith) ∙ ap some (omega arith)

count-indices : (n i a : ℕ) → count a (indices n i) ≡ (if leb i a && ltb a (i + n) then 1 else 0)
count-indices zero i a = ground arith
count-indices (suc n) i a = ground (arith, count-indices n (i + 1) a)

-- The router picks the routee whose index the balancer of rpc/ picks.
selects : (c n : ℕ) → round_robin_select c (indices (suc n) 0) ≡ some (c % suc n, (c + 1) % 2 ^ 64)
unfolding round_robin_select
selects c n =
    let size = length-indices n 1 in
    rw size (
      ap (Option.map (λ i. (i, (c + 1) % 2 ^ 64)))
        (get_elem?-indices (suc n) 0 (c % suc n) (mod-lt c (omega arith)) ∙ ap some (omega arith)))

routes :
    (rs : List Actor) (c : ℕ) (m : Message)
    → 0 < length rs
    → route rs c m ≡ some (tell_at rs (c % length rs) m, (c + 1) % 2 ^ 64)
unfolding route
routes [] c m h = absurd (omega arith)
routes (r ∷ rs) c m h =
    let (a, e) = get_elem?-some (r ∷ rs) (c % length (r ∷ rs)) (mod-lt c (omega arith)) in
    let index = c % length (r ∷ rs) in
    ap (Option.map (λ b. (set (r ∷ rs) index (tell b m), (c + 1) % 2 ^ 64))) e
    ∙ ap (λ o. some (put (r ∷ rs) index m o, (c + 1) % 2 ^ 64)) (sym e)

length-put :
    (rs : List Actor) (i : ℕ) (m : Message) (o : Option Actor) → length (put rs i m o) ≡ length rs
length-put rs i m none = refl
length-put rs i m (some a) = length-set rs i (tell a m)

both :
    (n : ℕ) (rs : List Actor) (c : ℕ) (ms : List Message)
    → length rs ≡ suc n
    → (sel : List ℕ) × (d : ℕ) × (select_all (length ms) c (indices (suc n) 0) ≡ some (sel, d))
      × (route_all rs c ms ≡ some (tell_each rs sel ms, d))
unfolding select_all route_all
both n rs c [] h = ([], c, refl, refl)
both n rs c (m ∷ ms) h =
    let next = (c + 1) % 2 ^ 64 in
    let rs' = tell_at rs (c % suc n) m in
    let first : route rs c m ≡ some (rs', next) =
      routes rs c m (omega (arith, h)) ∙ ap (λ k. some (tell_at rs (c % k) m, next)) h in
    let (sel, d, s, r) =
      both n rs' next ms (length-put rs (c % suc n) m (get_elem? rs (c % suc n)) ∙ h) in
    ((c % suc n) ∷ sel, d, rw (selects c n, s) refl, rw first r)

-- As many messages as there are routees, routed one after the other while the counter of 64 bits does not wrap,
-- go to routees of which each is picked exactly once; the counter is then further by their number.
pub route_all-fair :
    (rs : List Actor) (c : ℕ) (ms : List Message)
    → 0 < length rs
    → length ms ≡ length rs
    → c + length rs < 2 ^ 64
    → (picked : List ℕ) × (route_all rs c ms ≡ some (tell_each rs picked ms, c + length rs))
      × ((i : ℕ) → count i picked ≡ (if ltb i (length rs) then 1 else 0))
route_all-fair rs c ms some_routee same small =
    let n = length rs - 1 in
    let size : length rs ≡ suc n = omega arith in
    let (sel, d, s, r) = both n rs c ms size in
    let long : length (indices (suc n) 0) ≡ suc n = length-indices (suc n) 0 in
    let (fair, f, counts) = select_all-fair c 0 (indices n 1) (omega (arith, long)) in
    let f' : select_all (length ms) c (indices (suc n) 0) ≡ some (fair, c + suc n) =
      ap (λ k. select_all k c (indices (suc n) 0)) (omega (arith, long))
      ∙ f
      ∙ ap (λ k. some (fair, c + k)) long in
    let sel_fair : sel ≡ fair = ground (arith, sym s ∙ f') in
    let d_fair : d ≡ c + suc n = ground (arith, sym s ∙ f') in
    (
      sel,
      r ∙ ap (λ k. some (tell_each rs sel ms, k)) (omega (arith, d_fair, size)),
      λ i. ap (count i) sel_fair ∙ counts i ∙ count-indices (suc n) 0 i ∙ ground (arith, size),
    )
