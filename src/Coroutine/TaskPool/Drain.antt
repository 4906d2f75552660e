-- ===== src/Coroutine/TaskPool/Drain.antt =====
-- No task that `TaskPool` accepted is lost: tasks start in the order of submission, and a stopped pool is
-- drained.
use mathlib.Core.List.{append-nil, append_assoc}
use async_toolkit.Base.{
  Bool-cases, if◌then◌else◌, length, ltb, replicate, ◌==◌, ℕ, suc, ◌<◌, ◌≡◌, refl, sym, ap, ◌∙◌,
  subst, inl, inr, Bool, true, false, not, ◌||◌, List, [], ◌∷◌, ◌++◌, arith,
}
use async_toolkit.Coroutine.TaskPool.{
  TaskPool, new_pool, submit, stop_pool, wakes, work, round, Event, submits, works, stops, step,
  run,
}

-- The tasks that the calls of `submit` accept: those before the first stop.
abbrev pub accepted : Bool → List Event → List ℕ
accepted stopped [] = []
accepted stopped (submits task ∷ es) =
    if stopped then accepted stopped es else task ∷ accepted stopped es
accepted stopped (works worker ∷ es) = accepted stopped es
accepted stopped (stops ∷ es) = accepted true es

-- A worker that returned left nothing behind.
abbrev IsDone : TaskPool → Type 0
IsDone p = (w : ℕ) → p.returned w ≡ true → (p.stop ≡ true) × (p.tasks ≡ [])

-- What a round keeps: the tasks in their order, and that a returned worker left nothing behind.
record Kept (p q : TaskPool) : Type 0 where
  log : q.taken ++ q.tasks ≡ p.taken ++ p.tasks
  stop : q.stop ≡ p.stop
  threads : q.thread_count ≡ p.thread_count
  done : IsDone p → IsDone q

same : (p : TaskPool) → Kept p p
same p = record { log = refl; stop = refl; threads = refl; done = λ d. d }

work-Kept : (p : TaskPool) (w : ℕ) (ts : List ℕ) → p.tasks ≡ ts → Kept p (work p w ts)
unfolding work
work-Kept p w [] e =
    let after = record p { returned = λ v. if v == w then true else p.returned v } in
    elim (Bool-cases p.stop) [
      | inl stopped ↦
          subst (λ b. Kept p (if b then after else p)) (sym stopped)
            (record { log = refl; stop = refl; threads = refl; done = λ d v h. (stopped, e) })
      | inr open_still ↦ subst (λ b. Kept p (if b then after else p)) (sym open_still) (same p)
    ]
work-Kept p w (t ∷ ts) e = record {
  log = append_assoc p.taken (t ∷ []) ts ∙ ap (λ l. p.taken ++ l) (sym e);
  stop = refl;
  threads = refl;
  done = λ d v h. absurd (ground (arith, d v h, e));
}

round-Kept : (p : TaskPool) (w : ℕ) → Kept p (round p w)
unfolding round
round-Kept p w = elim (Bool-cases (not (ltb w p.thread_count) || p.returned w)) [
  | inl out ↦ rw (out, round) (same p)
  | inr inside ↦ elim (Bool-cases (wakes p)) [
    | inl awake ↦ rw (inside, awake) (work-Kept p w p.tasks refl)
    | inr asleep ↦ rw (inside, asleep) (same p)
  ]
]

abbrev StepKept : TaskPool → Event → TaskPool → Type 0
StepKept p e q =
    (q.taken ++ q.tasks ≡ (p.taken ++ p.tasks) ++ accepted p.stop (e ∷ []))
    × (IsDone p → IsDone q)
    × ((es : List Event)
        → accepted p.stop (e ∷ es) ≡ accepted p.stop (e ∷ []) ++ accepted q.stop es)

refused : (p : TaskPool) (task : ℕ) → p.stop ≡ true → step p (submits task) ≡ p
unfolding step submit
refused p task e = ground (arith, e)

queued :
    (p : TaskPool) (task : ℕ)
    → p.stop ≡ false
    → step p (submits task) ≡ record p { tasks = p.tasks ++ task ∷ [] }
unfolding step submit
queued p task e = ground (arith, e)

accepted_stopped :
    (b : Bool) (task : ℕ) (es : List Event)
    → b ≡ true
    → accepted b (submits task ∷ es) ≡ accepted b es
accepted_stopped b task es e = rw e refl

accepted_open :
    (b : Bool) (task : ℕ) (es : List Event)
    → b ≡ false
    → accepted b (submits task ∷ es) ≡ task ∷ accepted b es
accepted_open b task es e = rw e refl

step-Kept : (p : TaskPool) (e : Event) → StepKept p e (step p e)
unfolding step stop_pool
step-Kept p (submits task) = elim (Bool-cases p.stop) [
  | inl stopped ↦ subst (StepKept p (submits task)) (sym (refused p task stopped)) (
    sym (
        ap (λ l. (p.taken ++ p.tasks) ++ l) (accepted_stopped p.stop task [] stopped)
        ∙ append-nil _),
    λ d. d,
    λ es.
        accepted_stopped p.stop task es stopped
        ∙ sym (ap (λ l. l ++ accepted p.stop es) (accepted_stopped p.stop task [] stopped)),
  )
  | inr open_still ↦ subst (StepKept p (submits task)) (sym (queued p task open_still)) (
    sym (
        ap (λ l. (p.taken ++ p.tasks) ++ l) (accepted_open p.stop task [] open_still)
        ∙ append_assoc p.taken p.tasks (task ∷ [])),
    λ d w h. absurd (ground (arith, d w h, open_still)),
    λ es.
        accepted_open p.stop task es open_still
        ∙ sym (ap (λ l. l ++ accepted p.stop es) (accepted_open p.stop task [] open_still)),
  )
]
step-Kept p (works w) =
    let k = round-Kept p w in
    (k.log ∙ sym (append-nil _), k.done, λ es. ap (λ b. accepted b es) (sym k.stop))
step-Kept p stops = (sym (append-nil _), (λ d w h. (refl, (d w h).1)), λ es. refl)

run-Kept :
    (p : TaskPool) (es : List Event)
    → ((run p es).taken ++ (run p es).tasks ≡ (p.taken ++ p.tasks) ++ accepted p.stop es)
      × (IsDone p → IsDone (run p es))
unfolding run
run-Kept p [] = (sym (append-nil _), λ d. d)
run-Kept p (e ∷ es) =
    let (log, done, more) = step-Kept p e in
    let (logs, dones) = run-Kept (step p e) es in
    (
      logs
          ∙ ap (λ l. l ++ accepted (step p e).stop es) log
          ∙ append_assoc (p.taken ++ p.tasks) (accepted p.stop (e ∷ [])) _
          ∙ ap (λ l. (p.taken ++ p.tasks) ++ l) (sym (more es)),
      λ d. dones (done d),
    )

-- In every history of a new pool: the tasks that workers took, followed by those in the queue, are the
-- tasks of the accepted calls of `submit` in their order, and once a worker has left its loop all of
-- these have been taken.
pub run-in_order :
    (thread_count : ℕ) (es : List Event)
    → let p = run (new_pool thread_count) es in
      (p.taken ++ p.tasks ≡ accepted false es)
      × ((w : ℕ) → p.returned w ≡ true → (p.stop ≡ true) × (p.taken ≡ accepted false es))
run-in_order n es =
    let p = run (new_pool n) es in
    let (log, done) = run-Kept (new_pool n) es in
    (
      log,
      λ w h.
          let (stopped, empty) = done (λ v e. absurd (cc)) w h in
          (stopped, sym (append-nil _) ∙ ap (λ l. p.taken ++ l) (sym empty) ∙ log),
    )

abbrev IsStopping : TaskPool → ℕ → Type 0
IsStopping p w = (p.stop ≡ true) × (w < p.thread_count) × (p.returned w ≡ false)

round_takes :
    (p : TaskPool) (w t : ℕ) (ts : List ℕ)
    → IsStopping p w
    → p.tasks ≡ t ∷ ts
    → round p w ≡ record p { tasks = ts; taken = p.taken ++ t ∷ [] }
unfolding round work wakes
round_takes p w t ts (a, b, c) e = ground (arith, a, b, c, e)

round_leaves :
    (p : TaskPool) (w : ℕ)
    → IsStopping p w
    → p.tasks ≡ []
    → ((round p w).taken ≡ p.taken) × ((round p w).tasks ≡ []) × ((round p w).returned w ≡ true)
unfolding round work wakes
round_leaves p w (a, b, c) e = ground (arith, a, b, c, e)

drains :
    (p : TaskPool) (w : ℕ) (ts : List ℕ)
    → IsStopping p w
    → p.tasks ≡ ts
    → let q = run p (replicate (suc (length ts)) (works w)) in
      (q.taken ≡ p.taken ++ ts) × (q.tasks ≡ []) × (q.returned w ≡ true)
unfolding run step
drains p w [] s e =
    let (taken, empty, out) = round_leaves p w s e in (taken ∙ sym (append-nil _), empty, out)
drains p w (t ∷ ts) s e =
    let p' = record p { tasks = ts; taken = p.taken ++ t ∷ [] } in
    let (taken, empty, out) = drains p' w ts s refl in
    subst
      (λ r.
        let q = run r (replicate (suc (length ts)) (works w)) in
        (q.taken ≡ p.taken ++ t ∷ ts) × (q.tasks ≡ []) × (q.returned w ≡ true))
      (sym (round_takes p w t ts s e)) (taken ∙ append_assoc p.taken (t ∷ []) ts, empty, out)

-- A worker of a stopped pool that is still in its loop takes all queued tasks in order in as many rounds, and
-- leaves its loop in the next one.
pub stopped_drains :
    (p : TaskPool) (w : ℕ)
    → p.stop ≡ true
    → w < p.thread_count
    → p.returned w ≡ false
    → let q = run p (replicate (suc (length p.tasks)) (works w)) in
      (q.taken ≡ p.taken ++ p.tasks) × (q.tasks ≡ []) × (q.returned w ≡ true)
stopped_drains p w stopped mine inside = drains p w p.tasks (stopped, mine, inside) refl
