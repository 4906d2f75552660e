-- ===== src/Lockfree/Queue/Refines.antt =====
-- Every step of every thread is a step of an abstract queue: `push` appends at its successful
-- compare-exchange, `pop` takes the front at its own, and finds the queue empty when it reads a null
-- successor.
use async_toolkit.Base.{
  ==-false, ==_iff, if◌then◌else◌, ℕ, ◌≡◌, refl, sym, ap, ◌∙◌, subst, ◌≢◌, inl, inr, true, false,
  some, List, [], arith, ℕ_discrete,
}
use async_toolkit.Lockfree.Queue.{
  Shared, System, Pc, pop_delete, update, Move, Step, by, Reach, start, later, init,
}
use async_toolkit.Lockfree.Queue.Chain.{Chain, Values}
use async_toolkit.Lockfree.Queue.Invariant.{Trail, Local, owned, Inv}
use async_toolkit.Lockfree.Queue.Steps.{Effect, Outcome, Move-Outcome}

module _ {A : Type 0} where
  -- The invariant after a step of thread `i`.
  Outcome-Inv :
      (s : System A) (g : Trail A) (i : ℕ) (m : Shared A) (p : Pc A)
      → Inv s g
      → (o : Outcome s.mem g (s.pc i) m p) → Inv (record { mem = m; pc = update s.pc i p }) o.trail
  Outcome-Inv s g i m p v o = record { core = o.core; local = local; unique = unique }
    where
      here : (j : ℕ) → j ≡ i → update s.pc i p j ≡ p
      here j e = ap (λ b. if b then p else s.pc j) ((==_iff j i).1 e)

      there : (j : ℕ) → j ≢ i → update s.pc i p j ≡ s.pc j
      there j away = ap (λ b. if b then p else s.pc j) (==-false j i away)

      local : (j : ℕ) → Local m o.trail (update s.pc i p j)
      local j = elim (ℕ_discrete j i) [
        | yes e ↦ subst (Local m o.trail) (sym (here j e)) o.mine
        | no away ↦
            subst (Local m o.trail) (sym (there j away))
              (o.others (s.pc j) (v.local j) (λ n e f. away (v.unique j i n f e)))
      ]

      fresh : (j n : ℕ) → j ≢ i → owned p ≡ some n → owned (s.pc j) ≢ some n
      fresh j n away e f = elim (o.owner n e) [
        | inl had ↦ away (v.unique j i n f had)
        | inr new ↦ new (s.pc j) (v.local j) f
      ]

      unique :
          (a b n : ℕ)
          → owned (update s.pc i p a) ≡ some n
          → owned (update s.pc i p b) ≡ some n
          → a ≡ b
      unique a b n e f = elim (ℕ_discrete a i) [
        | yes x ↦ elim (ℕ_discrete b i) [
          | yes y ↦ x ∙ sym y
          | no y ↦
              absurd (fresh b n y (ap owned (sym (here a x)) ∙ e) (ap owned (sym (there b y)) ∙ f))
        ]
        | no x ↦ elim (ℕ_discrete b i) [
          | yes y ↦
              absurd (fresh a n x (ap owned (sym (here b y)) ∙ f) (ap owned (sym (there a x)) ∙ e))
          | no y ↦ v.unique a b n (ap owned (sym (there a x)) ∙ e) (ap owned (sym (there b y)) ∙ f)
        ]
      ]

  -- Every step keeps the invariant, and acts on the queue as `Effect` says.
  Step-Inv : {s t : System A} {g : Trail A} → Inv s g → Step false s t → (g' : Trail A) × Inv t g'
  Step-Inv {s} {t} {g} v (by i mv) =
      let o = Move-Outcome v.core mv (v.local i) in (o.trail, Outcome-Inv s g i _ _ v o)

  init-Inv : Inv (init {A = A}) (record { removed = []; nodes = []; queue = [] })
  init-Inv = record {
    core = record {
      chain = refl;
      values = tt;
      once = λ a. ground arith;
      left = λ a h. ground arith;
      known = λ a h. ground arith;
      living = λ a h. ground arith;
      tail_behind = omega arith;
      head_set = omega arith;
      allocated_used = λ a h. h;
    };
    local = λ i. tt;
    unique = λ i j n e. absurd (cc);
  }

  pub Reach-Inv : {s : System A} → Reach false s → (g : Trail A) × Inv s g
  Reach-Inv start = (record { removed = []; nodes = []; queue = [] }, init-Inv)
  Reach-Inv (later r st) = Step-Inv (Reach-Inv r).1 st

  -- The queue that the shared nodes hold.
  pub Holds : Shared A → List A → Type 0
  Holds s q = (xs : List ℕ) × Chain s.next s.head xs × Values s.content xs q

  -- While no address is used twice, the nodes behind `head` hold one list of values at every moment,
  -- and each step of each thread acts on it as a queue does: the successful compare-exchange of `push`
  -- appends the value of its node, that of `pop` takes the first value, which is the one it returns, a
  -- null successor read by `pop` means that the list is empty, and every other step leaves the list.
  pub Step-Effect :
      {s : System A} {i : ℕ} {m : Shared A} {p : Pc A}
      → Reach false s
      → Move false s.mem (s.pc i) m p
      → (q q' : List A) × Holds s.mem q × Holds m q' × Effect s.mem (s.pc i) p q q'
  unfolding Holds
  Step-Effect {i} r mv =
      let (g, v) = Reach-Inv r in
      let o = Move-Outcome v.core mv (v.local i) in
      (
        g.queue,
        o.trail.queue,
        (g.nodes, v.core.chain, v.core.values),
        (o.trail.nodes, o.core.chain, o.core.values),
        o.effect,
      )

  -- While no address is used twice: of two threads about to free a node, a node that both would
  -- free makes them the same thread; and such a node is allocated, and neither the head nor the
  -- tail points to it.
  pub delete_once :
      {s : System A} (i j : ℕ) {h k : ℕ} {x y : A}
      → Reach false s
      → s.pc i ≡ pop_delete h x
      → s.pc j ≡ pop_delete k y
      → (s.mem.alive h ≡ true) × (s.mem.head ≢ h) × (s.mem.tail ≢ h) × (h ≡ k → i ≡ j)
  delete_once {s} i j {h} {k} r e f =
      let (g, v) = Reach-Inv r in
      let (gone, alive) = subst (Local s.mem g) e (v.local i) in
      (
        alive,
        λ a. ground (arith, v.core.once h),
        λ a. ground (arith, v.core.once h, v.core.tail_behind),
        λ same. v.unique i j k (ap owned e ∙ ap some same) (ap owned f),
      )
