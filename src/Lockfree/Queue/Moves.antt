-- ===== src/Lockfree/Queue/Moves.antt =====
-- The six kinds of writes to shared memory keep the trail, and what every other thread knows of it.
use async_toolkit.Base.{
  count, count-append, if◌then◌else◌, ◌==◌, ℕ, ◌+◌, ◌<◌, ◌≡◌, refl, ap, subst, ◌≢◌, true, false,
  some, List, [], ◌∷◌, ◌++◌, arith, dec_lt,
}
use async_toolkit.Lockfree.Queue.{
  Shared, Pc, idle, push_loop, push_tail, push_next, push_cas, push_help, push_swing, pop_tail,
  pop_next, pop_help, update,
}
use async_toolkit.Lockfree.Queue.Chain.{
  Chain, Values, Chain-link, Chain-frame, Chain-successor, Values-snoc, Values-frame,
}
use async_toolkit.Lockfree.Queue.Invariant.{Trail, Core, Local, owned, on_trail, Pending, Follows}

module _ {A : Type 0} {s : Shared A} {g : Trail A} (c : Core s g) where
  -- `new`, at an address that was never used.
  abbrev pub allocated : ℕ → A → Shared A
  allocated n v = record s {
    next = update s.next n 0;
    content = update s.content n (some v);
    alive = update s.alive n true;
    used = update s.used n true;
  }

  -- A node that was never used is on no trail.
  pub off_trail : (n : ℕ) → s.used n ≡ false → on_trail s g n ≡ 0
  off_trail n u = elim (dec_lt 0 (on_trail s g n)) [
    | yes on ↦ absurd (ground (arith, c.known n))
    | no off ↦ omega arith
  ]

  pub allocated-Core : (n : ℕ) (v : A) → s.used n ≡ false → Core (allocated n v) g
  allocated-Core n v u = record {
    chain = Chain-frame s.next s.head g.nodes n 0 c.chain (omega (arith, off_trail n u));
    values =
        Values-frame s.content g.nodes g.queue n (some v) c.values (omega (arith, off_trail n u));
    once = c.once;
    left = λ a h. ground (arith, c.left a, off_trail n u);
    known = λ a h. ground (arith, c.known a);
    living = λ a h. ground (arith, c.living a);
    tail_behind = c.tail_behind;
    head_set = c.head_set;
    allocated_used = λ a h. ground (arith, c.allocated_used a);
  }

  pub allocated-Local :
      (n : ℕ) (v : A) → s.used n ≡ false → (p : Pc A) → Local s g p → Local (allocated n v) g p
  allocated-Local n v u idle l = tt
  allocated-Local n v u p l = ground (arith, off_trail n u)

  -- Nobody owns an address that was never used.
  pub allocated-unowned : (n : ℕ) → s.used n ≡ false → (p : Pc A) → Local s g p → owned p ≢ some n
  allocated-unowned n u idle l = λ e. cc
  allocated-unowned n u p l = λ e. ground (arith, off_trail n u)

  -- `n` is linked behind `t`.
  abbrev pub linked : ℕ → ℕ → Shared A
  linked t n = record s { next = update s.next t n }

  abbrev pub longer : ℕ → A → Trail A
  longer n v = record g { nodes = g.nodes ++ n ∷ []; queue = g.queue ++ v ∷ [] }

  module _ {t n : ℕ} (new : Pending s g n) (on : 0 < on_trail s g t) (end : s.next t ≡ 0) where
    pub longer-count :
        (a : ℕ) → count a (g.nodes ++ n ∷ []) ≡ count a g.nodes + (if n == a then 1 else 0)
    longer-count a = omega (arith, count-append a g.nodes (n ∷ []))

    last : 0 < count t (s.head ∷ g.nodes)
    last = elim (dec_lt 0 (count t g.removed)) [
      | yes gone ↦ absurd (c.left t gone end)
      | no still ↦ omega arith
    ]

    pub linked-Core : Core (linked t n) (longer n new.5.0)
    linked-Core = record {
      chain =
          Chain-link s.next s.head g.nodes t n c.chain last end new.0 new.3 (omega (arith, new.4));
      values = Values-snoc s.content g.nodes g.queue n new.5.0 c.values new.5.1;
      once = λ a. ground (arith, c.once a, longer-count a, new);
      left = λ a h. ground (arith, c.left a, new);
      known = λ a h. ground (arith, c.known a, longer-count a, new);
      living = λ a h. ground (arith, c.living a, longer-count a, new);
      tail_behind = ground (arith, c.tail_behind, longer-count s.tail);
      head_set = c.head_set;
      allocated_used = c.allocated_used;
    }

    pub linked-Local :
        (p : Pc A) → owned p ≢ some n → Local s g p → Local (linked t n) (longer n new.5.0) p
    linked-Local idle o l = tt
    linked-Local (push_loop m) o l = ground (arith, longer-count m, on, end)
    linked-Local (push_tail m u) o l = ground (arith, longer-count m, longer-count u, on, end)
    linked-Local (push_next m u x) o l = ground (arith, longer-count m, longer-count u, on, end)
    linked-Local (push_cas m u) o l = ground (arith, longer-count m, longer-count u, on, end)
    linked-Local (push_help m u x) o l = ground (arith, longer-count m, longer-count u, on, end)
    linked-Local (push_swing m u) o l = ground (arith, longer-count u, on, end)
    linked-Local (pop_tail h u) o l = ground (arith, longer-count u, on, end)
    linked-Local (pop_next h u x) o l = ground (arith, longer-count u, on, end)
    linked-Local (pop_help u x) o l = ground (arith, longer-count u, on, end)
    linked-Local p o l = ground (arith, on, end)

  -- The tail moves from `t` to its successor `x`.
  abbrev pub swung : ℕ → Shared A
  swung x = record s { tail = x }

  module _ {t x : ℕ} (f : Follows s g t x) (here : s.tail ≡ t) where
    behind_head : 0 < count x g.nodes
    behind_head =
        Chain-successor s.next s.head g.nodes t x c.chain
          (subst (λ a. 0 < count a (s.head ∷ g.nodes)) here c.tail_behind) f.0 f.1

    pub swung-Core : Core (swung x) g
    swung-Core = record {
      chain = c.chain;
      values = c.values;
      once = c.once;
      left = c.left;
      known = c.known;
      living = c.living;
      tail_behind = omega (arith, behind_head);
      head_set = c.head_set;
      allocated_used = c.allocated_used;
    }

    pub swung-Local : (p : Pc A) → Local s g p → Local (swung x) g p
    swung-Local idle l = tt
    swung-Local p l = ground (arith, behind_head, c.once x)

  -- The head moves from `h` to its successor `x`, which becomes the dummy.
  abbrev pub unlinked : ℕ → Shared A
  unlinked x = record s { head = x }

  abbrev pub shorter : List ℕ → List A → Trail A
  shorter xs q = record { removed = s.head ∷ g.removed; nodes = xs; queue = q }

  -- The parts of the trail once it is known that the head has a successor.
  pub record Front (x : ℕ) : Type 0 where
    pub nodes : List ℕ
    pub value : A
    pub queue : List A
    pub split : g.nodes ≡ x ∷ nodes
    pub values : g.queue ≡ value ∷ queue
    pub held : s.content x ≡ some value
    pub rest : Values s.content nodes queue
    pub chain : Chain s.next x nodes

  front :
      (x : ℕ) (xs : List ℕ) (q : List A)
      → g.nodes ≡ xs
      → g.queue ≡ q
      → s.next s.head ≡ x
      → 0 < x
      → Chain s.next s.head xs
      → Values s.content xs q
      → Front x
  front x [] q e f n pos ch vs = absurd (omega arith)
  front x (y ∷ xs) [] e f n pos ch vs = absurd vs
  front x (y ∷ xs) (v ∷ q) e f n pos ch vs =
      let same : y ≡ x = omega arith in
      record {
        nodes = xs;
        value = v;
        queue = q;
        split = subst (λ z. g.nodes ≡ z ∷ xs) same e;
        values = f;
        held = subst (λ z. s.content z ≡ some v) same vs.0;
        rest = vs.1;
        chain = subst (λ z. Chain s.next z xs) same ch.2;
      }

  module _ {x : ℕ} (succ : s.next s.head ≡ x) (pos : 0 < x) (behind : s.tail ≢ s.head) where
    pub at_front : Front x
    at_front = front x g.nodes g.queue refl refl succ pos c.chain c.values

    split_count : (a : ℕ) → count a g.nodes ≡ (if x == a then 1 else 0) + count a at_front.nodes
    split_count a = ap (count a) at_front.split

    pub unlinked-Core : Core (unlinked x) (shorter at_front.nodes at_front.queue)
    unlinked-Core = record {
      chain = at_front.chain;
      values = at_front.rest;
      once = λ a. ground (arith, c.once a, split_count a);
      left = λ a h. ground (arith, c.left a, succ, pos);
      known = λ a h. ground (arith, c.known a, split_count a);
      living = λ a h. ground (arith, c.living a, split_count a);
      tail_behind = ground (arith, c.tail_behind, split_count s.tail, behind);
      head_set = pos;
      allocated_used = c.allocated_used;
    }

    pub unlinked-Local :
        (p : Pc A) → Local s g p → Local (unlinked x) (shorter at_front.nodes at_front.queue) p
    unlinked-Local (push_loop m) l = ground (arith, split_count m)
    unlinked-Local (push_tail m u) l = ground (arith, split_count m, split_count u)
    unlinked-Local (push_next m u y) l = ground (arith, split_count m, split_count u)
    unlinked-Local (push_cas m u) l = ground (arith, split_count m, split_count u)
    unlinked-Local (push_help m u y) l = ground (arith, split_count m, split_count u)
    unlinked-Local (push_swing m u) l = ground (arith, split_count u)
    unlinked-Local (pop_tail h u) l = ground (arith, split_count u, split_count x, c.once x)
    unlinked-Local (pop_next h u y) l = ground (arith, split_count u, split_count x, c.once x)
    unlinked-Local (pop_help u y) l = ground (arith, split_count u)
    unlinked-Local p l = ground (arith, split_count x, c.once x)

    -- Nobody owns the head, so nobody else will free it.
    pub head-unowned : (p : Pc A) → Local s g p → owned p ≢ some s.head
    head-unowned idle l = λ e. cc
    head-unowned p l = λ e. ground (arith, c.once s.head)

  abbrev pub resized : ℕ → Shared A
  resized k = record s { size = k }

  pub resized-Core : (k : ℕ) → Core (resized k) g
  resized-Core k = record {
    chain = c.chain;
    values = c.values;
    once = c.once;
    left = c.left;
    known = c.known;
    living = c.living;
    tail_behind = c.tail_behind;
    head_set = c.head_set;
    allocated_used = c.allocated_used;
  }

  pub resized-Local : (k : ℕ) (p : Pc A) → Local s g p → Local (resized k) g p
  resized-Local k idle l = l
  resized-Local k p l = l

  -- `delete`, of a node that the head has left.
  abbrev pub freed : ℕ → Shared A
  freed h = record s { alive = update s.alive h false }

  module _ (h : ℕ) (gone : 0 < count h g.removed) where
    pub freed-Core : Core (freed h) g
    freed-Core = record {
      chain = c.chain;
      values = c.values;
      once = c.once;
      left = c.left;
      known = c.known;
      living = λ a on. ground (arith, c.living a, c.once a);
      tail_behind = c.tail_behind;
      head_set = c.head_set;
      allocated_used = λ a on. ground (arith, c.allocated_used a);
    }

    pub freed-Local : (p : Pc A) → owned p ≢ some h → Local s g p → Local (freed h) g p
    freed-Local idle o l = tt
    freed-Local p o l = ground (arith, gone)
