-- ===== src/Lockfree/Queue/Steps.antt =====
-- What each move of a thread does to the trail of nodes, and to the abstract queue.
use async_toolkit.Base.{
  count, ℕ, ◌+◌, ◌-◌, ◌%◌, ◌^◌, ◌<◌, ◌≡◌, refl, sym, ap, ◌∙◌, ◌≢◌, ◌⊎◌, inl, inr, false, none, some,
  List, [], ◌∷◌, ◌++◌, arith, dec_lt,
}
use async_toolkit.Lockfree.Queue.{
  Shared, Pc, push_loop, push_cas, push_swing, pop_tail, pop_next, pop_cas, pop_count, Move,
  allocate, load_tail, load_next, tail_moved, at_end, behind, link, link_fails, push_helps,
  push_help_fails, swing, swing_fails, count_up, call_pop, load_head, pop_load_tail, pop_load_next,
  head_moved, empty, lagging, ready, unready, pop_helps, pop_help_fails, read, unlink, unlink_fails,
  count_down, delete,
}
use async_toolkit.Lockfree.Queue.Chain.{Chain, Values}
use async_toolkit.Lockfree.Queue.Invariant.{Trail, Core, Local, owned, was_head}
use async_toolkit.Lockfree.Queue.Moves

module _ {A : Type 0} where
  -- What a move of a thread from `p` to `p'` does to the abstract queue.
  abbrev pub Effect : Shared A → Pc A → Pc A → List A → List A → Type 0
  Effect s (push_cas n t) (push_swing m u) q q' =
      (v : A) × (s.content n ≡ some v) × (q' ≡ q ++ v ∷ [])
  Effect s (pop_cas h x v) (pop_count k w) q q' = (q ≡ v ∷ q') × (w ≡ v)
  Effect s (pop_tail h t) (pop_next k u x) q q' = (x ≡ 0 → q ≡ []) × (q' ≡ q)
  Effect s p p' q q' = q' ≡ q

  pub record Outcome (s : Shared A) (g : Trail A) (p : Pc A) (s' : Shared A) (p' : Pc A)
      : Type 0 where
    pub trail : Trail A
    pub core : Core s' trail
    pub mine : Local s' trail p'
    pub others :
        (q : Pc A)
        → Local s g q
        → ((n : ℕ) → owned p ≡ some n → owned q ≢ some n)
        → Local s' trail q
    pub owner :
        (n : ℕ)
        → owned p' ≡ some n
        → (owned p ≡ some n) ⊎ ((q : Pc A) → Local s g q → owned q ≢ some n)
    pub effect : Effect s p p' g.queue trail.queue

  module _ {s : Shared A} {g : Trail A} (c : Core s g) where
    -- A null successor of a node that was the head: the queue is empty.
    empty_of_null : (h : ℕ) → 0 < was_head s g h → s.next h ≡ 0 → g.queue ≡ []
    empty_of_null h was e = go g.nodes g.queue head_here c.chain c.values
      where
        head_here : s.next s.head ≡ 0
        head_here = elim (dec_lt 0 (count h g.removed)) [
          | yes gone ↦ absurd (c.left h gone e)
          | no still ↦ ground arith
        ]

        go :
            (xs : List ℕ) (q : List A)
            → s.next s.head ≡ 0
            → Chain s.next s.head xs
            → Values s.content xs q
            → q ≡ []
        go [] [] f ch vs = refl
        go [] (v ∷ q) f ch vs = absurd vs
        go (x ∷ xs) q f ch vs = absurd (omega arith)

    same :
        {p p' : Pc A}
        → Local s g p'
        → (owned p' ≡ owned p)
        → Effect s p p' g.queue g.queue
        → Outcome s g p s p'
    same l o e = record {
      trail = g;
      core = c;
      mine = l;
      others = λ q k d. k;
      owner = λ n h. inl (sym o ∙ h);
      effect = e;
    }

    -- A thread that gives up what it owned.
    lets_go :
        {p p' : Pc A}
        → Local s g p'
        → owned p' ≡ none
        → Effect s p p' g.queue g.queue
        → Outcome s g p s p'
    lets_go l o e = record {
      trail = g;
      core = c;
      mine = l;
      others = λ q k d. k;
      owner = λ n h. absurd (cc);
      effect = e;
    }

    pub Move-Outcome :
        {p p' : Pc A} {s' : Shared A} → Move false s p s' p' → Local s g p → Outcome s g p s' p'
    Move-Outcome (allocate n v pos dead unused) l = record {
      trail = g;
      core = Moves.allocated-Core c n v (unused refl);
      mine = (
        pos,
        ground arith,
        ground arith,
        ground arith,
        Moves.off_trail c n (unused refl),
        (v, ground arith),
      );
      others = λ q k d. Moves.allocated-Local c n v (unused refl) q k;
      owner = λ m e. inr (ground (arith, Moves.allocated-unowned c n (unused refl)));
      effect = refl;
    }
    Move-Outcome load_tail l = same (l, ground (arith, c.tail_behind)) refl refl
    Move-Outcome (load_next a) l = same (l.0, l.1, λ h. refl) refl refl
    Move-Outcome (tail_moved e) l = same l.0 refl refl
    Move-Outcome (at_end e f) l = same (l.0, l.1) refl refl
    Move-Outcome (behind e f) l = same (l.0, (ground arith, ground arith, l.1)) refl refl
    Move-Outcome (link {n} {t} a e) l = record {
      trail = Moves.longer c n l.0.5.0;
      core = Moves.linked-Core c l.0 l.1 e;
      mine = ground (arith, Moves.longer-count c l.0 l.1 e t);
      others = λ q k d. Moves.linked-Local c l.0 l.1 e q (d n refl) k;
      owner = λ m h. absurd (cc);
      effect = (l.0.5.0, l.0.5.1, refl);
    }
    Move-Outcome (link_fails a) l = same l.0 refl refl
    Move-Outcome (push_helps {n} {t} {x} e) l = record {
      trail = g;
      core = Moves.swung-Core c l.1 e;
      mine = Moves.swung-Local c l.1 e (push_loop n) l.0;
      others = λ q k d. Moves.swung-Local c l.1 e q k;
      owner = λ m h. inl h;
      effect = refl;
    }
    Move-Outcome push_help_fails l = same l.0 refl refl
    Move-Outcome (swing e) l = record {
      trail = g;
      core = Moves.swung-Core c l e;
      mine = tt;
      others = λ q k d. Moves.swung-Local c l e q k;
      owner = λ m h. absurd (cc);
      effect = refl;
    }
    Move-Outcome swing_fails l = same tt refl refl
    Move-Outcome count_up l = record {
      trail = g;
      core = Moves.resized-Core c _;
      mine = tt;
      others = λ q k d. Moves.resized-Local c ((s.size + 1) % 2 ^ 64) q k;
      owner = λ m h. absurd (cc);
      effect = refl;
    }
    Move-Outcome call_pop l = same tt refl refl
    Move-Outcome load_head l = same (ground arith) refl refl
    Move-Outcome (pop_load_tail {h}) l =
        same (l, ground (arith, c.tail_behind), λ d e f. d (sym f)) refl refl
    Move-Outcome (pop_load_next {h} {t} a) l =
        same (l.0, l.1, l.2, λ p. refl) refl (λ e. empty_of_null h l.0 e, refl)
    Move-Outcome (head_moved e) l = same tt refl refl
    Move-Outcome (empty e f k) l = same tt refl refl
    Move-Outcome (lagging e f k) l = same (ground arith, ground arith, l.1) refl refl
    Move-Outcome (ready {h} {t} {x} e f k) l =
        same (l.0, l.3 (omega arith), omega arith, l.2 f) refl refl
    Move-Outcome (unready e f k) l = same tt refl refl
    Move-Outcome (pop_helps e) l = record {
      trail = g;
      core = Moves.swung-Core c l e;
      mine = tt;
      others = λ q k d. Moves.swung-Local c l e q k;
      owner = λ m h. absurd (cc);
      effect = refl;
    }
    Move-Outcome pop_help_fails l = same tt refl refl
    Move-Outcome (read {h} {x} a e) l = same (l.0, l.1, l.2, l.3, e, c.allocated_used x a) refl refl
    Move-Outcome (unlink {h} {x} {v} e) l =
        let succ : s.next s.head ≡ x = ap s.next e ∙ l.1 in
        let behind : s.tail ≢ s.head = λ k. l.3 e (k ∙ e) in
        let f = Moves.at_front c succ l.2 behind in
        record {
          trail = Moves.shorter c f.nodes f.queue;
          core = Moves.unlinked-Core c succ l.2 behind;
          mine = ground (arith, c.living s.head);
          others = λ q k d. Moves.unlinked-Local c succ l.2 behind q k;
          owner = λ m k. inr (λ q local o.
              Moves.head-unowned c succ l.2 behind q local (o ∙ sym k ∙ ap some (sym e)));
          effect = (f.values ∙ ap (λ w. w ∷ f.queue) (cc (f.held, l.4)), refl);
        }
    Move-Outcome unlink_fails l = same tt refl refl
    Move-Outcome count_down l = record {
      trail = g;
      core = Moves.resized-Core c _;
      mine = l;
      others = λ q k d. Moves.resized-Local c ((s.size + 2 ^ 64 - 1) % 2 ^ 64) q k;
      owner = λ m h. inl h;
      effect = refl;
    }
    Move-Outcome (delete {h} a) l = record {
      trail = g;
      core = Moves.freed-Core c h l.0;
      mine = tt;
      others = λ q k d. Moves.freed-Local c h l.0 q (d h refl) k;
      owner = λ m e. absurd (cc);
      effect = refl;
    }
