-- ===== src/Lockfree/SkipList/Runs.antt =====
-- Calls of a skip list whose new nodes all get level 1 act on a map.
use async_toolkit.Base.{
  length, if◌then◌else◌, ◌==◌, ℕ, suc, ◌+◌, ◌<◌, ◌≡◌, refl, ◌∙◌, Bool, true, false, Option, none,
  some, List, [], ◌∷◌, arith,
}
use async_toolkit.Lockfree.SkipList.{Ends, done, ◌>>=◌, SkipList, new_list, insert, find, remove}
use async_toolkit.Lockfree.SkipList.Lookup.{lookup}
use async_toolkit.Lockfree.SkipList.Flat.{Inv, Leaves, find_flat}
use async_toolkit.Lockfree.SkipList.Calls.{insert_flat, remove_flat}

-- The calls; the level drawn for a new node is 1.
pub data Call (V : Type 0) : Type 0 where
  inserts : (key : ℕ) → V → Call V
  removes : (key : ℕ) → Call V
  finds : (key : ℕ) → Call V

pub data Answer (V : Type 0) : Type 0 where
  inserted : Bool → Answer V
  removed : Bool → Answer V
  found : Option V → Answer V

module _ {V : Type 0} where
  unfoldable pub step : (fuel : ℕ) → SkipList V → Call V → Ends (Answer V × SkipList V)
  unfolding insert remove find
  step fuel s (inserts key value) = insert fuel s 1 key value >>= λ (b, r). done (inserted b, r)
  step fuel s (removes key) = remove fuel s key >>= λ (b, r). done (removed b, r)
  step fuel s (finds key) = find fuel s key >>= λ o. done (found o, s)

  -- The answers of the calls and the list after them.
  unfoldable pub run : (fuel : ℕ) → SkipList V → List (Call V) → Ends (List (Answer V) × SkipList V)
  unfolding step
  run fuel s [] = done ([], s)
  run fuel s (c ∷ cs) = step fuel s c >>= λ (answer, r).
      run fuel r cs >>= λ (answers, last). done (answer ∷ answers, last)

  -- The map.
  abbrev pub spec_step : (ℕ → Option V) → Call V → Answer V × (ℕ → Option V)
  spec_step m (inserts key value) = (inserted true, λ j. if key == j then some value else m j)
  spec_step m (removes key) =
      (removed (elim (m key) [ none ↦ false | some v ↦ true ]), λ j. if key == j then none else m j)
  spec_step m (finds key) = (found (m key), m)

  abbrev pub spec_run : (ℕ → Option V) → List (Call V) → List (Answer V) × (ℕ → Option V)
  spec_run m [] = ([], m)
  spec_run m (c ∷ cs) =
      let (answer, m') = spec_step m c in
      let (answers, last) = spec_run m' cs in (answer ∷ answers, last)

  step_lem :
      (fuel : ℕ) (s : SkipList V) (xs : List ℕ) (m : ℕ → Option V) (c : Call V)
      → Inv s xs
      → length xs < fuel
      → ((j : ℕ) → lookup s.key s.value j xs ≡ m j)
      → (r : SkipList V) × (step fuel s c ≡ done ((spec_step m c).0, r))
        × Leaves r (suc (length xs)) (spec_step m c).1
  unfolding step
  step_lem fuel s xs m (inserts key value) v h same =
      let (r, e, (ys, w, small, now)) = insert_flat fuel s key value xs v h in
      (r, rw e refl, (ys, w, small, λ j. now j ∙ rw (same j) refl))
  step_lem fuel s xs m (removes key) v h same =
      let (r, e, (ys, w, small, now)) = remove_flat fuel s key xs v h in
      (r, rw (e, same key) refl, (ys, w, small, λ j. now j ∙ rw (same j) refl))
  step_lem fuel s xs m (finds key) v h same =
      (s, rw (find_flat fuel s key xs v h, same key) refl, (xs, v, omega arith, same))

  run_lem :
      (fuel : ℕ) (s : SkipList V) (xs : List ℕ) (m : ℕ → Option V) (cs : List (Call V))
      → Inv s xs
      → length xs + length cs < fuel
      → ((j : ℕ) → lookup s.key s.value j xs ≡ m j)
      → (r : SkipList V) × (run fuel s cs ≡ done ((spec_run m cs).0, r))
        × ((ys : List ℕ) × Inv r ys × ((j : ℕ) → lookup r.key r.value j ys ≡ (spec_run m cs).1 j))
  unfolding run
  run_lem fuel s xs m [] v h same = (s, refl, (xs, v, same))
  run_lem fuel s xs m (c ∷ cs) v h same =
      let (r, e, (ys, w, small, now)) = step_lem fuel s xs m c v (omega arith) same in
      let (z, f, rest) = run_lem fuel r ys (spec_step m c).1 cs w (omega arith) now in
      (z, rw (e, f) refl, rest)

  -- Any sequence of `insert`, `remove` and `find` on a new list where every new node gets level 1: all calls
  -- return with no null pointer read, each in a walk of at most as many steps as there are calls, and answer
  -- what a map answers; the list keeps level 1.
  pub skip_list_run-refines :
      (blank : V) (fuel : ℕ) (cs : List (Call V))
      → length cs < fuel
      → (r : SkipList V) × (run fuel (new_list blank) cs ≡ done ((spec_run (λ j. none) cs).0, r))
        × (r.current_level ≡ 1)
  skip_list_run-refines blank fuel cs h =
      let (r, e, (ys, w, now)) =
        run_lem fuel (new_list blank) [] (λ j. none) cs
          (record {
            chain = refl;
            keys = tt;
            level = refl;
            head_off = refl;
            head_set = omega arith;
            head_old = omega arith;
            old = λ a i. absurd (omega arith);
            live = λ a i. refl;
          })
          (omega arith) (λ j. refl) in
      (r, e, w.level)
