-- ===== src/Logging/Order.antt =====
-- No message is lost, and all are written in the order in which the queue took them.
use mathlib.Core.List.{append_assoc, append-nil}
use async_toolkit.Base.{
  ==_iff, Bool-cases, if◌then◌else◌, leb, length, length-append, ltb, ◌==◌, ℕ, zero, suc, ◌+◌, ◌*◌,
  ◌<◌, ◌≡◌, refl, sym, ap, ◌∙◌, subst, inl, inr, Bool, true, false, not, ◌||◌, Option, some, List,
  [], ◌∷◌, ◌++◌, arith,
}
use async_toolkit.Logging.{
  AsyncLogger, rotate_log_file, write_batch, new_logger, log, take, check, work, goes_on, finish,
  Event, step, run, batch_size,
}
use async_toolkit.Logging.{logs, works, stops}
use async_toolkit.Logging.Written.{messages, write_batch_lem}

length-zero : (xs : List ℕ) → length xs ≡ 0 → xs ≡ []
length-zero [] e = refl
length-zero (x ∷ xs) e = absurd (omega arith)

module _ (entry_size clock : ℕ → ℕ) where
  -- Every accepted message is written, in the batch or in the queue, in the order of acceptance, and the
  -- batch is no longer than it may be.
  abbrev pub IsValid : AsyncLogger → Type 0
  IsValid l =
      (l.accepted ≡ messages l.log_file ++ (l.batch ++ l.queue))
      × (length l.batch < batch_size + (if l.waiting_check then 1 else 0))

  take-IsValid : (l : AsyncLogger) → l.waiting_check ≡ false → IsValid l → IsValid (take l)
  unfolding take
  take-IsValid l idle (order, small) = go l.queue refl
    where
      go : (q : List ℕ) → l.queue ≡ q → IsValid (take l)
      go [] e = rw e (order ∙ ap (λ m. messages l.log_file ++ (l.batch ++ m)) e, small)
      go (msg ∷ rest) e = rw e (
        order
            ∙ ap (λ m. messages l.log_file ++ m)
                (ap (λ m. l.batch ++ m) e ∙ sym (append_assoc l.batch (msg ∷ []) rest)),
        ground (arith, length-append l.batch (msg ∷ [])),
      )

  check-IsValid :
      (l : AsyncLogger) → IsValid l → l.waiting_check ≡ true → IsValid (check entry_size clock l)
  unfolding check
  check-IsValid l (order, small) busy =
      elim (Bool-cases (leb batch_size (length l.batch) || (length l.queue == 0))) [
        | inl full ↦ rw full (
          order
              ∙ sym (append_assoc _ l.batch l.queue)
              ∙ ap (λ m. m ++ l.queue) (sym (write_batch_lem entry_size clock l.log_file l.batch)),
          omega arith,
        )
        | inr more ↦ rw more (order, ground arith)
      ]

  work-IsValid : (l : AsyncLogger) → IsValid l → IsValid (work entry_size clock l)
  unfolding work
  work-IsValid l h = elim (Bool-cases l.waiting_check) [
    | inl busy ↦ subst IsValid (sym (ap choose busy)) (check-IsValid l h busy)
    | inr idle ↦ subst IsValid (sym (ap choose idle)) (take-IsValid l idle h)
  ]
    where
      choose : Bool → AsyncLogger
      choose b = if b then check entry_size clock l else take l

  log-IsValid : (l : AsyncLogger) (msg : ℕ) → IsValid l → IsValid (log l msg)
  unfolding log
  log-IsValid l msg (order, small) = elim (Bool-cases (ltb (length l.queue) l.queue_size)) [
    | inl room ↦ rw room (
      ap (λ m. m ++ msg ∷ []) order
          ∙ append_assoc (messages l.log_file) (l.batch ++ l.queue) _
          ∙ ap (λ m. messages l.log_file ++ m) (append_assoc l.batch l.queue _),
      small,
    )
    | inr full ↦ rw full (order, small)
  ]

  step-IsValid : (l : AsyncLogger) (e : Event) → IsValid l → IsValid (step entry_size clock l e)
  unfolding step
  step-IsValid l (logs msg) h = log-IsValid l msg h
  step-IsValid l works h = work-IsValid l h
  step-IsValid l stops h = h

  run-IsValid :
      (l : AsyncLogger) (es : List Event) → IsValid l → IsValid (run entry_size clock l es)
  unfolding run
  run-IsValid l [] h = h
  run-IsValid l (e ∷ es) h = run-IsValid (step entry_size clock l e) es (step-IsValid l e h)

  new_logger-IsValid : (queue_size : ℕ) → IsValid (new_logger entry_size clock queue_size)
  unfolding new_logger rotate_log_file
  new_logger-IsValid queue_size = (refl, omega arith)

  -- The steps left to an idle or busy worker that takes no more messages.
  abbrev pub left : AsyncLogger → ℕ
  left l = 2 * length l.queue + (if l.waiting_check then 1 else 0)

  abbrev Lowers : AsyncLogger → AsyncLogger → Type 0
  Lowers l l' = (left l' < left l) × (l'.running ≡ l.running) × (l'.accepted ≡ l.accepted)

  check-Lowers : (l : AsyncLogger) → l.waiting_check ≡ true → Lowers l (check entry_size clock l)
  unfolding check
  check-Lowers l busy =
      elim (Bool-cases (leb batch_size (length l.batch) || (length l.queue == 0))) [
        | inl full ↦ rw full (rw busy (omega arith), refl, refl)
        | inr more ↦ rw more (rw busy (omega arith), refl, refl)
      ]

  take-Lowers :
      (l : AsyncLogger) (q : List ℕ)
      → l.queue ≡ q
      → 0 < length q
      → l.waiting_check ≡ false
      → Lowers l (take l)
  unfolding take
  take-Lowers l [] e h idle = absurd (omega arith)
  take-Lowers l (msg ∷ rest) e h idle = rw (e, idle) (omega arith, refl, refl)

  work-Lowers :
      (l : AsyncLogger)
      → (l.waiting_check || not (length l.queue == 0)) ≡ true
      → Lowers l (work entry_size clock l)
  unfolding work
  work-Lowers l h = elim (Bool-cases l.waiting_check) [
    | inl busy ↦ subst (Lowers l) (sym (ap choose busy)) (check-Lowers l busy)
    | inr idle ↦
        subst (Lowers l) (sym (ap choose idle)) (take-Lowers l l.queue refl (ground arith) idle)
  ]
    where
      choose : Bool → AsyncLogger
      choose b = if b then check entry_size clock l else take l

  last_batch :
      (l : AsyncLogger)
      → IsValid l
      → length l.queue ≡ 0
      → messages (write_batch entry_size clock l.log_file l.batch) ≡ l.accepted
  last_batch l (order, small) none_left =
      write_batch_lem entry_size clock l.log_file l.batch
      ∙ sym (
          order
          ∙ ap (λ m. messages l.log_file ++ m)
              (ap (λ m. l.batch ++ m) (length-zero l.queue none_left) ∙ append-nil l.batch))

  finish_lem :
      (fuel : ℕ) (l : AsyncLogger)
      → IsValid l
      → l.running ≡ false
      → left l < fuel
      → (l' : AsyncLogger) × (finish entry_size clock fuel l ≡ some l')
        × (messages l'.log_file ≡ l.accepted)
  unfolding finish goes_on
  finish_lem zero l h off enough = absurd (omega arith)
  finish_lem (suc k) l h off enough =
      let busy = l.waiting_check || not (length l.queue == 0) in
      let rest = finish entry_size clock k (work entry_size clock l) in
      let last = record l {
        batch = [];
        log_file = write_batch entry_size clock l.log_file l.batch;
      } in
      let choose : Bool → Bool → Option AsyncLogger =
        λ b empty. if b then rest else (if empty then some l else some last) in
      let empty = length l.batch == 0 in
      let head : finish entry_size clock (suc k) l ≡ choose busy empty =
        ap (λ b. choose (l.waiting_check || (b || not (length l.queue == 0))) empty) off in
      elim (Bool-cases busy) [
        | inl goes ↦
            let (fewer, same, kept) = work-Lowers l goes in
            let (l', ends, all) =
              finish_lem k (work entry_size clock l) (work-IsValid l h) (same ∙ off)
                (omega arith) in
            (l', head ∙ ap (λ b. choose b empty) goes ∙ ends, all ∙ kept)
        | inr ends ↦
            let none_left : length l.queue ≡ 0 = ground arith in
            let out = head ∙ ap (λ b. choose b empty) ends in
            elim (Bool-cases empty) [
              | inl written ↦ (
                l,
                out ∙ ap (choose false) written,
                sym (append-nil (messages l.log_file))
                    ∙ ap (λ m. messages l.log_file ++ m)
                        (sym (length-zero l.batch ((==_iff (length l.batch) 0).0 written)))
                    ∙ sym (write_batch_lem entry_size clock l.log_file l.batch)
                    ∙ last_batch l h none_left,
              )
              | inr more ↦ (last, out ∙ ap (choose false) more, last_batch l h none_left)
            ]
      ]

  -- Whatever calls of `log` and steps of the worker go before, once the logger is stopped its worker ends,
  -- and has then written every accepted message, in the order in which they were accepted.
  pub stopped_writes_all :
      (queue_size : ℕ) (es : List Event)
      → let l = run entry_size clock (new_logger entry_size clock queue_size) es in
        l.running ≡ false
        → (l' : AsyncLogger) × (finish entry_size clock (left l + 1) l ≡ some l')
          × (messages l'.log_file ≡ l.accepted)
  stopped_writes_all queue_size es off =
      let l = run entry_size clock (new_logger entry_size clock queue_size) es in
      finish_lem (left l + 1) l
        (run-IsValid (new_logger entry_size clock queue_size) es (new_logger-IsValid queue_size))
        off (omega arith)
