-- ===== src/Logging/Written.antt =====
-- What `write_batch` adds to the log files.
use mathlib.Core.List.{append_assoc, append-nil}
use async_toolkit.Base.{
  Bool-cases, Option-cases, leb, ℕ, ◌+◌, ◌<◌, ◌≡◌, refl, sym, ap, ◌∙◌, subst, inl, inr, Option,
  none, some, List, [], ◌∷◌, ◌++◌, map, arith,
}
use async_toolkit.Logging.{
  LogFile, rotate_log_file, write_entry, write_entries, write_batch, max_file_size,
}

abbrev pub messages : LogFile → List ℕ
messages f = map (λ (name, msg). msg) f.written

abbrev IsOpen : LogFile → Type 0
IsOpen f = (name : ℕ) × (f.open_file ≡ some name)

messages-append :
    (xs : List (ℕ × ℕ)) (name msg : ℕ)
    → map (λ (n, m). m) (xs ++ (name, msg) ∷ []) ≡ map (λ (n, m). m) xs ++ msg ∷ []
messages-append [] name msg = refl
messages-append (x ∷ xs) name msg = ap (◌∷◌ x.1) (messages-append xs name msg)

module _ (entry_size clock : ℕ → ℕ) where
  write_entry_lem :
      (f : LogFile) (name msg : ℕ)
      → f.open_file ≡ some name
      → (messages (write_entry entry_size clock f name msg) ≡ messages f ++ msg ∷ [])
        × IsOpen (write_entry entry_size clock f name msg)
        × ((write_entry entry_size clock f name msg).current_file_size < max_file_size)
  unfolding write_entry rotate_log_file
  write_entry_lem f name msg e =
      elim (Bool-cases (leb max_file_size (f.current_file_size + entry_size msg))) [
        | inl full ↦
            rw full (messages-append f.written name msg, (clock f.rotations, refl), omega arith)
        | inr room ↦ rw room (messages-append f.written name msg, (name, e), ground arith)
      ]

  write_entries_lem :
      (f : LogFile) (msgs : List ℕ)
      → IsOpen f
      → (messages (write_entries entry_size clock f msgs) ≡ messages f ++ msgs)
        × IsOpen (write_entries entry_size clock f msgs)
  unfolding write_entries
  write_entries_lem f [] h = (sym (append-nil (messages f)), h)
  write_entries_lem f (msg ∷ msgs) (name, e) =
      let (said, opened, small) = write_entry_lem f name msg e in
      let (all, still) = write_entries_lem (write_entry entry_size clock f name msg) msgs opened in
      let same : write_entries entry_size clock f (msg ∷ msgs)
          ≡ write_entries entry_size clock (write_entry entry_size clock f name msg) msgs =
        ap
          (λ o. elim o [
            | none ↦ f
            | some n ↦ write_entries entry_size clock (write_entry entry_size clock f n msg) msgs
          ])
          e in
      (
        ap messages same
            ∙ all
            ∙ ap (λ l. l ++ msgs) said
            ∙ append_assoc (messages f) (msg ∷ []) msgs,
        subst IsOpen (sym same) still,
      )

  pub write_batch_lem :
      (f : LogFile) (msgs : List ℕ)
      → messages (write_batch entry_size clock f msgs) ≡ messages f ++ msgs
  unfolding write_batch rotate_log_file
  write_batch_lem f msgs = elim (Option-cases f.open_file) [
    | inl closed ↦
        ap (λ o. messages (choose o)) closed
        ∙ (write_entries_lem (rotate_log_file entry_size clock f) msgs (clock f.rotations, refl)).0
    | inr (name, e) ↦ ap (λ o. messages (choose o)) e ∙ (write_entries_lem f msgs (name, e)).0
  ]
    where
      choose : Option ℕ → LogFile
      choose none = write_entries entry_size clock (rotate_log_file entry_size clock f) msgs
      choose (some name) = write_entries entry_size clock f msgs
