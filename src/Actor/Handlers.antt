-- ===== src/Actor/Handlers.antt =====
-- Which handler an actor gives a message to.
use async_toolkit.Base.{if◌then◌else◌, ◌==◌, ℕ, Bool, Option, none, some, List, [], ◌∷◌}
use async_toolkit.Actor.{Handler, Actor, Event, tells, registers, processes, stops}

module _ (throws : ℕ → ℕ → Bool) where
  -- The function that was last registered for a kind.
  abbrev pub latest : Option ℕ → (kind : ℕ) → List Event → Option ℕ
  latest last kind [] = last
  latest last kind (registers k function ∷ es) =
      latest (if k == kind then some function else last) kind es
  latest last kind (tells k content sender ∷ es) = latest last kind es
  latest last kind (processes ∷ es) = latest last kind es
  latest last kind (stops ∷ es) = latest last kind es

  abbrev stored : Option ℕ → ℕ → Option Handler
  stored o kind = elim o [ none ↦ none | some f ↦ some (record { wants = kind; function = f }) ]
