-- ===== src/Actor/Delivery.antt =====
-- What an actor does with the messages that it is told.
use async_toolkit.Base.{
  if◌then◌else◌, leb, length, ℕ, ◌+◌, ◌-◌, ◌≤◌, ◌≡◌, Bool, false, List, [], ◌∷◌, ◌++◌, map,
}
use async_toolkit.Actor.{Message, message, Actor, Event, tells, registers, processes, stops}

-- The messages among the events that a mailbox of this size accepts, when `waiting` are in it.
abbrev pub accepted : (size waiting : ℕ) (running : Bool) → List Event → List Message
accepted size waiting running [] = []
accepted size waiting running (tells kind content sender ∷ es) =
    if leb size waiting
    then accepted size waiting running es
    else message kind content sender ∷ accepted size (waiting + 1) running es
accepted size waiting running (registers kind function ∷ es) = accepted size waiting running es
accepted size waiting running (processes ∷ es) =
    accepted size (if running then waiting - 1 else waiting) running es
accepted size waiting running (stops ∷ es) = accepted size waiting false es

abbrev pub received : Actor → List Message
received a = map (λ e. e.0) a.log

module _ (throws : ℕ → ℕ → Bool) where
  -- What the events do to the messages, from any state on.
  abbrev Delivers : Actor → List Event → Actor → Type 0
  Delivers a es b =
      (received b ++ b.mailbox
        ≡ (received a ++ a.mailbox) ++ accepted a.mailbox_size (length a.mailbox) a.running es)
      × (length a.mailbox ≤ a.mailbox_size → length b.mailbox ≤ a.mailbox_size)
