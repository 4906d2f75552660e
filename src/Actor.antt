-- ===== src/Actor.antt =====
-- `Actor` of include/async_toolkit/actor/actor.hpp. A type, a message's content, a function and an actor are
-- numbers; 0 stands for no sender. The mailbox is the bounded first-in first-out queue that `MPMCChannel` is
-- between calls that do not overlap.
pub mod Delivery
pub mod Handlers
pub mod Router
use async_toolkit.Base.{
  if◌then◌else◌, leb, length, ◌==◌, ℕ, Bool, true, false, Option, none, some, List, [], ◌∷◌, ◌++◌,
}

-- `Actor::Message`: `content` is an `any` that holds a value of type `held`.
pub record Message : Type 0 where
  pub kind : ℕ
  pub held : ℕ
  pub content : ℕ
  pub sender : ℕ

-- The constructor template, where `T` is `kind`.
abbrev pub message : (kind content sender : ℕ) → Message
message kind content sender = record {
  kind = kind;
  held = kind;
  content = content;
  sender = sender;
}

-- What `register_handler` stores: the lambda casts to the type it was made for and calls `function`.
pub record Handler : Type 0 where
  pub wants : ℕ
  pub function : ℕ

-- What happened to a message that was received: no handler has its type, the cast failed, the handler threw
-- or it returned.
pub data Outcome : Type 0 where
  skipped : Outcome
  bad_cast : Outcome
  threw : (function : ℕ) → Outcome
  handled : (function : ℕ) → Outcome

-- `log` lists the received messages with what happened to them; `finished` says that `on_stop` was called.
pub record Actor : Type 0 where
  pub mailbox : List Message
  pub mailbox_size : ℕ
  pub running : Bool
  pub handlers : List (ℕ × Handler)
  pub log : List (Message × Outcome)
  pub finished : Bool

-- The constructor.
abbrev pub new_actor : (mailbox_size : ℕ) → Actor
new_actor mailbox_size = record {
  mailbox = [];
  mailbox_size = mailbox_size;
  running = true;
  handlers = [];
  log = [];
  finished = false;
}

-- `tell`: a message that the mailbox refuses is dropped.
unfoldable pub tell : Actor → Message → Actor
tell a m =
    if leb a.mailbox_size (length a.mailbox) then a else record a { mailbox = a.mailbox ++ m ∷ [] }

-- `handlers_[kind] = ...`
unfoldable pub assign : List (ℕ × Handler) → ℕ → Handler → List (ℕ × Handler)
assign [] kind h = (kind, h) ∷ []
assign ((k, g) ∷ hs) kind h = if k == kind then (k, h) ∷ hs else (k, g) ∷ assign hs kind h

-- `handlers_.find`
unfoldable pub find_handler : List (ℕ × Handler) → ℕ → Option Handler
find_handler [] kind = none
find_handler ((k, h) ∷ hs) kind = if k == kind then some h else find_handler hs kind

unfoldable pub register_handler : Actor → (kind function : ℕ) → Actor
unfolding assign
register_handler a kind function = record a {
  handlers = assign a.handlers kind (record { wants = kind; function = function });
}

-- The call of the handler in its `try` block; `throws` tells which function throws on which content.
unfoldable pub call : (throws : ℕ → ℕ → Bool) → Handler → Message → Outcome
call throws h m =
    if h.wants == m.held
    then if throws h.function m.content then threw h.function else handled h.function
    else bad_cast

-- What is done with a received message.
unfoldable pub dispatch : (throws : ℕ → ℕ → Bool) → List (ℕ × Handler) → Message → Outcome
unfolding find_handler call
dispatch throws hs m = elim (find_handler hs m.kind) [ none ↦ skipped | some h ↦ call throws h m ]

-- One round of the loop of `process_messages`, with what follows the loop when it ends.
unfoldable pub process : (throws : ℕ → ℕ → Bool) → Actor → Actor
unfolding dispatch
process throws a =
    if a.running
    then elim a.mailbox [
      | [] ↦ a
      | m ∷ ms ↦ record a { mailbox = ms; log = a.log ++ (m, dispatch throws a.handlers m) ∷ [] }
    ]
    else record a { finished = true }

-- The first line of the destructor.
unfoldable pub stop : Actor → Actor
stop a = record a { running = false }

pub data Event : Type 0 where
  tells : (kind content sender : ℕ) → Event
  registers : (kind function : ℕ) → Event
  processes : Event
  stops : Event

unfoldable pub step : (throws : ℕ → ℕ → Bool) → Actor → Event → Actor
unfolding tell register_handler process stop
step throws a (tells kind content sender) = tell a (message kind content sender)
step throws a (registers kind function) = register_handler a kind function
step throws a processes = process throws a
step throws a stops = stop a

unfoldable pub run : (throws : ℕ → ℕ → Bool) → Actor → List Event → Actor
unfolding step
run throws a [] = a
run throws a (e ∷ es) = run throws (step throws a e) es
