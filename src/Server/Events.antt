-- ===== src/Server/Events.antt =====
-- The event hub of backend/internal/server/events.go. A channel is the list of what waits in it,
-- with its capacity; the mutex makes each operation, and each turn of `run`, one step.
pub mod Bounds
pub mod Sent
use dropboy.Base.{
  ℕ, suc, Text, nat_eq, ◌==◌, if◌then◌else◌, List, [], ◌∷◌, ◌++◌, length, ltb, ◌≡◌, refl, arith,
  ◌≤◌, ◌<◌, length-append, keep, not, map, ◌+◌, Bool, true, false,
}

pub record Event : Type 0 where
  pub kind : Text
  pub time : ℕ

-- Sending on a channel of a capacity in a select with an empty default.
unfoldable pub offer : ℕ → List Event → Event → List Event
offer capacity queue e = if ltb (length queue) capacity then queue ++ e ∷ [] else queue

-- A subscriber's channel, by its identity.
pub record Subscriber : Type 0 where
  pub id : ℕ
  pub queue : List Event

pub record EventHub : Type 0 where
  pub clients : List Subscriber
  pub inbox : List Event

abbrev pub new_event_hub : EventHub
new_event_hub = record { clients = []; inbox = [] }

unfoldable pub publish : Event → EventHub → EventHub
publish e h = record h { inbox = offer 64 h.inbox e }

-- subscribe, with the identity of the new channel
unfoldable pub subscribe : ℕ → EventHub → EventHub
subscribe id h = record h { clients = record { id = id; queue = [] } ∷ h.clients }

unfoldable pub unsubscribe : ℕ → EventHub → EventHub
unsubscribe id h = record h { clients = keep (λ c. not (c.id == id)) h.clients }

abbrev pub forward : Event → Subscriber → Subscriber
forward e c = record c { queue = offer 16 c.queue e }

-- The turn of run that takes one event from the inbox.
unfoldable pub deliver : EventHub → EventHub
deliver h = elim h.inbox [
  | [] ↦ h
  | e ∷ rest ↦ record { clients = map (forward e) h.clients; inbox = rest }
]

-- The queue of a subscriber that has taken one event from it.
abbrev pub rest_of : List Event → List Event
rest_of [] = []
rest_of (e ∷ rest) = rest

abbrev pub take_one : ℕ → Subscriber → Subscriber
take_one id c = if c.id == id then record c { queue = rest_of c.queue } else c

-- The turn of handleEvents of a subscriber that takes one event from its channel.
unfoldable pub receive : ℕ → EventHub → EventHub
receive id h = record h { clients = map (take_one id) h.clients }
