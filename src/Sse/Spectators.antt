-- ===== src/Sse/Spectators.antt =====
-- SpectateEventHandler, and EventHub.dispatchEventToEvent, on the listeners of the events.
pub mod Views
pub mod Crash
use rogue_learn_code_battle.Base.{
  ℕ, suc, Bool, true, false, Option, none, some, List, [], ◌∷◌, ◌++◌, map, any, ◌==◌, lookup,
  insert, delete, nat_eq, if◌then◌else◌,
}
use rogue_learn_code_battle.Store.Models.{Uuid}

-- The channels of the listeners of one event by client, and EventHub.EventListeners.
abbrev pub Clients : Type 0
Clients = List (Uuid × ℕ)

abbrev pub EventListeners : Type 0
EventListeners = List (Uuid × Clients)

-- Indexing a Go map that lacks the key gives a nil map, which reads as an empty one.
abbrev pub clients_of : Option Clients → Clients
clients_of none = []
clients_of (some clients) = clients

-- The registration: a first listener of an event makes the event's map.
unfoldable pub add_listener : Uuid → Uuid → ℕ → EventListeners → EventListeners
add_listener event client channel listeners =
    insert event (insert client channel (clients_of (lookup event listeners))) listeners

-- What the deferred function leaves: the event goes when its last listener has gone.
abbrev pub put_back : Uuid → Clients → EventListeners → EventListeners
put_back event [] listeners = delete event listeners
put_back event (c ∷ clients) listeners = insert event (c ∷ clients) listeners

unfoldable pub remove_listener : Uuid → Uuid → EventListeners → EventListeners
remove_listener event client listeners = elim (lookup event listeners) [
  | none ↦ listeners
  | some clients ↦ put_back event (delete client clients) listeners
]

-- NewEventHub: one event has an empty map from the start.
abbrev pub supabase_event_id : Uuid
supabase_event_id = 0xe88e5761e0fa409dbaad057edad1496a

unfoldable pub new_event_listeners : EventListeners
new_event_listeners = (supabase_event_id, []) ∷ []

-- dispatchEventToEvent: one goroutine for each listener of the event, with the send that it tries.
unfoldable pub dispatch_event_to_event : {E : Type 0} → Uuid → E → EventListeners → List (ℕ × E)
dispatch_event_to_event event sse_event listeners = elim (lookup event listeners) [
  | none ↦ []
  | some clients ↦ map (λ (listener : Uuid × ℕ). (listener.1, sse_event)) clients
]

-- The listeners, the channels that are closed, and the sends that goroutines are about to try.
pub record Spectators (E : Type 0) : Type 0 where
  pub listeners : EventListeners
  pub closed : List ℕ
  pub sends : List (ℕ × E)
  -- The next channel that `make` returns.
  pub next_channel : ℕ

module _ {E : Type 0} where
  -- SpectateEventHandler up to its loop; the client's id is fresh.
  unfoldable pub connect : Uuid → Uuid → Spectators E → Spectators E
  connect event client s = record s {
    listeners = add_listener event client s.next_channel s.listeners;
    next_channel = suc s.next_channel;
  }

  -- The deferred function: the listener is removed, then its channel is closed.
  unfoldable pub disconnect : Uuid → Uuid → ℕ → Spectators E → Spectators E
  disconnect event client channel s = record s {
    listeners = remove_listener event client s.listeners;
    closed = channel ∷ s.closed;
  }

  unfoldable pub dispatch : Uuid → E → Spectators E → Spectators E
  dispatch event sse_event s = record s {
    sends = s.sends ++ dispatch_event_to_event event sse_event s.listeners;
  }

  -- The first send to the channel is taken out.
  unfoldable pub drop_send : ℕ → List (ℕ × E) → List (ℕ × E)
  drop_send channel [] = []
  drop_send channel ((c, sse_event) ∷ sends) =
      let rest = drop_send channel sends in if c == channel then sends else (c, sse_event) ∷ rest

  -- A goroutine of dispatchEventToEvent that is to send on the channel: a send on a closed channel
  -- panics, which ends the program (`none`), since nothing recovers; on an open one it is taken or
  -- dropped, and done in both cases.
  unfoldable pub try_send : ℕ → Spectators E → Option (Spectators E)
  unfolding drop_send
  try_send channel s =
      if any (λ c. c == channel) s.closed
      then none
      else some (record s { sends = drop_send channel s.sends })
