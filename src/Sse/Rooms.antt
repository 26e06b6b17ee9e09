-- ===== src/Sse/Rooms.antt =====
-- JoinRoomHandler: a player's connection to a room, from its registration to its end.
pub mod Listed
pub mod Live
pub mod Rejoin
use rogue_learn_code_battle.Base.{
  ℕ, suc, ◌<◌, ◌≡◌, Bool, true, false, Option, none, some, List, [], ◌∷◌, ◌++◌, length, lookup,
  insert, delete, nat_eq,
}
use rogue_learn_code_battle.Store.Models.{Uuid}
use rogue_learn_code_battle.Events.{RoomEvent, PlayerLeft, joined, departed}
use rogue_learn_code_battle.Hub.{RoomHub, events_capacity}

-- What JoinRoomHandler does with a request: 400 for an event id, a room id or a player id that
-- uuid.Parse refuses, in this order, 404, or it goes on with the hub of the room.
pub data JoinAnswer : Type 0 where
  invalid_ids invalid_player room_not_found : JoinAnswer
  joining : RoomHub → JoinAnswer

-- getRequestEventIDAndRoomID
abbrev pub request_ids : Option Uuid → Option Uuid → Option (Uuid × Uuid)
request_ids none room = none
request_ids (some event) none = none
request_ids (some event) (some room) = some (event, room)

-- getRequestPlayerIDAndEventID
abbrev pub request_player_and_event : Option Uuid → Option Uuid → Option (Uuid × Uuid)
request_player_and_event player event = request_ids player event

abbrev pub or_room_not_found : Option RoomHub → JoinAnswer
or_room_not_found none = room_not_found
or_room_not_found (some hub) = joining hub

unfoldable pub join_room :
    Option Uuid → Option Uuid → Option Uuid → List (Uuid × RoomHub) → JoinAnswer
join_room event room player rooms = elim (request_ids event room) [
  | none ↦ invalid_ids
  | some (_, r) ↦ elim player [
    | none ↦ invalid_player
    | some _ ↦ or_room_not_found (lookup r rooms)
  ]
]

-- Where a connection stands: before its PlayerJoined is sent, in its loop, behind the removal of
-- its listener, and behind the close of its channel.
pub data Phase : Type 0 where
  announcing serving removed closed : Phase

-- One run of JoinRoomHandler.
pub record Connection : Type 0 where
  pub player : Uuid
  pub phase : Phase

-- The room, the connections by their channel, the goroutines that wait to send a PlayerLeft, and
-- the next channel that `make` returns.
pub record Connections : Type 0 where
  pub room : RoomHub
  pub by_channel : List (ℕ × Connection)
  pub departures : List PlayerLeft
  pub next_channel : ℕ

abbrev pub set_phase : ℕ → Connection → Phase → Connections → Connections
set_phase channel c phase s = record s {
  by_channel = insert channel (record c { phase = phase }) s.by_channel;
}

abbrev pub set_listeners : List (Uuid × ℕ) → Connections → Connections
set_listeners listeners s = record s { room = record s.room { listeners = listeners } }

abbrev pub set_events : List RoomEvent → Connections → Connections
set_events events s = record s { room = record s.room { events = events } }

-- The registration: a listener that the player had is overwritten.
unfoldable pub register : Uuid → Connections → Connections
register player s = record s {
  room = record s.room { listeners = insert player s.next_channel s.room.listeners };
  by_channel = insert s.next_channel (record { player = player; phase = announcing }) s.by_channel;
  next_channel = suc s.next_channel;
}

-- roomHub.Events <- PlayerJoined
unfoldable pub announce : ℕ → Connection → Connections → Connections
announce channel c s =
    let event = joined (record { player_id = c.player; room_id = s.room.room_id }) in
    set_phase channel c serving (set_events (s.room.events ++ event ∷ []) s)

-- The deferred function: whatever listener the player has is removed, and a goroutine is to send
-- PlayerLeft.
unfoldable pub unregister : ℕ → Connection → Connections → Connections
unregister channel c s =
    record (set_phase channel c removed (set_listeners (delete c.player s.room.listeners) s)) {
      departures = record { player_id = c.player; room_id = s.room.room_id } ∷ s.departures;
    }

-- close(listen)
unfoldable pub close_listen : ℕ → Connection → Connections → Connections
close_listen channel c s = set_phase channel c closed s

-- One step of a connection, of a goroutine that sends PlayerLeft, of another sender, or of the loop
-- of the room, which takes an event. A send waits for space in the channel.
pub data Step (s : Connections) : Connections → Type 0 where
  joins : (player : Uuid) → Step s (register player s)
  announces :
      (channel : ℕ) (c : Connection)
      → lookup channel s.by_channel ≡ some c
      → c.phase ≡ announcing
      → length s.room.events < events_capacity
      → Step s (announce channel c s)
  disconnects :
      (channel : ℕ) (c : Connection)
      → lookup channel s.by_channel ≡ some c
      → c.phase ≡ serving
      → Step s (unregister channel c s)
  closes :
      (channel : ℕ) (c : Connection)
      → lookup channel s.by_channel ≡ some c
      → c.phase ≡ removed
      → Step s (close_listen channel c s)
  sends_left :
      (left : PlayerLeft) (rest : List PlayerLeft)
      → s.departures ≡ left ∷ rest
      → length s.room.events < events_capacity
      → Step s (record (set_events (s.room.events ++ departed left ∷ []) s) { departures = rest })
  posts :
      (e : RoomEvent)
      → length s.room.events < events_capacity
      → Step s (set_events (s.room.events ++ e ∷ []) s)
  takes :
      (e : RoomEvent) (rest : List RoomEvent)
      → s.room.events ≡ e ∷ rest
      → Step s (set_events rest s)

-- newRoomHub: no listener, an empty channel.
abbrev pub new_room_hub : Uuid → Uuid → RoomHub
new_room_hub event room = record { room_id = room; event_id = event; events = []; listeners = [] }

abbrev pub new_connections : RoomHub → Connections
new_connections room = record { room = room; by_channel = []; departures = []; next_channel = 0 }

-- The states of a new room after any steps.
pub data Reach (event room : Uuid) : Connections → Type 0 where
  start : Reach event room (new_connections (new_room_hub event room))
  later : {s t : Connections} → Reach event room s → Step s t → Reach event room t
