-- ===== src/Tests/Sse.antt =====
-- The theorems on spectators, guild updates and connections to rooms at concrete inputs.
use rogue_learn_code_battle.Base.{
  ℕ, ◌≡◌, ◌↔◌, ◌≤◌, refl, none, some, List, [], ◌∷◌, ◌++◌, Has, arith, length, lookup, nat_eq, Bool,
  ◌&&◌, ◌==◌, All, tally,
}
use rogue_learn_code_battle.Store.Models.{Uuid}
use rogue_learn_code_battle.Hub.{events_capacity}
use rogue_learn_code_battle.Sse.Spectators.{
  Spectators, add_listener, new_event_listeners, dispatch_event_to_event, connect, disconnect,
  dispatch, try_send, remove_listener,
}
use rogue_learn_code_battle.Sse.Spectators.Views.{
  Change, registers, leaves, apply_all, after_changes, nobody, dispatch_event_to_event-reaches,
}
use rogue_learn_code_battle.Sse.Spectators.Crash.{disconnect-crashes}
use rogue_learn_code_battle.Sse.Guilds.{
  EventHub, GuildLeaderboardEntry, start_round, new_event_hub, create_room,
}
use rogue_learn_code_battle.Sse.Guilds.Ranked.{IsRanked}
use rogue_learn_code_battle.Sse.Guilds.Rounds.{Send, start_round-reaches}
use rogue_learn_code_battle.Sse.Rooms.{
  Connection, Connections, Phase, register, announce, unregister, new_connections, new_room_hub,
  Reach, start, later, joins, announces,
}
use rogue_learn_code_battle.Sse.Rooms.Listed.{OpenFor}
use rogue_learn_code_battle.Sse.Rooms.Live.{Reach-OpenFor}
use rogue_learn_code_battle.Sse.Rooms.Rejoin.{rejoin-deafens}

-- Two clients register with event 7, and the first leaves.
abbrev one_left : List Change
one_left = registers 7 1 0 ∷ registers 7 2 1 ∷ leaves 7 1 ∷ []

one_left_sends :
    dispatch_event_to_event {E = ℕ} 7 5 (apply_all one_left new_event_listeners) ≡ (1, 5) ∷ []
unfolding dispatch_event_to_event apply_all add_listener new_event_listeners remove_listener
one_left_sends = refl

dispatch_event_to_event-reaches_example :
    Has {A = ℕ × ℕ} (1, 5) (dispatch_event_to_event 7 5 (apply_all one_left new_event_listeners))
    ↔ ((client : Uuid) × (after_changes one_left nobody 7 client ≡ some 1))
dispatch_event_to_event-reaches_example = dispatch_event_to_event-reaches one_left 7 5 1

abbrev nobody_there : Spectators ℕ
nobody_there = record { listeners = new_event_listeners; closed = []; sends = []; next_channel = 0 }

disconnect-crashes_example :
    let left = disconnect 7 1 0 (dispatch 7 5 (connect 7 1 nobody_there)) in
    Has {A = ℕ × ℕ} (0, 5) left.sends × (try_send 0 left ≡ none)
disconnect-crashes_example = disconnect-crashes 5 7 1 nobody_there

abbrev board_of : List GuildLeaderboardEntry
board_of =
    record {
      id = 1;
      guild_id = 2;
      guild_name = [];
      event_id = 7;
      rank = 1;
      total_score = 50;
      snapshot_date = 0;
    }
    ∷ []

abbrev waiting : EventHub
waiting = record {
  rooms = [];
  guild_update_chan = 7 ∷ 8 ∷ [];
  spectators = record {
    listeners = apply_all one_left new_event_listeners;
    closed = [];
    sends = [];
    next_channel = 2;
  };
  guild_leaderboard_entries = board_of;
  faults = [];
}

start_round-reaches_example :
    let after = start_round waiting in
    (board : List GuildLeaderboardEntry) × (new : List Send) × ((f : GuildLeaderboardEntry → Bool)
      → tally f board ≡ tally (λ x. x.event_id == 7 && f x) board_of)
    × IsRanked board
    × (after.spectators.sends ≡ [] ++ new)
    × All (λ (send : Send). send.1 ≡ board) new
    × (after.guild_update_chan ≡ 8 ∷ [])
    × (after.rooms ≡ [])
    × ((channel : ℕ)
        → Has {A = Send} (channel, board) new
          ↔ ((client : Uuid) × (after_changes one_left nobody 7 client ≡ some channel)))
start_round-reaches_example = start_round-reaches waiting 7 (8 ∷ []) one_left refl refl refl

-- The two rooms of a new server.
new_event_hub_rooms : length (new_event_hub [] []).rooms ≡ 2
unfolding new_event_hub create_room
new_event_hub_rooms = refl

-- Player 3 joins room 9.
abbrev empty_room : Connections
empty_room = new_connections (new_room_hub 8 9)

three_listens : lookup 3 (register 3 empty_room).room.listeners ≡ some 0
unfolding register
three_listens = refl

three-Reach : Reach 8 9 (register 3 empty_room)
three-Reach = later start (joins 3)

Reach-OpenFor_example :
    OpenFor (register 3 empty_room).by_channel 3 0
    × (length (register 3 empty_room).room.events ≤ events_capacity)
Reach-OpenFor_example = Reach-OpenFor 3 0 three-Reach three_listens

abbrev new_connection : Connection
new_connection = record { player = 3; phase = Phase.announcing }

abbrev served : Connection
served = record { player = 3; phase = Phase.serving }

served-Reach : Reach 8 9 (announce 0 new_connection (register 3 empty_room))
unfolding register
served-Reach = later three-Reach (announces 0 new_connection refl refl (omega arith))

three_served : lookup 0 (announce 0 new_connection (register 3 empty_room)).by_channel ≡ some served
unfolding register announce
three_served = refl

rejoin-deafens_example :
    let s = announce 0 new_connection (register 3 empty_room) in
    let t = unregister 0 served (register 3 s) in
    Reach 8 9 t
    × (lookup 3 t.room.listeners ≡ none)
    × (lookup s.next_channel t.by_channel ≡ some new_connection)
rejoin-deafens_example = rejoin-deafens 0 served served-Reach three_served refl
