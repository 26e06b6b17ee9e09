-- ===== src/Sse/Guilds.antt =====
-- EventHub: its table of rooms, and its loop, which sends guild leaderboards to the spectators.
pub mod Ranked
pub mod Rounds
use rogue_learn_code_battle.Base.{
  ℕ, Bool, true, false, Option, none, some, List, [], ◌∷◌, Text, ℤ, keep, sort_by, insert, lookup,
  nat_eq, ltb, leb, ◌==◌, if◌then◌else◌,
}
use rogue_learn_code_battle.Store.Models.{Uuid}
use rogue_learn_code_battle.Store.Db.{QueryResult, ok, no_rows, query_error}
use rogue_learn_code_battle.Hub.{RoomHub}
use rogue_learn_code_battle.Sse.Rooms.{new_room_hub}
use rogue_learn_code_battle.Sse.Spectators.{
  Spectators, dispatch, connect, new_event_listeners, supabase_event_id,
}

-- GuildLeaderboardEntry
pub record GuildLeaderboardEntry : Type 0 where
  pub id : Uuid
  pub guild_id : Uuid
  pub guild_name : Text
  pub event_id : Uuid
  pub rank : ℕ
  pub total_score : ℕ
  pub snapshot_date : ℕ

-- EventHub, with the table that its loop reads and the failures of the connection to come.
pub record EventHub : Type 0 where
  pub rooms : List (Uuid × RoomHub)
  pub guild_update_chan : List Uuid
  pub spectators : Spectators (List GuildLeaderboardEntry)
  pub guild_leaderboard_entries : List GuildLeaderboardEntry
  pub faults : List Bool

-- GetGuildLeaderboardByEvent
unfoldable pub guild_leaderboard : Uuid → List GuildLeaderboardEntry → List GuildLeaderboardEntry
guild_leaderboard event entries =
    sort_by (λ a b. leb a.rank b.rank) (keep (λ e. e.event_id == event) entries)

abbrev pub get_guild_leaderboard_by_event :
    Uuid → EventHub → QueryResult (List GuildLeaderboardEntry) × EventHub
get_guild_leaderboard_by_event event e = elim e.faults [
  | [] ↦ (ok (guild_leaderboard event e.guild_leaderboard_entries), e)
  | fault ∷ faults ↦ elim fault [
    | true ↦ (query_error, record e { faults = faults })
    | false ↦
        (ok (guild_leaderboard event e.guild_leaderboard_entries), record e { faults = faults })
  ]
]

-- CreateRoom: a room that the id had is overwritten.
unfoldable pub create_room : Uuid → Uuid → EventHub → EventHub
create_room event room e = record e { rooms = insert room (new_room_hub event room) e.rooms }

-- NewEventHub, over the table that the database holds.
abbrev pub beginner_area : Uuid
beginner_area = 0x4d5e6f7a8b9c0d1e2f3a4b5c6d7e8f90

abbrev pub advanced_lobby : Uuid
advanced_lobby = 0x5e6f7a8b9c0d1e2f3a4b5c6d7e8f90a1

unfoldable pub new_event_hub : List GuildLeaderboardEntry → List Bool → EventHub
unfolding create_room
new_event_hub entries faults = create_room supabase_event_id advanced_lobby (
    create_room supabase_event_id beginner_area (record {
      rooms = [];
      guild_update_chan = [];
      spectators = record {
        listeners = new_event_listeners;
        closed = [];
        sends = [];
        next_channel = 0;
      };
      guild_leaderboard_entries = entries;
      faults = faults;
    }))

-- What a round of the loop does with the answer of the query.
abbrev pub dispatch_leaderboard :
    Uuid → QueryResult (List GuildLeaderboardEntry) × EventHub → EventHub
dispatch_leaderboard event (ok entries, e) = record e {
  spectators = dispatch event entries e.spectators;
}
dispatch_leaderboard event (no_rows, e) = e
dispatch_leaderboard event (query_error, e) = e

-- One round of EventHub.Start: the oldest update is taken; with none it waits.
unfoldable pub start_round : EventHub → EventHub
start_round e = elim e.guild_update_chan [
  | [] ↦ e
  | event ∷ rest ↦
      dispatch_leaderboard event
        (get_guild_leaderboard_by_event event (record e { guild_update_chan = rest }))
]

-- SpectateEventHandler: the spectator is registered, and the leaderboard that it is sent first, if
-- the query succeeds.
abbrev pub initial_leaderboard :
    QueryResult (List GuildLeaderboardEntry) × EventHub
    → Option (List GuildLeaderboardEntry) × EventHub
initial_leaderboard (ok entries, e) = (some entries, e)
initial_leaderboard (no_rows, e) = (none, e)
initial_leaderboard (query_error, e) = (none, e)

-- The event is what uuid.Parse makes of it; `none` is an answer 400.
unfoldable pub spectate_event :
    Option Uuid → Uuid → EventHub → Option (Option (List GuildLeaderboardEntry) × EventHub)
spectate_event none client e = none
spectate_event (some event) client e = some (
    initial_leaderboard (
      get_guild_leaderboard_by_event event
        (record e { spectators = connect event client e.spectators })))
