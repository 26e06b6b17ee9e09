-- ===== src/Hub/Joining.antt =====
-- Joining a room: the player's row is never created.
use rogue_learn_code_battle.Base.{
  ℕ, ◌≡◌, refl, ◌∙◌, false, Option, none, [], codes, arith, Text, find,
}
use rogue_learn_code_battle.Store.Models.{Uuid, invalid_state}
use rogue_learn_code_battle.Store.Db.{Db, query_error}
use rogue_learn_code_battle.Store.Players.{at_key, get_room_player, create_room_player}
use rogue_learn_code_battle.Events.{PlayerJoined}
use rogue_learn_code_battle.Hub.Exec.{Hub, failed, database_error}
use rogue_learn_code_battle.Hub.Defs.{is_ok, process_player_joined, add_player_to_room}

create_room_player-refused :
    (room user : Uuid) (name : Text) (score : ℕ) (place : Option ℕ) (state : Text) (db : Db)
    → (create_room_player room user name score place (invalid_state state) db).0 ≡ query_error
unfolding create_room_player
create_room_player-refused room user name score place state db = ground arith

create_room_player-players :
    (room user : Uuid) (name : Text) (score : ℕ) (place : Option ℕ) (state : Text) (db : Db)
    → (create_room_player room user name score place (invalid_state state) db).1.room_players
      ≡ db.room_players
unfolding create_room_player
create_room_player-players room user name score place state db = ground arith

get_room_player-none :
    (room user : Uuid) (db : Db)
    → find (at_key room user) db.room_players ≡ none
    → (is_ok (get_room_player room user db).0 ≡ false)
      × ((get_room_player room user db).1.room_players ≡ db.room_players)
unfolding get_room_player
get_room_player-none room user db absent = ground arith

add_player_to_room-refused :
    {W : Type 0} (room user : Uuid) (name : Text) (h : Hub W)
    → (add_player_to_room room user name h)
      ≡ failed database_error
          (record h { db = (create_room_player room user name 0 none (invalid_state []) h.db).1 })
unfolding add_player_to_room
add_player_to_room-refused room user name h =
    rw (create_room_player-refused room user name 0 none [] h.db)

-- A player who has no row in the room cannot join it: the row is inserted with an empty state,
-- which the database refuses. Whatever the connection does, the handler returns an error, the
-- players of the room stay as they are, and nobody is told.
pub process_player_joined-refused :
    {W : Type 0} (event : PlayerJoined) (h : Hub W)
    → find (at_key event.room_id event.player_id) h.db.room_players ≡ none
    → (h' : Hub W) × (process_player_joined event h ≡ failed database_error h')
      × (h'.db.room_players ≡ h.db.room_players)
      × (h'.sent ≡ h.sent)
      × (h'.room ≡ h.room)
unfolding process_player_joined
process_player_joined-refused event h absent =
    let missing = get_room_player-none event.room_id event.player_id h.db absent in
    let h1 : Hub _ = record h { db = (get_room_player event.room_id event.player_id h.db).1 } in
    let refused =
      add_player_to_room-refused event.room_id event.player_id (codes "grpc_called") h1 in
    let same =
      create_room_player-players event.room_id event.player_id (codes "grpc_called") 0 none []
        h1.db in
    let h2 : Hub _ = record h1 {
      db =
          (create_room_player event.room_id event.player_id (codes "grpc_called") 0 none
            (invalid_state []) h1.db).1;
    } in
    (h2, rw (missing.0, refused), same ∙ missing.1, refl, refl)
