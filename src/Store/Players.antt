-- ===== src/Store/Players.antt =====
-- The queries on the table room_players. Its key is the pair of room and user.
pub mod Ranks
pub mod Keys
pub mod Points
pub mod Sorted
use rogue_learn_code_battle.Base.{
  ℕ, ◌+◌, ◌^◌, Bool, true, false, not, ◌&&◌, ◌||◌, Option, none, some, List, [], ◌∷◌, map, Text,
  find, any, keep, tally, ltb, leb, ◌==◌, if◌then◌else◌,
}
use rogue_learn_code_battle.Store.Models.{
  Uuid, RoomPlayer, RoomPlayerState, present, disconnected, left, completed, invalid_state,
}
use rogue_learn_code_battle.Store.Db.{Db, Query, QueryResult, ok, no_rows, query_error, statement}

-- WHERE room_id = … AND user_id = …
abbrev pub at_key : Uuid → Uuid → RoomPlayer → Bool
at_key room user p = p.room_id == room && p.user_id == user

-- One past the largest value of an integer column.
abbrev pub int4_limit : ℕ
int4_limit = 2 ^ 31

-- The enum room_player_state has four values; any other text is refused.
abbrev pub is_enum : RoomPlayerState → Bool
is_enum present = true
is_enum disconnected = true
is_enum left = true
is_enum completed = true
is_enum (invalid_state _) = false

-- GetRoomPlayer
unfoldable pub get_room_player : Uuid → Uuid → Query RoomPlayer
get_room_player room user = statement (λ db. elim (find (at_key room user) db.room_players) [
  | some p ↦ (ok p, db)
  | none ↦ (no_rows, db)
])

-- CreateRoomPlayer: the state must be in the enum, the room must exist, the key must be new.
unfoldable pub create_room_player :
    Uuid → Uuid → Text → ℕ → Option ℕ → RoomPlayerState → Query RoomPlayer
create_room_player room user username score place state = statement (λ db.
    let row : RoomPlayer = record {
      room_id = room;
      user_id = user;
      username = username;
      score = score;
      place = place;
      state = state;
      disconnected_at = none;
      joined_at = db.clock;
    } in
    if not (is_enum state)
    then (query_error, db)
    else if not (any (λ r. r == room) db.rooms)
    then (query_error, db)
    else if any (at_key room user) db.room_players
    then (query_error, db)
    else (ok row, record db { room_players = row ∷ db.room_players; clock = db.clock + 1 }))

-- DeleteRoomPlayer
unfoldable pub delete_room_player : Uuid → Uuid → Query (Unit {0})
delete_room_player room user = statement (λ db.
    (ok tt, record db { room_players = keep (λ p. not (at_key room user p)) db.room_players }))

-- AddRoomPlayerScore: the statement fails if a new score is no integer of four bytes.
unfoldable pub add_score : ℕ → Uuid → Uuid → List RoomPlayer → List RoomPlayer
add_score points room user =
    map (λ p. if at_key room user p then record p { score = p.score + points } else p)

unfoldable pub add_room_player_score : ℕ → Uuid → Uuid → Query (Unit {0})
unfolding add_score
add_room_player_score points room user = statement (λ db.
    if any (λ p. at_key room user p && leb int4_limit (p.score + points)) db.room_players
    then (query_error, db)
    else (ok tt, record db { room_players = add_score points room user db.room_players }))

-- ORDER BY score DESC, joined_at ASC: the first player stands strictly before the second.
abbrev pub beats : RoomPlayer → RoomPlayer → Bool
beats p q = ltb q.score p.score || (p.score == q.score && ltb p.joined_at q.joined_at)

-- RANK() over the players of the room.
unfoldable pub rank : Uuid → List RoomPlayer → RoomPlayer → ℕ
rank room players q = tally (λ p. p.room_id == room && beats p q) players + 1

unfoldable pub place_players : Uuid → List RoomPlayer → List RoomPlayer
place_players room players =
    map (λ p. if p.room_id == room then record p { place = some (rank room players p) } else p)
      players

-- CalculateRoomLeaderboard
unfoldable pub calculate_room_leaderboard : Uuid → Query (Unit {0})
unfolding place_players
calculate_room_leaderboard room =
    statement (λ db. (ok tt, record db { room_players = place_players room db.room_players }))

-- ORDER BY score DESC, place ASC, with a null place last.
abbrev pub place_le : Option ℕ → Option ℕ → Bool
place_le a none = true
place_le none (some b) = false
place_le (some a) (some b) = leb a b

abbrev pub listed_before : RoomPlayer → RoomPlayer → Bool
listed_before p q = ltb q.score p.score || (p.score == q.score && place_le p.place q.place)

unfoldable pub insert_row : RoomPlayer → List RoomPlayer → List RoomPlayer
insert_row p [] = p ∷ []
insert_row p (q ∷ rows) = if listed_before p q then p ∷ q ∷ rows else q ∷ insert_row p rows

unfoldable pub sort_rows : List RoomPlayer → List RoomPlayer
sort_rows [] = []
sort_rows (p ∷ rows) = insert_row p (sort_rows rows)

-- GetRoomPlayers
unfoldable pub get_room_players : Uuid → Query (List RoomPlayer)
get_room_players room =
    statement (λ db. (ok (sort_rows (keep (λ p. p.room_id == room) db.room_players)), db))
