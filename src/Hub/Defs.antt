-- ===== src/Hub/Defs.antt =====
-- The handlers of the room's events.
use rogue_learn_code_battle.Base.{
  ℕ, zero, suc, ◌/◌, ◌%◌, Bool, true, false, Option, none, some, List, [], ◌∷◌, ◌++◌, map, Text,
  codes, decimal, if◌then◌else◌,
}
use rogue_learn_code_battle.Store.Models.{Uuid, RoomPlayer, accepted, wrong_answer, invalid_state}
use rogue_learn_code_battle.Store.Db.{QueryResult, ok, no_rows, query_error}
use rogue_learn_code_battle.Store.Players.{
  get_room_player, create_room_player, delete_room_player, add_room_player_score,
  calculate_room_leaderboard, get_room_players,
}
use rogue_learn_code_battle.Store.Submissions.{update_submission_status, delete_room}
use rogue_learn_code_battle.Events.{
  EventType, JudgeStatus, SolutionSubmitted, SolutionResult, PlayerJoined, PlayerLeft, RoomDeleted,
  RoomLeaderboardEntry, SseData, text, entries, SseEvent, status_text,
}
use rogue_learn_code_battle.Executor.Pool.{
  Result, CodeErr, compile_error, run_time_error, fail_test_case, copy_error,
}
use rogue_learn_code_battle.Hub.Exec.{
  Handler, ◌>>=◌, ◌>>◌, pure, attempt, run, notify_guild, dispatch_event, dispatch_event_to_player,
}

-- %d of a uuid, which is an array of sixteen bytes.
uuid_bytes : ℕ → Uuid → Text → Text
uuid_bytes zero id out = out
uuid_bytes (suc n) id out = uuid_bytes n (id / 256) (codes " " ++ (decimal (id % 256) ++ out))

drop_space : Text → Text
drop_space [] = []
drop_space (_ ∷ s) = s

unfoldable pub print_uuid : Uuid → Text
unfolding uuid_bytes drop_space
print_uuid id = codes "[" ++ (drop_space (uuid_bytes 16 id []) ++ codes "]")

-- The score of a solution.
abbrev pub solution_score : ℕ
solution_score = 50

-- The switch of generateSolutionResult on the job's error.
abbrev pub judge_status : Option CodeErr → JudgeStatus
judge_status (some compile_error) = JudgeStatus.compilation_error
judge_status (some run_time_error) = JudgeStatus.runtime_error
judge_status (some fail_test_case) = JudgeStatus.wrong_answer
judge_status (some copy_error) = JudgeStatus.accepted
judge_status none = JudgeStatus.accepted

judge_message : Option CodeErr → Text → Text
judge_message (some compile_error) m = codes "compiled error: " ++ (m ++ codes "\n")
judge_message (some run_time_error) m = codes "runtime error: " ++ (m ++ codes "\n")
judge_message (some fail_test_case) m = codes "test case failed: " ++ (m ++ codes "\n")
judge_message (some copy_error) m = codes "Solution is correct!"
judge_message none m = codes "Solution is correct!"

-- generateSolutionResult
unfoldable pub generate_solution_result : SolutionSubmitted → Result → SolutionResult
unfolding judge_message
generate_solution_result solution_submitted job_result = record {
  solution_submitted = solution_submitted;
  score = solution_score;
  status = judge_status job_result.error;
  message = judge_message job_result.error job_result.message;
}

-- toPgtypeUUID, calculateLeaderboard and getRoomLeaderboardEntries; the mutex of the leaderboard
-- is taken and released within the one query.
abbrev pub entry_of : RoomPlayer → RoomLeaderboardEntry
entry_of p = record {
  player_name = p.username;
  score = p.score;
  place = elim p.place [ none ↦ 0 | some n ↦ n ];
}

abbrev pub is_ok : {A : Type 0} → QueryResult A → Bool
is_ok (ok a) = true
is_ok no_rows = false
is_ok query_error = false

abbrev pub is_accepted : JudgeStatus → Bool
is_accepted JudgeStatus.accepted = true
is_accepted _ = false

abbrev pub sse : EventType → SseData → SseEvent
sse t c = record { event_type = t; content = c }

-- The data of PLAYER_JOINED and PLAYER_LEFT.
unfoldable pub player_text : Uuid → Uuid → Text
player_text player room =
    codes "playerId:"
    ++ (print_uuid player ++ (codes ",roomId:" ++ (print_uuid room ++ codes "\n\n")))

module _ {W : Type 0} where
  unfoldable pub get_room_leaderboard_entries : Handler W (List RoomLeaderboardEntry)
  get_room_leaderboard_entries = do
    room_players ← λ h. run (get_room_players h.room.room_id) h
    pure (map entry_of room_players)

  unfoldable pub calculate_leaderboard : Handler W (QueryResult (Unit {0}))
  calculate_leaderboard h = attempt (calculate_room_leaderboard h.room.room_id) h

  -- processSolutionResult for a solution that is not accepted.
  unfoldable pub reject_solution : SolutionResult → Handler W (Unit {0})
  reject_solution event = do
    _ ← run (update_submission_status event.solution_submitted.submission_id wrong_answer)
    dispatch_event_to_player
        (sse EventType.wrong_solution_submitted (
          text (
            codes "status:" ++ (status_text event.status ++ (codes ",message:" ++ event.message)))))
        event.solution_submitted.player_id

  -- processSolutionResult for an accepted solution. Its score is 50, which int32 keeps.
  unfoldable pub accept_solution : SolutionResult → Handler W (Unit {0})
  unfolding calculate_leaderboard get_room_leaderboard_entries
  accept_solution event = do
    run (
        add_room_player_score event.score event.solution_submitted.room_id
          event.solution_submitted.player_id)
    notify_guild
    _ ← calculate_leaderboard
    dispatch_event (sse EventType.correct_solution_submitted (text []))
    board ← get_room_leaderboard_entries
    dispatch_event (sse EventType.leaderboard_updated (entries board))
    _ ← run (update_submission_status event.solution_submitted.submission_id accepted)
    pure tt

  -- processSolutionResult
  unfoldable pub process_solution_result : SolutionResult → Handler W (Unit {0})
  process_solution_result event =
      if is_accepted event.status then accept_solution event else reject_solution event

  -- addPlayerToRoom: the place is null, the score 0 and the state the empty text.
  unfoldable pub add_player_to_room : Uuid → Uuid → Text → Handler W (Unit {0})
  add_player_to_room room player name = do
    _ ← run (create_room_player room player name 0 none (invalid_state []))
    pure tt

  -- processPlayerJoined behind the check that the player is in the room.
  unfoldable pub announce_joined : PlayerJoined → Handler W (Unit {0})
  unfolding calculate_leaderboard get_room_leaderboard_entries
  announce_joined event = do
    _ ← calculate_leaderboard
    (λ h.
        dispatch_event
          (sse EventType.player_joined (text (player_text event.player_id h.room.room_id))) h)
    board ← get_room_leaderboard_entries
    dispatch_event (sse EventType.leaderboard_updated (entries board))

  -- processPlayerJoined
  unfoldable pub process_player_joined : PlayerJoined → Handler W (Unit {0})
  unfolding add_player_to_room
  process_player_joined event = do
    player ← attempt (get_room_player event.room_id event.player_id)
    if is_ok player
        then pure tt
        else add_player_to_room event.room_id event.player_id (codes "grpc_called")
    announce_joined event

  -- processPlayerLeft: every error is only logged, and the entries are then nil.
  unfoldable pub process_player_left : PlayerLeft → Handler W (Unit {0})
  unfolding calculate_leaderboard
  process_player_left event = do
    _ ← attempt (delete_room_player event.room_id event.player_id)
    _ ← calculate_leaderboard
    (λ h.
        dispatch_event
          (sse EventType.player_left (text (player_text event.player_id h.room.room_id))) h)
    rows ← λ h. attempt (get_room_players h.room.room_id) h
    dispatch_event (
        sse EventType.leaderboard_updated (
          entries
            (elim rows [ ok players ↦ map entry_of players | no_rows ↦ [] | query_error ↦ [] ])))

  -- processRoomDeleted
  unfoldable pub process_room_deleted : RoomDeleted → Handler W (Unit {0})
  process_room_deleted event = do
    _ ← attempt (delete_room event.room_id)
    (λ h.
        dispatch_event
          (sse EventType.room_deleted
            (text (codes "roomId:" ++ (print_uuid h.room.room_id ++ codes "\n\n"))))
          h)
