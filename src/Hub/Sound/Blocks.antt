-- ===== src/Hub/Sound/Blocks.antt =====
-- The queries and blocks of the handlers leave a sound state.
use rogue_learn_code_battle.Base.{
  ◌≤◌, Bool, true, false, Option, [], ◌∷◌, map, arith, Text, length, length-append, ltb,
  if◌then◌else◌, ltb→lt, Bool-cases, lookup, nat_eq, Option-cases, inl, inr,
}
use rogue_learn_code_battle.Store.Models.{Uuid, SubmissionStatus}
use rogue_learn_code_battle.Store.Db.{Query, QueryResult, ok, no_rows, query_error}
use rogue_learn_code_battle.Store.Players.{get_room_player, get_room_players}
use rogue_learn_code_battle.Store.Players.Keys.{
  UniqueRows, KeepsRows, KeepsRows-same, create_room_player-KeepsRows, delete_room_player-KeepsRows,
  add_room_player_score-KeepsRows, calculate_room_leaderboard-KeepsRows,
}
use rogue_learn_code_battle.Store.Submissions.{
  get_language_by_name, get_code_problem_language_detail, get_test_cases_by_problem,
  create_submission, update_submission_status, delete_room,
}
use rogue_learn_code_battle.Events.{RoomEvent, SseEvent}
use rogue_learn_code_battle.Hub.Ensures.{Ensures, returned, errored, hung, Ensures-bind}
use rogue_learn_code_battle.Hub.Exec.{
  Hub, HubError, Handler, ◌>>=◌, ◌>>◌, pure, guard, attempt, or_fail, run, events_capacity,
  guild_capacity, send_event, notify_guild, dispatch_event, dispatch_event_to_player,
}
use rogue_learn_code_battle.Hub.Defs.{entry_of, calculate_leaderboard, get_room_leaderboard_entries}

-- Both buffers are within their capacity, and no two rows are of one player in one room.
pub record IsSound {W : Type 0} (h : Hub W) : Type 0 where
  pub buffered : length h.room.events ≤ events_capacity
  pub notified : length h.guild_updates ≤ guild_capacity
  pub unique : UniqueRows h.db.room_players

-- A handler that leaves a sound state if it starts in one, on a return and on an error.
pub record KeepsSound {W A : Type 0} (m : Handler W A) : Type 0 where
  pub keeps_sound :
      (h : Hub W) → IsSound h → Ensures (λ _ h'. IsSound h') (λ h'. IsSound h') (Unit {0}) (m h)

pub get_room_player-KeepsRows : (room user : Uuid) → KeepsRows (get_room_player room user)
unfolding get_room_player
get_room_player-KeepsRows room user = KeepsRows-same _ (λ db. ground arith)

pub get_room_players-KeepsRows : (room : Uuid) → KeepsRows (get_room_players room)
unfolding get_room_players
get_room_players-KeepsRows room = KeepsRows-same _ (λ db. ground arith)

pub update_submission_status-KeepsRows :
    (id : Uuid) (status : SubmissionStatus) → KeepsRows (update_submission_status id status)
unfolding update_submission_status
update_submission_status-KeepsRows id status = KeepsRows-same _ (λ db. ground arith)

pub delete_room-KeepsRows : (room : Uuid) → KeepsRows (delete_room room)
unfolding delete_room
delete_room-KeepsRows room = KeepsRows-same _ (λ db. ground arith)

pub create_submission-KeepsRows :
    (user problem language : Uuid) (room : Option Uuid) (code : Text) (status : SubmissionStatus)
    → KeepsRows (create_submission user problem language room code status)
unfolding create_submission
create_submission-KeepsRows user problem language room code status =
    KeepsRows-same _ (λ db. ground arith)

pub get_language_by_name-KeepsRows : (name : Text) → KeepsRows (get_language_by_name name)
unfolding get_language_by_name
get_language_by_name-KeepsRows name = KeepsRows-same _ (λ db. ground arith)

pub get_code_problem_language_detail-KeepsRows :
    (problem language : Uuid) → KeepsRows (get_code_problem_language_detail problem language)
unfolding get_code_problem_language_detail
get_code_problem_language_detail-KeepsRows problem language = KeepsRows-same _ (λ db. ground arith)

pub get_test_cases_by_problem-KeepsRows :
    (problem : Uuid) → KeepsRows (get_test_cases_by_problem problem)
unfolding get_test_cases_by_problem
get_test_cases_by_problem-KeepsRows problem = KeepsRows-same _ (λ db. ground arith)

module _ {W : Type 0} where
  pub then_sound :
      {A B : Type 0} {m : Handler W A} {f : A → Handler W B}
      → KeepsSound m
      → ((a : A) → KeepsSound (f a))
      → KeepsSound (m >>= f)
  then_sound keeps next = record {
    keeps_sound = λ h s. Ensures-bind _ (keeps.keeps_sound h s) (λ a. (next a).keeps_sound);
  }

  pub next_sound :
      {B : Type 0} {m : Handler W (Unit {0})} {k : Handler W B}
      → KeepsSound m
      → KeepsSound k
      → KeepsSound (m >> k)
  next_sound keeps next = then_sound keeps (λ _. next)

  -- A handler that looks at the state first.
  pub reading_sound :
      {A : Type 0} {m : Hub W → Handler W A}
      → ((h : Hub W) → KeepsSound (m h))
      → KeepsSound (λ h. m h h)
  reading_sound keeps = record { keeps_sound = λ h. (keeps h).keeps_sound h }

  pub attempt_sound : {A : Type 0} (q : Query A) → KeepsRows q → KeepsSound {W = W} (attempt q)
  attempt_sound q keeps = record {
    keeps_sound = λ h s. returned (record {
      buffered = s.buffered;
      notified = s.notified;
      unique = keeps.keeps_rows h.db s.unique;
    });
  }

  pub or_fail_sound : {A : Type 0} (r : QueryResult A) → KeepsSound {W = W} (or_fail r)
  or_fail_sound (ok a) = record { keeps_sound = λ h s. returned s }
  or_fail_sound no_rows = record { keeps_sound = λ h s. errored s }
  or_fail_sound query_error = record { keeps_sound = λ h s. errored s }

  pub run_sound : {A : Type 0} (q : Query A) → KeepsRows q → KeepsSound {W = W} (run q)
  run_sound q keeps = then_sound (attempt_sound q keeps) or_fail_sound

  pub pure_sound : {A : Type 0} (a : A) → KeepsSound {W = W} (pure a)
  pure_sound a = record { keeps_sound = λ h s. returned s }

  pub guard_sound : (b : Bool) (e : HubError) → KeepsSound {W = W} (guard b e)
  guard_sound true e = record { keeps_sound = λ h s. returned s }
  guard_sound false e = record { keeps_sound = λ h s. errored s }

  pub dispatch_event_sound : (e : SseEvent) → KeepsSound {W = W} (dispatch_event e)
  unfolding dispatch_event
  dispatch_event_sound e = record {
    keeps_sound = λ h s.
        returned (record { buffered = s.buffered; notified = s.notified; unique = s.unique });
  }

  pub dispatch_event_read_sound :
      (e : Hub W → SseEvent) → KeepsSound {W = W} (λ h. dispatch_event (e h) h)
  dispatch_event_read_sound e = reading_sound (λ h. dispatch_event_sound (e h))

  pub get_room_players_sound : KeepsSound {W = W} (λ h. attempt (get_room_players h.room.room_id) h)
  get_room_players_sound =
      reading_sound (λ h. attempt_sound _ (get_room_players-KeepsRows h.room.room_id))

  pub if_sound :
      {A : Type 0} (b : Bool) {m k : Handler W A}
      → KeepsSound m
      → KeepsSound k
      → KeepsSound (if b then m else k)
  if_sound true keeps other = keeps
  if_sound false other keeps = keeps

  pub dispatch_event_to_player_sound :
      (e : SseEvent) (player : Uuid) → KeepsSound {W = W} (dispatch_event_to_player e player)
  unfolding dispatch_event_to_player
  dispatch_event_to_player_sound e player = record {
    keeps_sound = λ h s. elim (Option-cases (lookup player h.room.listeners)) [
      | inl absent ↦ rw (absent, dispatch_event_to_player) (returned s)
      | inr (channel, here) ↦
          rw (here, dispatch_event_to_player)
            (returned (record { buffered = s.buffered; notified = s.notified; unique = s.unique }))
    ];
  }

  pub notify_guild_sound : KeepsSound {W = W} notify_guild
  notify_guild_sound = record {
    keeps_sound = λ h s. elim (Bool-cases (ltb (length h.guild_updates) guild_capacity)) [
      | inl room ↦ rw room (
          returned (record {
            buffered = s.buffered;
            notified =
                omega
                  (arith, length-append h.guild_updates (h.room.event_id ∷ []), ltb→lt _ _ room);
            unique = s.unique;
          }))
      | inr full ↦ rw full (returned s)
    ];
  }

  pub send_event_sound : (e : RoomEvent) → KeepsSound {W = W} (send_event e)
  send_event_sound e = record {
    keeps_sound = λ h s. elim (Bool-cases (ltb (length h.room.events) events_capacity)) [
      | inl room ↦ rw room (
          returned (record {
            buffered = omega (arith, length-append h.room.events (e ∷ []), ltb→lt _ _ room);
            notified = s.notified;
            unique = s.unique;
          }))
      | inr full ↦ rw full (hung tt)
    ];
  }

  pub get_room_leaderboard_entries_sound : KeepsSound {W = W} get_room_leaderboard_entries
  unfolding get_room_leaderboard_entries
  get_room_leaderboard_entries_sound =
      then_sound (reading_sound (λ h. run_sound _ (get_room_players-KeepsRows h.room.room_id)))
        (λ rows. pure_sound (map entry_of rows))

  pub calculate_leaderboard_sound : KeepsSound {W = W} calculate_leaderboard
  unfolding calculate_leaderboard
  calculate_leaderboard_sound =
      reading_sound (λ h. attempt_sound _ (calculate_room_leaderboard-KeepsRows h.room.room_id))

pub ruleset sound = (
  get_room_player-KeepsRows, get_room_players-KeepsRows, update_submission_status-KeepsRows,
  delete_room-KeepsRows, create_submission-KeepsRows, get_language_by_name-KeepsRows,
  get_code_problem_language_detail-KeepsRows, get_test_cases_by_problem-KeepsRows,
  create_room_player-KeepsRows, delete_room_player-KeepsRows, add_room_player_score-KeepsRows,
  calculate_room_leaderboard-KeepsRows, then_sound, next_sound, attempt_sound, run_sound,
  pure_sound, guard_sound, get_room_players_sound, if_sound, dispatch_event_sound,
  dispatch_event_read_sound, dispatch_event_to_player_sound, notify_guild_sound, send_event_sound,
  get_room_leaderboard_entries_sound, calculate_leaderboard_sound,
)
