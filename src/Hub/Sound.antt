-- ===== src/Hub/Sound.antt =====
-- What the loop of a room keeps: its buffers stay within their capacity and its players stay unique.
pub mod Blocks
use rogue_learn_code_battle.Base.{
  ℕ, ◌+◌, ◌≤◌, ◌≡◌, refl, ap, Bool, true, false, Option, none, some, List, [], ◌∷◌, ◌++◌, map,
  arith, String, Text, codes, length, length-append, ltb, leb, if◌then◌else◌, ltb→lt, Bool-cases,
  lookup, nat_eq, Option-cases, inl, inr,
}
use rogue_learn_code_battle.Store.Models.{
  Uuid, Language, TestCase, pending, accepted, wrong_answer, invalid_state, SubmissionStatus,
}
use rogue_learn_code_battle.Store.Db.{Db, Query, QueryResult, ok, no_rows, query_error}
use rogue_learn_code_battle.Store.Players.{
  get_room_player, create_room_player, delete_room_player, add_room_player_score,
  calculate_room_leaderboard, get_room_players,
}
use rogue_learn_code_battle.Store.Players.Keys.{
  UniqueRows, KeepsRows, KeepsRows-same, create_room_player-KeepsRows, delete_room_player-KeepsRows,
  add_room_player_score-KeepsRows, calculate_room_leaderboard-KeepsRows,
}
use rogue_learn_code_battle.Store.Submissions.{
  get_language_by_name, get_code_problem_language_detail, get_test_cases_by_problem,
  create_submission, update_submission_status, delete_room,
}
use rogue_learn_code_battle.Events.{
  SolutionSubmitted, SolutionResult, PlayerJoined, PlayerLeft, RoomDeleted, RoomEvent, submitted,
  judged, joined, departed, deleted, other_event, SseEvent,
}
use rogue_learn_code_battle.Executor.Builder.{CodeBuilder, Build, built, rejected, wrong_syntax}
use rogue_learn_code_battle.Executor.Containers.{Docker, Manager}
use rogue_learn_code_battle.Executor.Pool.{Result, run_job}
use rogue_learn_code_battle.Hub.Ensures.{Ensures, returned, errored, hung, Ensures-bind}
use rogue_learn_code_battle.Hub.Exec.{
  Hub, HubError, Outcome, done, failed, blocked, Handler, ◌>>=◌, ◌>>◌, pure, guard, attempt,
  or_fail, run, events_capacity, guild_capacity, send_event, notify_guild, dispatch_event,
  dispatch_event_to_player, continue,
}
use rogue_learn_code_battle.Hub.Defs.{
  is_accepted, is_ok, entry_of, calculate_leaderboard, get_room_leaderboard_entries,
  accept_solution, reject_solution, process_solution_result, add_player_to_room, announce_joined,
  process_player_joined, process_player_left, process_room_deleted,
}
use rogue_learn_code_battle.Hub.Submit.{
  Setting, arrive, or_build_failed, execute, process_solution_submitted, process_event, after, step,
  rounds,
}
use rogue_learn_code_battle.Hub.Sound.Blocks.{
  IsSound, KeepsSound, next_sound, sound, get_room_player-KeepsRows, get_room_players-KeepsRows,
  update_submission_status-KeepsRows, delete_room-KeepsRows, create_submission-KeepsRows,
  get_language_by_name-KeepsRows, get_code_problem_language_detail-KeepsRows,
  get_test_cases_by_problem-KeepsRows, then_sound, reading_sound, attempt_sound, run_sound,
  pure_sound, guard_sound, dispatch_event_sound, dispatch_event_to_player_sound, notify_guild_sound,
  send_event_sound, get_room_leaderboard_entries_sound, calculate_leaderboard_sound,
}

module _ {W : Type 0} where
  reject_solution_sound : (event : SolutionResult) → KeepsSound {W = W} (reject_solution event)
  unfolding reject_solution
  reject_solution_sound event = search sound

  accept_solution_sound : (event : SolutionResult) → KeepsSound {W = W} (accept_solution event)
  unfolding accept_solution
  accept_solution_sound event = search sound depth 12

  process_solution_result_sound :
      (event : SolutionResult) → KeepsSound {W = W} (process_solution_result event)
  unfolding process_solution_result
  process_solution_result_sound event = search (sound, accept_solution_sound, reject_solution_sound)

  add_player_to_room_sound :
      (room player : Uuid) (name : Text) → KeepsSound {W = W} (add_player_to_room room player name)
  unfolding add_player_to_room
  add_player_to_room_sound room player name = search sound

  announce_joined_sound : (event : PlayerJoined) → KeepsSound {W = W} (announce_joined event)
  unfolding announce_joined
  announce_joined_sound event = search sound

  process_player_joined_sound :
      (event : PlayerJoined) → KeepsSound {W = W} (process_player_joined event)
  unfolding process_player_joined
  process_player_joined_sound event =
      search (sound, add_player_to_room_sound, announce_joined_sound)

  process_player_left_sound : (event : PlayerLeft) → KeepsSound {W = W} (process_player_left event)
  unfolding process_player_left
  process_player_left_sound event = search sound

  process_room_deleted_sound :
      (event : RoomDeleted) → KeepsSound {W = W} (process_room_deleted event)
  unfolding process_room_deleted
  process_room_deleted_sound event = search sound

arrive-le :
    (es events : List RoomEvent)
    → length events ≤ events_capacity
    → length (arrive es events) ≤ events_capacity
unfolding arrive
arrive-le [] events h = h
arrive-le (e ∷ es) events h = arrive-le es _ (ground (arith, length-append events (e ∷ [])))

-- What is left of a state when a round ends, if the round ends.
abbrev IsSoundIfAny : {W : Type 0} → Option (Hub W) → Type 0
IsSoundIfAny none = Unit {0}
IsSoundIfAny (some h) = IsSound h

none-some : {A : Type 0} {a : A} → none ≡ some a → ⊥
none-some e = cc

IsSoundIfAny-some :
    {W : Type 0} {o : Option (Hub W)} {h : Hub W} → o ≡ some h → IsSoundIfAny o → IsSound h
IsSoundIfAny-some e s = rw e at s

module _ (docker : Docker) (match_string : String → Text → Option Bool)
    (builder : CodeBuilder) where
  open docker use {World}

  or_build_failed_sound : (b : Build) → KeepsSound {W = World} (or_build_failed b)
  or_build_failed_sound (built code) = pure_sound code
  or_build_failed_sound (rejected err) = record { keeps_sound = λ h s. errored s }
  or_build_failed_sound wrong_syntax = record { keeps_sound = λ h s. errored s }

  execute_sound :
      (setting : Setting docker) (language : Language) (code : Text) (cases : List TestCase)
      → KeepsSound (execute docker match_string builder setting language code cases)
  unfolding execute
  execute_sound setting language code cases = record {
    keeps_sound = λ h s.
        elim (Option-cases (
          run_job docker setting.queue setting.others
            (record { language = language; code = code; test_cases = cases }) h.manager)) [
              | inl never ↦ rw (never, execute) (hung tt)
              | inr (result, reply) ↦
                  rw (reply, execute)
                    (returned (record {
                      buffered = arrive-le setting.arrivals h.room.events s.buffered;
                      notified = s.notified;
                      unique = s.unique;
                    }))
            ];
  }

  process_solution_submitted_sound :
      (setting : Setting docker) (event : SolutionSubmitted)
      → KeepsSound (process_solution_submitted docker match_string builder setting event)
  unfolding process_solution_submitted
  process_solution_submitted_sound setting event =
      search (sound, or_build_failed_sound, execute_sound) depth 12

  process_event_sound :
      (setting : Setting docker) (e : RoomEvent)
      → KeepsSound (process_event docker match_string builder setting e)
  unfolding process_event
  process_event_sound setting (submitted e) = process_solution_submitted_sound setting e
  process_event_sound setting (judged e) = process_solution_result_sound e
  process_event_sound setting (joined e) = process_player_joined_sound e
  process_event_sound setting (departed e) = process_player_left_sound e
  process_event_sound setting (deleted e) = process_room_deleted_sound e
  process_event_sound setting other_event = pure_sound tt

  after_sound :
      {r : Outcome World (Unit {0})}
      → Ensures (λ _ h. IsSound h) (λ h. IsSound h) (Unit {0}) r
      → IsSoundIfAny (after docker match_string builder r)
  after_sound (returned s) = s
  after_sound (errored s) = s
  after_sound (hung _) = tt

  step_sound :
      (setting : Setting docker) (h : Hub World) (events : List RoomEvent)
      → h.room.events ≡ events
      → IsSound h
      → IsSoundIfAny (step docker match_string builder setting h)
  unfolding step
  step_sound setting h [] none_here s = rw (none_here, step) s
  step_sound setting h (e ∷ rest) here s =
      rw (here, step)
        (after_sound (
          (process_event_sound setting e).keeps_sound
            (record h { room = record h.room { events = rest } })
            (record {
              buffered = omega (arith, ap length here, s.buffered);
              notified = s.notified;
              unique = s.unique;
            })))

  -- From a sound state every round of the loop leads to a sound state, whichever events come in,
  -- whatever the queries, the containers and the submitted programs do: the room's channel holds at
  -- most ten events, the guild channel at most a hundred, and no player has two rows in a room.
  rounds-IsSound :
      (settings : List (Setting docker)) (h h' : Hub World)
      → IsSound h
      → rounds docker match_string builder settings h ≡ some h'
      → IsSound h'
  unfolding rounds
  rounds-IsSound [] h h' s end = IsSoundIfAny-some end s
  rounds-IsSound (setting ∷ settings) h h' s end =
      elim (Option-cases (step docker match_string builder setting h)) [
        | inl never ↦ absurd (none-some (rw (never, rounds) at end))
        | inr (h₁, stepped) ↦
            rounds-IsSound settings h₁ h'
              (IsSoundIfAny-some stepped (step_sound setting h h.room.events refl s))
              (rw (stepped, rounds) at end)
      ]
