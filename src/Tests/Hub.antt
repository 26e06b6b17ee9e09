-- ===== src/Tests/Hub.antt =====
-- The theorems on rooms, their players and the web handlers at concrete inputs.
use rogue_learn_code_battle.Base.{
  ℕ, ◌<◌, ◌≡◌, ◌≢◌, ◌↔◌, refl, inl, inr, false, none, some, List, [], ◌∷◌, ◌++◌, codes, lookup,
  nat_eq, Has,
}
use rogue_learn_code_battle.Store.Models.{Uuid, RoomPlayer, Submission, present}
use rogue_learn_code_battle.Store.Models
use rogue_learn_code_battle.Store.Db.{Db}
use rogue_learn_code_battle.Store.Players.{
  rank, place_players, sort_rows, insert_row, delete_room_player, calculate_room_leaderboard,
  get_room_players,
}
use rogue_learn_code_battle.Store.Players.Ranks.{StandsBefore, place_players_order}
use rogue_learn_code_battle.Events.{
  SolutionSubmitted, SolutionResult, RoomEvent, departed, EventType, JudgeStatus, text, entries,
}
use rogue_learn_code_battle.Executor.Pool
use rogue_learn_code_battle.Executor.Pool.{Result, run_job, empty_result, copy_error}
use rogue_learn_code_battle.Hub.{
  RoomHub, Hub, done, failed, database_error, dispatch_event, player_text, entry_of, sse,
  generate_solution_result, process_solution_result, process_player_joined, process_player_left,
  calculate_leaderboard, Setting, step, rounds, process_event,
}
use rogue_learn_code_battle.Hub.Ensures.{Ensures}
use rogue_learn_code_battle.Hub.Joining.{process_player_joined-refused}
use rogue_learn_code_battle.Store.Players.Points.{Gained}
use rogue_learn_code_battle.Hub.Results.{ToldWrong, process_solution_result-ToldWrong}
use rogue_learn_code_battle.Hub.Unrun.{run_job_full-Gained}
use rogue_learn_code_battle.Hub.Accepted.Runs.{to_all}
use rogue_learn_code_battle.Hub.Accepted.{Rewarded, status_of, process_solution_result-scores}
use rogue_learn_code_battle.Handlers.{taken, submit_solution_in_room, submit_solution_in_room-taken}
use rogue_learn_code_battle.Tests.Executor.{
  simple, manager_of, two, quiet, full_queue, free_queue, matches, no_analyzers,
}

abbrev player : Uuid → ℕ → ℕ → RoomPlayer
player user score joined = record {
  room_id = 9;
  user_id = user;
  username = codes "p";
  score = score;
  place = none;
  state = present;
  disconnected_at = none;
  joined_at = joined;
}

abbrev three : List RoomPlayer
three = player 1 100 0 ∷ player 2 50 1 ∷ player 3 100 2 ∷ []

abbrev one_submission : Submission
one_submission = record {
  id = 4;
  user_id = 2;
  code_problem_id = 7;
  language_id = 1;
  room_id = some 9;
  code_submitted = codes "x";
  status = Models.pending;
}

abbrev pub small_db : Db
small_db = record {
  languages = [];
  details = [];
  test_cases = [];
  problems = 7 ∷ [];
  rooms = 9 ∷ [];
  room_players = three;
  submissions = one_submission ∷ [];
  clock = 3;
  next_id = 5;
  faults = [];
}

abbrev room_with : List RoomEvent → RoomHub
room_with events = record {
  room_id = 9;
  event_id = 8;
  events = events;
  listeners = (1, 11) ∷ (2, 12) ∷ [];
}

abbrev pub hub_with : List RoomEvent → Hub ℕ
hub_with events = record {
  room = room_with events;
  db = small_db;
  guild_updates = [];
  manager = manager_of two;
  sent = [];
}

abbrev pub solution : SolutionSubmitted
solution = record {
  submission_id = 4;
  player_id = 2;
  event_id = 8;
  room_id = 9;
  problem_id = 7;
  code = codes "x";
  language = codes "py";
  submitted_time = 3;
}

abbrev verdict : JudgeStatus → SolutionResult
verdict status = record { solution_submitted = solution; score = 50; status = status; message = [] }

abbrev pub calm : Setting simple
calm = record { queue = free_queue; others = quiet; arrivals = [] }

-- The places of the three: of the two with 100 points the one who joined first is first.
abbrev first_placed : RoomPlayer
first_placed = record (player 1 100 0) { place = some 1 }

abbrev last_placed : RoomPlayer
last_placed = record (player 2 50 1) { place = some 3 }

three_placed :
    place_players 9 three
    ≡ first_placed ∷ last_placed ∷ record (player 3 100 2) { place = some 2 } ∷ []
unfolding place_players rank
three_placed = refl

first-Has : Has first_placed (place_players 9 three)
unfolding place_players rank
first-Has = inl refl

last-Has : Has last_placed (place_players 9 three)
unfolding place_players rank
last-Has = inr (inl refl)

place_players_order_example :
    (a : ℕ) × (b : ℕ) × (first_placed.place ≡ some a)
    × (last_placed.place ≡ some b)
    × (StandsBefore first_placed last_placed ↔ (a < b))
place_players_order_example =
    place_players_order 9 three first_placed last_placed first-Has last-Has refl refl

abbrev a_job : Pool.Job
a_job = record {
  language = record {
    id = 1;
    name = codes "Python";
    compile_cmd = [];
    run_cmd = codes "run";
    temp_file_dir = none;
    temp_file_name = none;
  };
  code = codes "x";
  test_cases = [];
}

process_player_joined-refused_example :
    (h' : Hub ℕ) × (process_player_joined (record { player_id = 5; room_id = 9 }) (hub_with [])
      ≡ failed database_error h')
    × (h'.db.room_players ≡ three)
    × (h'.sent ≡ [])
    × (h'.room ≡ room_with [])
process_player_joined-refused_example =
    process_player_joined-refused (record { player_id = 5; room_id = 9 }) (hub_with []) refl

process_solution_result-scores_example :
    (h' : Hub ℕ) × (process_solution_result (verdict JudgeStatus.accepted) (hub_with [])
      ≡ done tt h')
    × Rewarded (verdict JudgeStatus.accepted) (hub_with []) h'
process_solution_result-scores_example =
    process_solution_result-scores (verdict JudgeStatus.accepted) (hub_with []) refl refl refl
      one_submission refl

run_job_full-Gained_example :
    (r : Result) × (h' : Hub ℕ) × (run_job simple full_queue quiet a_job (manager_of two)
      ≡ some (r, manager_of two))
    × (r.success ≡ false)
    × (process_solution_result (generate_solution_result solution r) (hub_with []) ≡ done tt h')
    × Gained 50 9 2 three h'.db.room_players
    × (status_of 4 h'.db.submissions ≡ some Models.accepted)
run_job_full-Gained_example =
    run_job_full-Gained simple full_queue quiet a_job (manager_of two) solution (hub_with [])
      one_submission refl refl refl refl

submit_solution_in_room-taken_example :
    let result =
      submit_solution_in_room
        (some 2)
        (some 8)
        (some 9)
        (some (record { code = codes "x"; language = codes "py" }))
        (some 7)
        3
        ((9, room_with []) ∷ []) in
    ((result.0 ≡ taken) ↔ (0 < 10))
    × ((e : SolutionSubmitted) × (result.0 ≡ taken
          → (lookup 9 result.1 ≡ some (room_with (RoomEvent.submitted e ∷ []))))
        × (e.player_id ≡ 2)
        × (e.event_id ≡ 8)
        × (e.submitted_time ≡ 3)
        × (e.room_id ≡ 9)
        × (e.problem_id ≡ 7)
        × (e.code ≡ codes "x")
        × (e.language ≡ codes "py"))
    × ((other : Uuid) → other ≢ 9 → lookup other result.1 ≡ lookup other ((9, room_with []) ∷ []))
    × (result.0 ≢ taken → result.1 ≡ (9, room_with []) ∷ [])
submit_solution_in_room-taken_example =
    submit_solution_in_room-taken 2 8 9 7 (record { code = codes "x"; language = codes "py" }) 3
      ((9, room_with []) ∷ []) (room_with []) refl

-- A player leaves: one round of the loop.
abbrev left_hub : Hub ℕ
left_hub = record (hub_with []) {
  db = record small_db {
    room_players =
        record (player 1 100 0) { place = some 1 }
        ∷ record (player 3 100 2) { place = some 2 }
        ∷ [];
  };
  sent =
      (to_all (room_with []) (sse EventType.player_left (text (player_text 2 9)))
        ++ to_all (room_with []) (
            sse EventType.leaderboard_updated (
              entries (
                entry_of (record (player 1 100 0) { place = some 1 })
                ∷ entry_of (record (player 3 100 2) { place = some 2 })
                ∷ []))));
}

leaves :
    rounds simple matches no_analyzers
      (calm ∷ [])
      (hub_with (departed (record { player_id = 2; room_id = 9 }) ∷ []))
    ≡ some left_hub
unfolding rounds step process_event process_player_left calculate_leaderboard
    calculate_room_leaderboard delete_room_player get_room_players place_players rank dispatch_event
    sort_rows insert_row
leaves = refl

process_solution_result-ToldWrong_example :
    Ensures
      (λ _ h'. (h'.db.room_players ≡ three) × ToldWrong 2 (hub_with []) h')
      (λ h'. (h'.db.room_players ≡ three) × (h'.sent ≡ []))
      ⊥
      (process_solution_result (verdict JudgeStatus.wrong_answer) (hub_with []))
process_solution_result-ToldWrong_example =
    process_solution_result-ToldWrong (verdict JudgeStatus.wrong_answer) (hub_with []) refl
