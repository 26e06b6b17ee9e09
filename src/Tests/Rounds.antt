-- ===== src/Tests/Rounds.antt =====
-- A submission that a room takes, runs and scores in two rounds.
use rogue_learn_code_battle.Base.{
  ℕ, ◌≡◌, ◌⊎◌, refl, none, some, false, [], ◌∷◌, codes, text_eq, to_lower, lower_byte, trim_space,
  decimal, replace_first, replace_all, replace_skip, strip_prefix?,
}
use rogue_learn_code_battle.Store.Db.{Db}
use rogue_learn_code_battle.Store.Players.{
  add_score, add_room_player_score, calculate_room_leaderboard, get_room_players, insert_row,
  place_players, rank, sort_rows,
}
use rogue_learn_code_battle.Store.Submissions.{
  get_language_by_name, create_submission, get_code_problem_language_detail,
  get_test_cases_by_problem, sort_cases, set_status, update_submission_status,
}
use rogue_learn_code_battle.Executor.Languages.{normalize_language}
use rogue_learn_code_battle.Executor.Sanitize.{
  sanitize, check_categories, has_matching_pattern, language_categories,
}
use rogue_learn_code_battle.Executor.Sanitize.Patterns.{dangerous_patterns}
use rogue_learn_code_battle.Executor.Builder.{build, get_language_place_holder}
use rogue_learn_code_battle.Executor.Containers.{
  claim_idle, get_available_container, get_available_from, set_container_state, set_state,
}
use rogue_learn_code_battle.Events.{submitted}
use rogue_learn_code_battle.Executor.Pool.{
  copy_code, execute_job, judge, run_command, run_job, run_tests,
}
use rogue_learn_code_battle.Hub.{
  Hub, rounds, step, process_event, process_solution_submitted, execute, arrive,
  generate_solution_result, process_solution_result, accept_solution, calculate_leaderboard,
  get_room_leaderboard_entries, dispatch_event,
}
use rogue_learn_code_battle.Hub.Scores.{two_rounds-scores}
use rogue_learn_code_battle.Store.Models.{Uuid}
use rogue_learn_code_battle.Store.Players.Points.{scores, score_of, Gained}
use rogue_learn_code_battle.Tests.Executor.{simple, python, matches, no_analyzers}
use rogue_learn_code_battle.Tests.Hub.{hub_with, solution, calm, small_db}

-- A problem whose driver code is the submission, with the test case that expects 3.
abbrev sum_db : Db
sum_db = record small_db {
  languages = python ∷ [];
  details =
      record {
        code_problem_id = 7;
        language_id = 1;
        solution_stub = [];
        driver_code = codes "# USER_CODE_HERE";
        time_constraint_ms = 1000;
        space_constraint_mb = 64;
      }
      ∷ [];
  test_cases =
      record {
        id = 1;
        code_problem_id = 7;
        input = codes "1 2";
        expected_output = codes "3";
        is_hidden = false;
      }
      ∷ [];
}

abbrev started : Hub ℕ
started = record (hub_with (submitted solution ∷ [])) { db = sum_db }

abbrev ended : Hub ℕ
ended = elim (rounds simple matches no_analyzers (calm ∷ calm ∷ []) started) [
  | none ↦ started
  | some h ↦ h
]

ends : rounds simple matches no_analyzers (calm ∷ calm ∷ []) started ≡ some ended
unfolding rounds step process_event process_solution_submitted execute arrive normalize_language
    text_eq to_lower lower_byte get_language_by_name create_submission
    get_code_problem_language_detail get_test_cases_by_problem sort_cases build sanitize
    check_categories dangerous_patterns has_matching_pattern language_categories
    get_language_place_holder replace_first strip_prefix? replace_all replace_skip decimal
    trim_space claim_idle get_available_container get_available_from set_container_state set_state
    copy_code execute_job judge run_command run_job run_tests generate_solution_result
    process_solution_result accept_solution calculate_leaderboard get_room_leaderboard_entries
    dispatch_event add_room_player_score add_score calculate_room_leaderboard get_room_players
    insert_row place_players rank sort_rows set_status update_submission_status
ends = refl

gained : scores ended.db.room_players ≡ scores (add_score 50 9 2 small_db.room_players)
unfolding rounds step process_event process_solution_submitted execute arrive normalize_language
    text_eq to_lower lower_byte get_language_by_name create_submission
    get_code_problem_language_detail get_test_cases_by_problem sort_cases build sanitize
    check_categories dangerous_patterns has_matching_pattern language_categories
    get_language_place_holder replace_first strip_prefix? replace_all replace_skip decimal
    trim_space claim_idle get_available_container get_available_from set_container_state set_state
    copy_code execute_job judge run_command run_job run_tests generate_solution_result
    process_solution_result accept_solution calculate_leaderboard get_room_leaderboard_entries
    dispatch_event add_room_player_score add_score calculate_room_leaderboard get_room_players
    insert_row place_players rank sort_rows set_status update_submission_status
gained = refl

two_rounds-scores_example :
    ((room user : Uuid)
      → score_of room user ended.db.room_players ≡ score_of room user small_db.room_players)
    ⊎ Gained 50 9 2 small_db.room_players ended.db.room_players
two_rounds-scores_example =
    two_rounds-scores simple matches no_analyzers calm calm solution started ended refl refl ends
