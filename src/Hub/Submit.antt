-- ===== src/Hub/Submit.antt =====
-- processSolutionSubmitted, which runs the submitted code, and the loop of RoomHub.Start.
use rogue_learn_code_battle.Base.{
  Bool, Option, none, some, List, [], ◌∷◌, ◌++◌, String, Text, if◌then◌else◌, length, ltb,
}
use rogue_learn_code_battle.Store.Models.{Language, TestCase, pending}
use rogue_learn_code_battle.Store.Submissions.{
  get_language_by_name, get_code_problem_language_detail, get_test_cases_by_problem,
  create_submission,
}
use rogue_learn_code_battle.Events.{
  SolutionSubmitted, RoomEvent, submitted, judged, joined, departed, deleted, other_event,
}
use rogue_learn_code_battle.Executor.Languages.{normalize_language}
use rogue_learn_code_battle.Executor.Builder.{
  CodeBuilder, Build, built, rejected, wrong_syntax, build,
}
use rogue_learn_code_battle.Executor.Containers.{Docker}
use rogue_learn_code_battle.Executor.Pool
use rogue_learn_code_battle.Executor.Pool.{Result, Others, run_job}
use rogue_learn_code_battle.Hub.Exec.{
  Hub, Handler, Outcome, done, failed, blocked, language_not_found, build_failed, ◌>>=◌, ◌>>◌, pure,
  guard, run, send_event, events_capacity,
}
use rogue_learn_code_battle.Hub.Defs.{
  generate_solution_result, process_solution_result, process_player_joined, process_player_left,
  process_room_deleted,
}

abbrev pub or_build_failed : {W : Type 0} → Build → Handler W Text
or_build_failed (built code) h = done code h
or_build_failed (rejected err) h = failed build_failed h
or_build_failed wrong_syntax h = failed build_failed h

-- What the web handlers put into the channel with their non-blocking sends while a job runs: an
-- event that finds the buffer full is dropped.
unfoldable pub arrive : List RoomEvent → List RoomEvent → List RoomEvent
arrive [] events = events
arrive (e ∷ es) events =
    arrive es (if ltb (length events) events_capacity then events ++ e ∷ [] else events)

-- The worker pool at one moment, with what the other goroutines do while a job runs.
pub record Setting (docker : Docker) : Type 0 where
  pub queue : Pool.Queue
  pub others : Others docker
  pub arrivals : List RoomEvent

module _ (docker : Docker) (match_string : String → Text → Option Bool)
    (builder : CodeBuilder) where
  open docker use {World}

  -- The call of ExecuteJob; it may never return.
  unfoldable pub execute : Setting docker → Language → Text → List TestCase → Handler World Result
  execute setting language code cases h =
      elim (run_job docker setting.queue setting.others
        (record { language = language; code = code; test_cases = cases }) h.manager) [
          | none ↦ blocked
          | some (result, manager) ↦ done result (record h {
            manager = manager;
            room = record h.room { events = arrive setting.arrivals h.room.events };
          })
        ]

  -- processSolutionSubmitted
  unfoldable pub process_solution_submitted :
      Setting docker → SolutionSubmitted → Handler World (Unit {0})
  unfolding execute
  process_solution_submitted setting event = do
    let normalized = normalize_language event.language
    guard normalized.1 language_not_found
    lang ← run (get_language_by_name normalized.0)
    submission ← run (
        create_submission event.player_id event.problem_id lang.id (some event.room_id) event.code
          pending)
    problem ← run (get_code_problem_language_detail event.problem_id lang.id)
    cases ← run (get_test_cases_by_problem problem.code_problem_id)
    code ← or_build_failed (build match_string builder normalized.0 problem.driver_code event.code)
    result ← execute setting lang code cases
    send_event
        (judged (generate_solution_result (record event { submission_id = submission.id }) result))

  -- The switch of RoomHub.Start.
  unfoldable pub process_event : Setting docker → RoomEvent → Handler World (Unit {0})
  process_event setting (submitted e) = process_solution_submitted setting e
  process_event setting (judged e) = process_solution_result e
  process_event setting (joined e) = process_player_joined e
  process_event setting (departed e) = process_player_left e
  process_event setting (deleted e) = process_room_deleted e
  process_event setting other_event = pure tt

  -- An error of a handler is only logged; `none` is a loop that never goes on.
  abbrev pub after : Outcome World (Unit {0}) → Option (Hub World)
  after (done _ h) = some h
  after (failed _ h) = some h
  after blocked = none

  -- One round of RoomHub.Start: the oldest event is taken and processed; with none it waits.
  unfoldable pub step : Setting docker → Hub World → Option (Hub World)
  step setting h = elim h.room.events [
    | [] ↦ some h
    | e ∷ rest ↦
        after (process_event setting e (record h { room = record h.room { events = rest } }))
  ]

  -- Rounds of RoomHub.Start, one for each setting.
  unfoldable pub rounds : List (Setting docker) → Hub World → Option (Hub World)
  rounds [] h = some h
  rounds (setting ∷ settings) h = elim (step setting h) [
    | none ↦ none
    | some h' ↦ rounds settings h'
  ]
