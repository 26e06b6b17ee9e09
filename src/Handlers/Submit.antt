-- ===== src/Handlers/Submit.antt =====
-- internal/handlers/submission.go: SubmitSolutionHandler, which runs a solution outside of a room.
pub mod Rows
pub mod Settled
use rogue_learn_code_battle.Base.{
  Bool, true, false, Option, none, some, List, String, Text, if◌then◌else◌,
}
use rogue_learn_code_battle.Store.Models.{
  Uuid, Language, TestCase, Submission, SubmissionStatus, pending,
}
use rogue_learn_code_battle.Store.Db.{Db, Query, QueryResult, ok, no_rows, query_error, statement}
use rogue_learn_code_battle.Store.Submissions.{
  get_language_by_name, get_code_problem_language_detail, get_test_cases_by_problem,
  create_submission, update_submission_status,
}
use rogue_learn_code_battle.Executor.Languages.{normalize_language}
use rogue_learn_code_battle.Executor.Builder.{
  CodeBuilder, Build, built, rejected, wrong_syntax, build,
}
use rogue_learn_code_battle.Executor.Containers.{Docker, Manager}
use rogue_learn_code_battle.Executor.Pool.{Queue, Result, Others, run_job}
use rogue_learn_code_battle.Handlers.{SubmissionRequest, result_status}

-- The database and the containers.
pub record Server (W : Type 0) : Type 0 where
  pub db : Db
  pub manager : Manager W

-- What SubmitSolutionHandler answers: 400 by its message, 500, 200 with the result, or, when the
-- query for the language fails, nothing at all, which is a 200 without a body.
pub data SubmitAnswer : Type 0 where
  invalid_request invalid_player invalid_problem invalid_language internal_error wrong_code :
      SubmitAnswer
  server_error no_body : SubmitAnswer
  solved : Result → SubmitAnswer

-- A part of the handler goes on with a value, ends with an answer, or never returns.
pub data Flow (W A : Type 0) : Type 0 where
  goes_on : A → Server W → Flow W A
  answers : SubmitAnswer → Server W → Flow W A
  hangs : Flow W A

abbrev pub Web : Type 0 → Type 0 → Type 0
Web W A = Server W → Flow W A

abbrev pub go_on : {W A B : Type 0} → Flow W A → (A → Web W B) → Flow W B
go_on (goes_on a s) f = f a s
go_on (answers r s) f = answers r s
go_on hangs f = hangs

infixl 5 ◌>>=◌
abbrev pub ◌>>=◌ : {W A B : Type 0} → Web W A → (A → Web W B) → Web W B
◌>>=◌ m f s = go_on (m s) f

abbrev pub or_answer : {W A : Type 0} → SubmitAnswer → QueryResult A → Web W A
or_answer r (ok a) s = goes_on a s
or_answer r no_rows s = answers r s
or_answer r query_error s = answers r s

-- A query; its error ends the handler with the answer.
abbrev pub query : {W A : Type 0} → SubmitAnswer → Query A → Web W A
query r q s = let (result, db) = q s.db in or_answer r result (record s { db = db })

-- The id of the row that CreateSubmission returns; with an error, which is not looked at, it is the
-- null of an empty row.
abbrev pub id_of : QueryResult Submission → Option Uuid
id_of (ok row) = some row.id
id_of no_rows = none
id_of query_error = none

abbrev pub create : {W : Type 0} → Query Submission → Web W (Option Uuid)
create q s = let (result, db) = q s.db in goes_on (id_of result) (record s { db = db })

-- UpdateSubmissionStatus on an id that may be null, which no row has.
abbrev pub set_result : Option Uuid → SubmissionStatus → Query Submission
set_result none status = statement (λ db. (no_rows, db))
set_result (some id) status = update_submission_status id status

abbrev pub or_build_answer : {W : Type 0} → Build → Web W Text
or_build_answer (built code) s = goes_on code s
or_build_answer (rejected err) s = answers server_error s
or_build_answer wrong_syntax s = answers wrong_code s

module _ (docker : Docker) (match_string : String → Text → Option Bool) (builder : CodeBuilder)
    (queue : Queue) (others : Others docker) where
  open docker use {World}

  -- The call of ExecuteJob.
  unfoldable pub execute : Language → Text → List TestCase → Web World Result
  execute language code cases s =
      elim (run_job docker queue others
        (record { language = language; code = code; test_cases = cases }) s.manager) [
          | none ↦ hangs
          | some (result, manager) ↦ goes_on result (record s { manager = manager })
        ]

  -- What follows the checks of the request.
  unfoldable pub solve : Uuid → Uuid → SubmissionRequest → Text → Web World (Unit {0})
  unfolding execute
  solve player problem req normalized = do
    lang ← query no_body (get_language_by_name normalized)
    detail ← query internal_error (get_code_problem_language_detail problem lang.id)
    cases ← query internal_error (get_test_cases_by_problem detail.code_problem_id)
    code ← or_build_answer (build match_string builder normalized detail.driver_code req.code)
    id ← create (create_submission player problem lang.id none req.code pending)
    result ← execute lang code cases
    _ ← query server_error (set_result id (result_status result))
    answers (solved result)

  -- SubmitSolutionHandler on what DecodeJSON makes of the body, and uuid.Parse of the player and of
  -- the body's problem.
  unfoldable pub submit_solution :
      Option SubmissionRequest → Option Uuid → Option Uuid → Web World (Unit {0})
  submit_solution none player problem = answers invalid_request
  submit_solution (some req) none problem = answers invalid_player
  submit_solution (some req) (some player) none = answers invalid_problem
  submit_solution (some req) (some player) (some problem) =
      let normalized = normalize_language req.language in
      if normalized.1 then solve player problem req normalized.0 else answers invalid_language
