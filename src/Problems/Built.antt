-- ===== src/Problems/Built.antt =====
-- The driver code that a player is shown is that of the build of a submission.
use rogue_learn_code_battle.Base.{◌≡◌, Bool, Option, some, String, Text}
use rogue_learn_code_battle.Store.Models.{Uuid, Language, CodeProblemLanguageDetail}
use rogue_learn_code_battle.Store.Db.{Db, ok}
use rogue_learn_code_battle.Store.Submissions.{
  get_language_by_name, get_code_problem_language_detail,
}
use rogue_learn_code_battle.Executor.Languages.{normalize_language}
use rogue_learn_code_battle.Executor.Builder.{CodeBuilder, rejected, wrong_syntax, build}
use rogue_learn_code_battle.Executor.Sanitize.{SanitizationError}
use rogue_learn_code_battle.Executor.Containers.{Docker}
use rogue_learn_code_battle.Executor.Pool.{Queue, Others}
use rogue_learn_code_battle.Handlers.{SubmissionRequest}
use rogue_learn_code_battle.Handlers.Submit.{
  Server, answers, wrong_code, server_error, submit_solution,
}
use rogue_learn_code_battle.Problems.{CodeProblemLanguageDetailResponse, found, get_problem_details}

module _ (docker : Docker) (match_string : String → Text → Option Bool) (builder : CodeBuilder)
    (queue : Queue) (others : Others docker) where
  open docker use {World}

  -- What a submission does with a build that has no code.
  pub record Refuses (player problem : Uuid) (req : SubmissionRequest) (s : Server World)
      (driver : Text) : Type 0 where
    pub on_syntax :
        build match_string builder (normalize_language req.language).0 driver req.code
          ≡ wrong_syntax
        → submit_solution docker match_string builder queue others
            (some req)
            (some player)
            (some problem)
            s
          ≡ answers wrong_code s
    pub on_rejection :
        (err : SanitizationError)
        → build match_string builder (normalize_language req.language).0 driver req.code
          ≡ rejected err
        → submit_solution docker match_string builder queue others
            (some req)
            (some player)
            (some problem)
            s
          ≡ answers server_error s

  -- What GetProblemDetails shows of the detail that a submission is built with.
  pub record Shows (player problem : Uuid) (req : SubmissionRequest) (s : Server World)
      : Type 0 where
    pub shown : CodeProblemLanguageDetailResponse
    pub language : Language
    pub detail : CodeProblemLanguageDetail
    pub answered : (get_problem_details (some problem) req.language s.db).0 ≡ found shown
    pub named : get_language_by_name (normalize_language req.language).0 s.db ≡ (ok language, s.db)
    pub of_problem : get_code_problem_language_detail problem language.id s.db ≡ (ok detail, s.db)
    pub same_stub : shown.solution_stub ≡ detail.solution_stub
    pub same_driver : shown.driver_code ≡ detail.driver_code
    pub same_time : shown.time_constraint_ms ≡ detail.time_constraint_ms
    pub same_space : shown.space_constraint_mb ≡ detail.space_constraint_mb
    pub refuses : Refuses player problem req s shown.driver_code
