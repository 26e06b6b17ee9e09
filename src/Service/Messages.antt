-- ===== src/Service/Messages.antt =====
-- The messages of internal/service/code_battle.go.
use rogue_learn_code_battle.Base.{ℕ, Bool, Option, List, Text}
use rogue_learn_code_battle.Store.Models.{
  SubmissionStatus, pending, accepted, wrong_answer, runtime_error, compilation_error,
}

-- pb.Status
pub record Status : Type 0 where
  pub success : Bool
  pub message : Text
  pub error_message : Text

-- pb.Event; its type is the number of EventType_code_battle, whatever the row says.
pub record PbEvent : Type 0 where
  pub id : Text
  pub title : Text
  pub description : Text
  pub event_type : ℕ
  pub start_date : ℕ
  pub end_date : ℕ

-- pb.Submission
pub record PbSubmission : Type 0 where
  pub id : Text
  pub user_id : Text
  pub language_id : Text
  pub room_id : Text
  pub code_problem_id : Text
  pub code_submitted : Text
  pub status : ℕ

-- SubmissionStatus_value at a status: a text that it lacks gives 0.
abbrev pub pb_status : SubmissionStatus → ℕ
pb_status pending = 1
pb_status accepted = 2
pb_status wrong_answer = 3
pb_status runtime_error = 5
pb_status compilation_error = 6
pb_status _ = 0

-- DefaultGetLimit
abbrev pub default_get_limit : ℕ
default_get_limit = 10

-- A response, and whether an error comes with it.
pub record GetEventsResponse : Type 0 where
  pub status : Status
  pub events : List PbEvent

-- SubmitCodeSolutionRequest
pub record SubmitCodeSolutionRequest : Type 0 where
  pub code_problem_id : Text
  pub user_id : Text
  pub language_id : Text
  pub room_id : Text
  pub code_submitted : Text

-- What SubmitCodeSolution returns: a response with its status, its submission and an error, or no
-- response and no error.
pub data SubmitReturn : Type 0 where
  refused : Status → Option PbSubmission → SubmitReturn
  nothing : SubmitReturn
