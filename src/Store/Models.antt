-- ===== src/Store/Models.antt =====
-- internal/store/models.go and the tables of sqlc/schema.sql. A uuid is its number; a timestamp is
-- a number of its order; pgtype.UUID, pgtype.Int4 and pgtype.Text are options.
use rogue_learn_code_battle.Base.{ℕ, Bool, Option, none, some, [], Text}

abbrev pub Uuid : Type 0
Uuid = ℕ

-- The String field of a pgtype.Text: a null is "".
abbrev pub text_or_empty : Option Text → Text
text_or_empty none = []
text_or_empty (some s) = s

-- SubmissionStatus
pub data SubmissionStatus : Type 0 where
  event_unspecified pending accepted wrong_answer limit_exceed runtime_error compilation_error :
      SubmissionStatus

-- RoomPlayerState: a string, of which the database's enum has the four below.
pub data RoomPlayerState : Type 0 where
  present disconnected left completed : RoomPlayerState
  invalid_state : Text → RoomPlayerState

-- Language
pub record Language : Type 0 where
  pub id : Uuid
  pub name : Text
  pub compile_cmd : Text
  pub run_cmd : Text
  pub temp_file_dir : Option Text
  pub temp_file_name : Option Text

-- TestCase
pub record TestCase : Type 0 where
  pub id : Uuid
  pub code_problem_id : Uuid
  pub input : Text
  pub expected_output : Text
  pub is_hidden : Bool

-- CodeProblemLanguageDetail
pub record CodeProblemLanguageDetail : Type 0 where
  pub code_problem_id : Uuid
  pub language_id : Uuid
  pub solution_stub : Text
  pub driver_code : Text
  pub time_constraint_ms : ℕ
  pub space_constraint_mb : ℕ

-- RoomPlayer
pub record RoomPlayer : Type 0 where
  pub room_id : Uuid
  pub user_id : Uuid
  pub username : Text
  pub score : ℕ
  pub place : Option ℕ
  pub state : RoomPlayerState
  pub disconnected_at : Option ℕ
  pub joined_at : ℕ

-- Submission
pub record Submission : Type 0 where
  pub id : Uuid
  pub user_id : Uuid
  pub code_problem_id : Uuid
  pub language_id : Uuid
  pub room_id : Option Uuid
  pub code_submitted : Text
  pub status : SubmissionStatus
