-- ===== src/Events.antt =====
-- internal/events/events.go: the events of a room and what is sent to its listeners.
use rogue_learn_code_battle.Base.{ℕ, List, Text, codes}
use rogue_learn_code_battle.Store.Models.{Uuid}

-- EventType
pub data EventType : Type 0 where
  correct_solution_submitted wrong_solution_submitted solution_submitted player_joined player_left
        room_deleted compilation_test leaderboard_updated guild_leaderboard_updated :
      EventType

-- JudgeStatus
pub data JudgeStatus : Type 0 where
  accepted wrong_answer runtime_error compilation_error time_limit_exceeded memory_limit_exceeded :
      JudgeStatus

-- SolutionSubmitted
pub record SolutionSubmitted : Type 0 where
  pub submission_id : Uuid
  pub player_id : Uuid
  pub event_id : Uuid
  pub room_id : Uuid
  pub problem_id : Uuid
  pub code : Text
  pub language : Text
  pub submitted_time : ℕ

-- SolutionResult
pub record SolutionResult : Type 0 where
  pub solution_submitted : SolutionSubmitted
  pub score : ℕ
  pub status : JudgeStatus
  pub message : Text

-- PlayerJoined, PlayerLeft and RoomDeleted
pub record PlayerJoined : Type 0 where
  pub player_id : Uuid
  pub room_id : Uuid

pub record PlayerLeft : Type 0 where
  pub player_id : Uuid
  pub room_id : Uuid

pub record RoomDeleted : Type 0 where
  pub room_id : Uuid

-- What RoomHub.Events carries; `other_event` is a value of any other type.
pub data RoomEvent : Type 0 where
  submitted : SolutionSubmitted → RoomEvent
  judged : SolutionResult → RoomEvent
  joined : PlayerJoined → RoomEvent
  departed : PlayerLeft → RoomEvent
  deleted : RoomDeleted → RoomEvent
  other_event : RoomEvent

-- hub.RoomLeaderboardEntry
pub record RoomLeaderboardEntry : Type 0 where
  pub player_name : Text
  pub score : ℕ
  pub place : ℕ

-- The Data of an SseEvent: a text or the entries of a leaderboard.
pub data SseData : Type 0 where
  text : Text → SseData
  entries : List RoomLeaderboardEntry → SseData

-- SseEvent
pub record SseEvent : Type 0 where
  pub event_type : EventType
  pub content : SseData

-- The text of a JudgeStatus.
unfoldable pub status_text : JudgeStatus → Text
status_text accepted = codes "Accepted"
status_text wrong_answer = codes "Wrong Answer"
status_text runtime_error = codes "Runtime Error"
status_text compilation_error = codes "Compilation Error"
status_text time_limit_exceeded = codes "Time Limit Exceeded"
status_text memory_limit_exceeded = codes "Memory Limit Exceeded"
