-- ===== src/Sse/Frames.antt =====
-- internal/handlers/sse.go: what JoinRoomHandler and SpectateEventHandler write for the events that
-- they receive. json.Marshal is a parameter.
pub mod Read
use rogue_learn_code_battle.Base.{
  ℕ, ◌≡◌, Option, none, some, List, [], ◌∷◌, ◌++◌, Text, codes, is_empty, if◌then◌else◌,
}
use rogue_learn_code_battle.Events.{EventType}

abbrev pub newline : ℕ
newline = 10

-- The text of an EventType.
unfoldable pub event_type_text : EventType → Text
event_type_text EventType.correct_solution_submitted = codes "CORRECT_SOLUTION_SUBMITTED"
event_type_text EventType.wrong_solution_submitted = codes "WRONG_SOLUTION_SUBMITTED"
event_type_text EventType.solution_submitted = codes "SOLUTION_SUBMITTED"
event_type_text EventType.player_joined = codes "PLAYER_JOINED"
event_type_text EventType.player_left = codes "PLAYER_LEFT"
event_type_text EventType.room_deleted = codes "ROOM_DELETED"
event_type_text EventType.compilation_test = codes "COMPILATION_TEST"
event_type_text EventType.leaderboard_updated = codes "LEADERBOARD_UPDATED"
event_type_text EventType.guild_leaderboard_updated = codes "GUILD_LEADERBOARD_UPDATED"

-- fmt.Fprintf(w, "event: %s\n", …) and fmt.Fprintf(w, "data: %s\n\n", …)
abbrev pub event_line : Text → Text
event_line event_type = codes "event: " ++ (event_type ++ newline ∷ [])

abbrev pub data_lines : Text → Text
data_lines text = codes "data: " ++ (text ++ newline ∷ newline ∷ [])

-- One event in JoinRoomHandler, where an event without a type has no line for it.
unfoldable pub room_frame : EventType → Text → Text
unfolding event_type_text
room_frame event_type text =
    if is_empty (event_type_text event_type)
    then data_lines text
    else event_line (event_type_text event_type) ++ data_lines text

-- One event in SpectateEventHandler.
unfoldable pub spectator_frame : EventType → Text → Text
spectator_frame event_type text = event_line (event_type_text event_type) ++ data_lines text

module _ {A : Type 0} (event_type : A → EventType) (marshal : A → Option Text) where
  -- The loops of the handlers over the events that they receive; an event that cannot be marshalled
  -- ends them.
  unfoldable pub write_events : (EventType → Text → Text) → List A → Text
  write_events frame [] = []
  write_events frame (event ∷ events) = elim (marshal event) [
    | none ↦ []
    | some text ↦ frame (event_type event) text ++ write_events frame events
  ]
