-- ===== src/Tests/Delivery.antt =====
-- The theorems on what reaches a listener, at concrete schedules.
use mathlib.Core.Path.{subst}
use rogue_learn_code_battle.Base.{
  ◌≡◌, refl, Bool, Option, some, List, [], ◌∷◌, ◌++◌, Text, codes, tally, arith,
}
use rogue_learn_code_battle.Events.{EventType}
use rogue_learn_code_battle.Sse.Frames.{spectator_frame, write_events}
use rogue_learn_code_battle.Sse.Frames.Read.{IsLine, marshalled, read_stream}
use rogue_learn_code_battle.Sse.Delivery.{
  Wire, WireAct, dispatched, tried, served, hung_up, run_wire, new_wire, dispatched_of, room_outlet,
  spectator_outlet,
}
use rogue_learn_code_battle.Sse.Delivery.Counted.{account}
use rogue_learn_code_battle.Sse.Delivery.Received.{run_wire-reads}
use rogue_learn_code_battle.Sse.Delivery.Drained.{finish, finish-writes}
use rogue_learn_code_battle.Sse.Delivery.Lost.{at_rest, frame_of, two_dispatches}

abbrev braces : EventType → Option Text
braces event = some (codes "{}")

braces_text : {t : Text} → some (codes "{}") ≡ some t → codes "{}" ≡ t
braces_text e = cc (e)

braces-IsLine : (event : EventType) (text : Text) → braces event ≡ some text → IsLine text
braces-IsLine event text e = subst IsLine (braces_text e) refl

abbrev type_of : EventType → EventType
type_of event = event

-- Three events come to a room's player, who gets the second and leaves before the third is tried.
abbrev busy_acts : List (WireAct EventType)
busy_acts =
    served
    ∷ served
    ∷ dispatched EventType.correct_solution_submitted
    ∷ dispatched EventType.leaderboard_updated
    ∷ tried 1
    ∷ tried 0
    ∷ served
    ∷ served
    ∷ dispatched EventType.player_left
    ∷ hung_up
    ∷ served
    ∷ tried 0
    ∷ []

run_wire-reads_example :
    (w : Wire EventType) × (run_wire (room_outlet type_of braces) busy_acts new_wire ≡ some w)
    × (read_stream w.stream ≡ marshalled type_of braces w.written)
    × ((p : EventType → Bool) → account p w ≡ tally p (dispatched_of busy_acts))
run_wire-reads_example = run_wire-reads type_of braces busy_acts braces-IsLine

-- Two guild updates come to a spectator who has just connected.
abbrev early_acts : List (WireAct EventType)
early_acts =
    dispatched EventType.guild_leaderboard_updated
    ∷ tried 0
    ∷ dispatched EventType.guild_leaderboard_updated
    ∷ served
    ∷ []

abbrev hello : Text
hello = codes "data: []"

finish-writes_example :
    (w : Wire EventType) × (run_wire
        (spectator_outlet hello type_of braces)
        (early_acts ++ finish 5 12)
        new_wire
      ≡ some w)
    × (w.lost ≡ [])
    × (w.stream ≡ hello ++ write_events type_of braces spectator_frame w.written)
    × ((p : EventType → Bool) → tally p w.written ≡ tally p (dispatched_of early_acts))
finish-writes_example =
    finish-writes (spectator_outlet hello type_of braces) early_acts 5 12 (λ e. cc)
      ((λ e. cc), ((λ e. cc), ((λ e. cc), ((λ e. cc), tt)))) (omega arith) (omega arith)
      (omega arith)

two_dispatches_example :
    let run : List (WireAct EventType) → Option (Wire EventType) = λ acts.
      run_wire
        (room_outlet type_of braces)
        (dispatched EventType.correct_solution_submitted
          ∷ dispatched EventType.leaderboard_updated
          ∷ acts)
        (at_rest [] [] []) in
    let first = frame_of type_of braces EventType.correct_solution_submitted (codes "{}") in
    let second = frame_of type_of braces EventType.leaderboard_updated (codes "{}") in
    (run (tried 0 ∷ tried 0 ∷ served ∷ served ∷ [])
      ≡ some (
          at_rest first
            (EventType.correct_solution_submitted ∷ [])
            (EventType.leaderboard_updated ∷ [])))
    × (run (tried 1 ∷ tried 0 ∷ served ∷ served ∷ [])
        ≡ some (
            at_rest second
              (EventType.leaderboard_updated ∷ [])
              (EventType.correct_solution_submitted ∷ [])))
    × (run (tried 1 ∷ served ∷ served ∷ tried 0 ∷ served ∷ served ∷ [])
        ≡ some (
            at_rest
              (second ++ first)
              (EventType.leaderboard_updated ∷ EventType.correct_solution_submitted ∷ [])
              []))
two_dispatches_example =
    two_dispatches type_of braces EventType.correct_solution_submitted EventType.leaderboard_updated
      (codes "{}") (codes "{}") [] [] [] refl refl
