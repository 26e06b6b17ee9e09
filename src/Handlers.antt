-- ===== src/Handlers.antt =====
-- internal/handlers/submission.go: the submissions that the web handlers take.
pub mod Submit
use rogue_learn_code_battle.Base.{
  ℕ, ◌<◌, ◌≡◌, ◌≢◌, ◌∙◌, ◌==◌, ◌↔◌, ◌⊎◌, refl, inl, inr, true, Option, none, some, List, [], ◌∷◌,
  ◌++◌, Text, arith, length, ltb, ltb→lt, ltb→le, lookup, insert, nat_eq, lookup-insert,
  if◌then◌else◌, Bool-cases,
}
use rogue_learn_code_battle.Store.Models.{Uuid, SubmissionStatus}
use rogue_learn_code_battle.Store.Models
use rogue_learn_code_battle.Events.{SolutionSubmitted, submitted}
use rogue_learn_code_battle.Executor.Pool.{
  Result, CodeErr, compile_error, run_time_error, fail_test_case, copy_error,
}
use rogue_learn_code_battle.Hub.{RoomHub, events_capacity, generate_solution_result, is_accepted}

-- The status that updateSubmissionStatus stores.
abbrev pub failure_status : Option CodeErr → SubmissionStatus
failure_status (some run_time_error) = Models.runtime_error
failure_status (some compile_error) = Models.compilation_error
failure_status (some fail_test_case) = Models.wrong_answer
failure_status (some copy_error) = Models.runtime_error
failure_status none = Models.runtime_error

unfoldable pub result_status : Result → SubmissionStatus
result_status r = if r.success then Models.accepted else failure_status r.error

-- The web handler and the room store the same status for a result exactly when it is a success or
-- its error is a failed test case. A success carries no error.
result_status_iff :
    (s : SolutionSubmitted) (r : Result)
    → (r.success ≡ true → r.error ≡ none)
    → (result_status r ≡ (
        if is_accepted (generate_solution_result s r).status
        then Models.accepted
        else Models.wrong_answer))
      ↔ ((r.success ≡ true) ⊎ (r.error ≡ some fail_test_case))
unfolding result_status generate_solution_result
result_status_iff s r no_error = ground arith

-- SubmissionRequest
pub record SubmissionRequest : Type 0 where
  pub code : Text
  pub language : Text

-- What SubmitSolutionInRoomHandler answers: 400, 404, 503 and 202.
pub data RoomAnswer : Type 0 where
  bad_request room_not_found busy taken : RoomAnswer

-- EventHub.Rooms
abbrev pub Rooms : Type 0
Rooms = List (Uuid × RoomHub)

-- GetRoomById
abbrev pub get_room_by_id : Uuid → Rooms → Option RoomHub
get_room_by_id id rooms = lookup id rooms

-- The non-blocking send of the handler.
unfoldable pub offer : Uuid → SolutionSubmitted → RoomHub → Rooms → RoomAnswer × Rooms
offer id event room rooms =
    if ltb (length room.events) events_capacity
    then (taken, insert id (record room { events = room.events ++ submitted event ∷ [] }) rooms)
    else (busy, rooms)

-- SubmitSolutionInRoomHandler on what uuid.Parse makes of the player, the event, the room and the
-- problem, and DecodeJSON of the body, in the order of the checks; the time is the request's.
unfoldable pub submit_solution_in_room :
    Option Uuid
    → Option Uuid
    → Option Uuid
    → Option SubmissionRequest
    → Option Uuid
    → ℕ
    → Rooms
    → RoomAnswer × Rooms
unfolding offer
submit_solution_in_room none event room body problem now rooms = (bad_request, rooms)
submit_solution_in_room (some player) none room body problem now rooms = (bad_request, rooms)
submit_solution_in_room (some player) (some event) none body problem now rooms =
    (bad_request, rooms)
submit_solution_in_room (some player) (some event) (some room) none problem now rooms =
    (bad_request, rooms)
submit_solution_in_room (some player) (some event) (some room) (some body) none now rooms =
    (bad_request, rooms)
submit_solution_in_room (some player) (some event) (some room) (some body) (some problem) now
      rooms =
    elim (get_room_by_id room rooms) [
      | none ↦ (room_not_found, rooms)
      | some hub ↦
          offer room
            (record {
              submission_id = 0;
              player_id = player;
              event_id = event;
              room_id = room;
              problem_id = problem;
              code = body.code;
              language = body.language;
              submitted_time = now;
            })
            hub rooms
    ]

here_now :
    (room : Uuid) (hub : RoomHub) (o : Option RoomHub)
    → (if room == room then some hub else o) ≡ some hub
here_now room hub o = ground arith

elsewhere :
    (room other : Uuid) (hub : RoomHub) (rooms : Rooms)
    → other ≢ room
    → (if room == other then some hub else lookup other rooms) ≡ lookup other rooms
elsewhere room other hub rooms ne = ground arith

-- A submission to a room that exists, with every field well-formed, is taken exactly when the
-- room's channel holds fewer than ten events. It then stands last in the channel, with the player,
-- event, room, problem, code, language and time of the request; every other room is as it was.
-- When it is not taken, no room has changed.
pub submit_solution_in_room-taken :
    (player event room problem : Uuid) (body : SubmissionRequest) (now : ℕ) (rooms : Rooms)
    (hub : RoomHub)
    → lookup room rooms ≡ some hub
    → let result =
        submit_solution_in_room
          (some player)
          (some event)
          (some room)
          (some body)
          (some problem)
          now
          rooms in
      ((result.0 ≡ taken) ↔ (length hub.events < events_capacity))
      × ((e : SolutionSubmitted) × (result.0 ≡ taken
            → (lookup room result.1
                ≡ some (record hub { events = hub.events ++ submitted e ∷ [] })))
          × (e.player_id ≡ player)
          × (e.event_id ≡ event)
          × (e.submitted_time ≡ now)
          × (e.room_id ≡ room)
          × (e.problem_id ≡ problem)
          × (e.code ≡ body.code)
          × (e.language ≡ body.language))
      × ((other : Uuid) → other ≢ room → lookup other result.1 ≡ lookup other rooms)
      × (result.0 ≢ taken → result.1 ≡ rooms)
unfolding submit_solution_in_room offer
submit_solution_in_room-taken player event room problem body now rooms hub here =
    let e : SolutionSubmitted = record {
      submission_id = 0;
      player_id = player;
      event_id = event;
      room_id = room;
      problem_id = problem;
      code = body.code;
      language = body.language;
      submitted_time = now;
    } in
    let hub' : RoomHub = record hub { events = hub.events ++ submitted e ∷ [] } in
    elim (Bool-cases (ltb (length hub.events) events_capacity)) [
      | inl space ↦
          rw (submit_solution_in_room, here, offer, space)
            (
              (λ _. ltb→lt (length hub.events) events_capacity space, λ _. refl),
              (
                e,
                λ _. lookup-insert room room hub' rooms ∙ here_now room hub' _,
                refl,
                refl,
                refl,
                refl,
                refl,
                refl,
                refl,
              ),
              λ other ne. lookup-insert room other hub' rooms ∙ elsewhere room other hub' rooms ne,
              λ not_taken. absurd (not_taken refl),
            )
      | inr full ↦
          rw (submit_solution_in_room, here, offer, full)
            (
              (
                λ e. cc,
                λ lt. absurd (omega (arith, ltb→le (length hub.events) events_capacity full)),
              ),
              (e, λ e. cc, refl, refl, refl, refl, refl, refl, refl),
              λ other ne. refl,
              λ _. refl,
            )
    ]
