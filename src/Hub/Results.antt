-- ===== src/Hub/Results.antt =====
-- What a verdict of the workers becomes in the room.
use rogue_learn_code_battle.Base.{
  ℕ, ◌≡◌, ◌↔◌, ◌⊎◌, refl, sym, ap, ◌∙◌, inl, inr, false, none, some, List, [], ◌∷◌, ◌++◌, arith,
  lookup, nat_eq, Option-cases,
}
use rogue_learn_code_battle.Store.Models.{Uuid, RoomPlayer, SubmissionStatus, wrong_answer}
use rogue_learn_code_battle.Store.Db.{Db}
use rogue_learn_code_battle.Store.Submissions.{update_submission_status}
use rogue_learn_code_battle.Events.{
  SolutionSubmitted, SolutionResult, SseEvent, EventType, JudgeStatus,
}
use rogue_learn_code_battle.Executor.Pool.{Result, copy_error}
use rogue_learn_code_battle.Hub.Ensures.{
  Ensures, returned, Ensures-bind, Ensures-weaken, run-Ensures, OnlyDb,
}
use rogue_learn_code_battle.Hub.Exec.{RoomHub, Hub, dispatch_event_to_player}
use rogue_learn_code_battle.Hub.Defs.{
  generate_solution_result, is_accepted, process_solution_result, reject_solution,
}

-- A solution is accepted exactly when the job's result carries none of the three errors that
-- generateSolutionResult looks for: no error at all, or the error of copying the code.
generate_solution_result-accepted :
    (s : SolutionSubmitted) (r : Result)
    → ((generate_solution_result s r).status ≡ JudgeStatus.accepted)
      ↔ ((r.error ≡ none) ⊎ (r.error ≡ some copy_error))
unfolding generate_solution_result
generate_solution_result-accepted s r = ground arith

update_submission_status-players :
    (id : Uuid) (status : SubmissionStatus) (db : Db)
    → (update_submission_status id status db).1.room_players ≡ db.room_players
unfolding update_submission_status
update_submission_status-players id status db = ground arith

-- At most one event was sent, on the channel of this player: that the solution was wrong.
abbrev pub ToldWrong : {W : Type 0} → Uuid → Hub W → Hub W → Type 0
ToldWrong player h h' =
    (h'.sent ≡ h.sent)
    ⊎ ((channel : ℕ) × (e : SseEvent) × (lookup player h.room.listeners ≡ some channel)
        × (e.event_type ≡ EventType.wrong_solution_submitted)
        × (h'.sent ≡ h.sent ++ (channel, e) ∷ []))

module _ {W : Type 0} where
  dispatch_event_to_player-Ensures :
      (e : SseEvent) (player : Uuid) (h h₁ : Hub W) (players : List RoomPlayer)
      → e.event_type ≡ EventType.wrong_solution_submitted
      → OnlyDb h h₁
      → h₁.db.room_players ≡ players
      → Ensures
          (λ _ h'. (h'.db.room_players ≡ players) × ToldWrong player h h')
          (λ h'. (h'.db.room_players ≡ players) × (h'.sent ≡ h.sent))
          ⊥
          (dispatch_event_to_player e player h₁)
  unfolding dispatch_event_to_player
  dispatch_event_to_player-Ensures e player h h₁ players wrong only same =
      elim (Option-cases (lookup player h₁.room.listeners)) [
        | inl absent ↦ rw (absent, dispatch_event_to_player) (returned (same, inl only.same_sent))
        | inr (channel, here) ↦
            rw (here, dispatch_event_to_player)
              (returned (
                same,
                inr (
                  channel,
                  e,
                  ap (λ (r : RoomHub). lookup player r.listeners) (sym only.same_room) ∙ here,
                  wrong,
                  ap (λ sent. sent ++ (channel, e) ∷ []) only.same_sent,
                ),
              ))
      ]

  -- A solution that is not accepted changes no score and no place, whatever the database does; at
  -- most one event is sent, to the player who submitted it, and none if the handler fails.
  pub process_solution_result-ToldWrong :
      (event : SolutionResult) (h : Hub W)
      → is_accepted event.status ≡ false
      → Ensures
          (λ _ h'.
            (h'.db.room_players ≡ h.db.room_players)
            × ToldWrong event.solution_submitted.player_id h h')
          (λ h'. (h'.db.room_players ≡ h.db.room_players) × (h'.sent ≡ h.sent))
          ⊥
          (process_solution_result event h)
  unfolding process_solution_result reject_solution
  process_solution_result-ToldWrong event h wrong = rw wrong (
      Ensures-bind {R = λ a h₁. OnlyDb h h₁ × (h₁.db.room_players ≡ h.db.room_players)} _
        (Ensures-weaken
          (run-Ensures (λ db. db.room_players ≡ h.db.room_players)
            (update_submission_status event.solution_submitted.submission_id wrong_answer) h
            (update_submission_status-players _ _ h.db))
          (λ a h₁ q. (q.0, q.1)) (λ h₁ q. (q.1, q.0.same_sent)))
        (λ a h₁ q.
          dispatch_event_to_player-Ensures _ event.solution_submitted.player_id h h₁
            h.db.room_players refl q.0 q.1))
