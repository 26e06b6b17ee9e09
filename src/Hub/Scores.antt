-- ===== src/Hub/Scores.antt =====
-- The scores of the players over the rounds that a submission takes.
pub mod Blocks
use mathlib.Core.Path.{subst}
use rogue_learn_code_battle.Base.{some_injective}
use rogue_learn_code_battle.Base.{
  ℕ, ◌≡◌, ◌≢◌, ◌⊎◌, refl, sym, ap, ◌∙◌, inl, inr, Bool, true, Option, some, List, [], ◌∷◌, ◌++◌,
  String, Text, map, arith, length, ltb, Bool-cases, Option-cases,
}
use rogue_learn_code_battle.Store.Models.{Uuid, RoomPlayer, SubmissionStatus, accepted}
use rogue_learn_code_battle.Store.Db.{Db, Query, QueryResult, ok, no_rows, query_error}
use rogue_learn_code_battle.Store.Players.{
  add_score, add_room_player_score, place_players, calculate_room_leaderboard, get_room_players,
}
use rogue_learn_code_battle.Store.Submissions.{update_submission_status}
use rogue_learn_code_battle.Events.{
  SolutionSubmitted, SolutionResult, SseEvent, EventType, text, entries, submitted, judged,
}
use rogue_learn_code_battle.Executor.Builder.{CodeBuilder}
use rogue_learn_code_battle.Executor.Containers.{Docker}
use rogue_learn_code_battle.Executor.Pool.{Result}
use rogue_learn_code_battle.Hub.Ensures.{
  Ensures, returned, errored, hung, Ensures-bind, Ensures-weaken, run-Ensures,
}
use rogue_learn_code_battle.Hub.Exec.{
  Hub, Handler, Outcome, done, failed, blocked, ◌>>=◌, pure, attempt, or_fail, run, notify_guild,
  dispatch_event,
}
use rogue_learn_code_battle.Hub.Defs.{
  generate_solution_result, is_accepted, calculate_leaderboard, get_room_leaderboard_entries,
  accept_solution, sse, process_solution_result,
}
use rogue_learn_code_battle.Hub.Results.{process_solution_result-ToldWrong}
use rogue_learn_code_battle.Hub.Posts.{process_solution_submitted-Posts}
use rogue_learn_code_battle.Hub.Submit.{Setting, arrive, process_event, step, rounds, after}
use rogue_learn_code_battle.Store.Players.Points.{
  scores, score_of, score_of-scores, Gained, add_score-Gained,
}
use rogue_learn_code_battle.Hub.Scores.Blocks.{
  KeepsScores, bind-KeepsScores, pure-KeepsScores, run-KeepsScores, dispatch-KeepsScores,
  notify_guild-KeepsScores, calculate_leaderboard-KeepsScores,
  get_room_leaderboard_entries-KeepsScores, update_submission_status-SparesScores,
}

-- The scores are as they were, or an accepted solution added its points to its player's.
abbrev pub Scored : SolutionResult → List RoomPlayer → List RoomPlayer → Type 0
Scored event players players' =
    (scores players' ≡ scores players)
    ⊎ ((is_accepted event.status ≡ true)
        × (scores players'
            ≡ scores (
                add_score event.score event.solution_submitted.room_id
                  event.solution_submitted.player_id players)))

add_room_player_score-ok :
    (points : ℕ) (room player : Uuid) (db : Db) (a : Unit {0})
    → (add_room_player_score points room player db).0 ≡ ok a
    → (add_room_player_score points room player db).1.room_players
      ≡ add_score points room player db.room_players
unfolding add_room_player_score
add_room_player_score-ok points room player db a h = ground arith

add_room_player_score-refused :
    (points : ℕ) (room player : Uuid) (db : Db)
    → (add_room_player_score points room player db).0 ≢ ok tt
    → let rows = (add_room_player_score points room player db).1.room_players in
      (rows ≡ db.room_players) ⊎ (rows ≡ add_score points room player db.room_players)
unfolding add_room_player_score
add_room_player_score-refused points room player db h = ground arith

module _ {W : Type 0} where
  add_room_player_score-scores :
      (points : ℕ) (room player : Uuid) (h : Hub W)
      → Ensures
          (λ _ h'.
            scores h'.db.room_players ≡ scores (add_score points room player h.db.room_players))
          (λ h'.
            (scores h'.db.room_players ≡ scores h.db.room_players)
            ⊎ (scores h'.db.room_players ≡ scores (add_score points room player h.db.room_players)))
          ⊥
          (run (add_room_player_score points room player) h)
  add_room_player_score-scores points room player h =
      Ensures-weaken
        (run-Ensures
          (λ db. db.room_players ≡ (add_room_player_score points room player h.db).1.room_players)
          (add_room_player_score points room player) h refl)
        (λ a h' e. ap scores (e.1 ∙ add_room_player_score-ok points room player h.db a e.2))
        (λ h' e. elim (add_room_player_score-refused points room player h.db (e.2 tt)) [
          | inl same ↦ inl (ap scores (e.1 ∙ same))
          | inr added ↦ inr (ap scores (e.1 ∙ added))
        ])

  accept_solution-Scored :
      (event : SolutionResult) (h : Hub W)
      → is_accepted event.status ≡ true
      → Ensures
          (λ _ h'. Scored event h.db.room_players h'.db.room_players)
          (λ h'. Scored event h.db.room_players h'.db.room_players)
          ⊥
          (accept_solution event h)
  unfolding accept_solution
  accept_solution-Scored event h good =
      Ensures-bind _
        (Ensures-weaken
          (add_room_player_score-scores event.score event.solution_submitted.room_id
            event.solution_submitted.player_id h)
          (λ a h₁ e. e) (λ h₁ e. elim e [ inl same ↦ inl same | inr added ↦ inr (good, added) ]))
        (λ a h₁ e.
          Ensures-weaken
            ((bind-KeepsScores notify_guild-KeepsScores (λ _.
                bind-KeepsScores calculate_leaderboard-KeepsScores (λ _.
                  bind-KeepsScores
                    (dispatch-KeepsScores (sse EventType.correct_solution_submitted (text [])))
                    (λ _. bind-KeepsScores get_room_leaderboard_entries-KeepsScores (λ board.
                      bind-KeepsScores
                        (dispatch-KeepsScores (sse EventType.leaderboard_updated (entries board)))
                        (λ _.
                          bind-KeepsScores
                            (run-KeepsScores
                              (update_submission_status event.solution_submitted.submission_id
                                accepted)
                              (update_submission_status-SparesScores _ _))
                            (λ _. pure-KeepsScores tt))))))).keeps
              _ h₁ e)
            (λ b h₂ e'. inr (good, e')) (λ h₂ e'. inr (good, e')))

  process_solution_result-Scored :
      (event : SolutionResult) (h : Hub W)
      → Ensures
          (λ _ h'. Scored event h.db.room_players h'.db.room_players)
          (λ h'. Scored event h.db.room_players h'.db.room_players)
          ⊥
          (process_solution_result event h)
  unfolding process_solution_result
  process_solution_result-Scored event h = elim (Bool-cases (is_accepted event.status)) [
    | inl good ↦
        let taken : process_solution_result event h ≡ accept_solution event h =
          rw (good, process_solution_result) refl in
        subst
          (Ensures (λ _ h'. Scored event h.db.room_players h'.db.room_players)
            (λ h'. Scored event h.db.room_players h'.db.room_players) ⊥)
          (sym taken) (accept_solution-Scored event h good)
    | inr wrong ↦
        Ensures-weaken (process_solution_result-ToldWrong event h wrong)
          (λ a h' e. inl (ap scores e.0)) (λ h' e. inl (ap scores e.0))
  ]

module _ (docker : Docker) (match_string : String → Text → Option Bool)
    (builder : CodeBuilder) where
  open docker use {World}

  -- A handler that returned or failed left what it ensures.
  after-Ensures :
      (P : Hub World → Type 0) {h' : Hub World} (B : Type 0) (r : Outcome World (Unit {0}))
      → Ensures (λ _ h. P h) P B r
      → after docker match_string builder r ≡ some h'
      → P h'
  after-Ensures P B (done a h) (returned p) e = subst P (some_injective e) p
  after-Ensures P B (failed x h) (errored p) e = subst P (some_injective e) p
  after-Ensures P B blocked (hung b) e = cc

  -- The buffer is empty, or holds the verdict on the submission alone.
  IsWaiting : SolutionSubmitted → List RoomPlayer → Hub World → Type 0
  IsWaiting e players h =
      (h.db.room_players ≡ players)
      × ((h.room.events ≡ [])
          ⊎ ((id : Uuid) × (r : Result) × (h.room.events
                ≡ judged (generate_solution_result (record e { submission_id = id }) r) ∷ [])))

  first_round :
      (setting : Setting docker) (e : SolutionSubmitted) (h : Hub World) {h' : Hub World}
      → setting.arrivals ≡ []
      → h.room.events ≡ submitted e ∷ []
      → step docker match_string builder setting h ≡ some h'
      → IsWaiting e h.db.room_players h'
  unfolding step IsWaiting arrive process_event
  first_round setting e h {h'} quiet here stepped =
      let h₁ : Hub World = record h { room = record h.room { events = [] } } in
      after-Ensures (IsWaiting e h.db.room_players) {h' = h'} (Unit {0}) _
        (Ensures-weaken (process_solution_submitted-Posts docker match_string builder setting e h₁)
          (λ a h₂ (id, r, q). (
            q.same_players,
            inr (
              id,
              r,
              q.buffer
                  ∙ ap
                      (λ l.
                        arrive l []
                        ++ judged (generate_solution_result (record e { submission_id = id }) r)
                          ∷ [])
                      quiet,
            ),
          ))
          (λ h₂ q. (q.same_players, inl q.buffer)))
        (rw (here, step, process_event) at stepped)

  second_round :
      (setting : Setting docker) (e : SolutionSubmitted) (players : List RoomPlayer) (h : Hub World)
      {h' : Hub World}
      → IsWaiting e players h
      → step docker match_string builder setting h ≡ some h'
      → (scores h'.db.room_players ≡ scores players)
        ⊎ (scores h'.db.room_players ≡ scores (add_score 50 e.room_id e.player_id players))
  unfolding step IsWaiting process_event generate_solution_result
  second_round setting e players h {h'} (same, inl empty) stepped =
      let stays : some h ≡ some h' = rw (empty, step) at stepped in
      inl (
        ap (λ (h : Hub World). scores h.db.room_players) (sym (some_injective stays))
        ∙ ap scores same)
  second_round setting e players h (same, inr (id, r, here)) stepped =
      let event = generate_solution_result (record e { submission_id = id }) r in
      let h₁ : Hub World = record h { room = record h.room { events = [] } } in
      elim (after-Ensures (λ h₂. Scored event h.db.room_players h₂.db.room_players) ⊥ _
        (process_solution_result-Scored event h₁) (rw (here, step, process_event) at stepped)) [
          | inl kept ↦ inl (kept ∙ ap scores same)
          | inr (good, added) ↦
              inr (added ∙ ap (λ l. scores (add_score 50 e.room_id e.player_id l)) same)
        ]

  two_rounds-rows :
      (setting next : Setting docker) (e : SolutionSubmitted) (h h' : Hub World)
      → setting.arrivals ≡ []
      → h.room.events ≡ submitted e ∷ []
      → rounds docker match_string builder (setting ∷ next ∷ []) h ≡ some h'
      → (scores h'.db.room_players ≡ scores h.db.room_players)
        ⊎ (scores h'.db.room_players
            ≡ scores (add_score 50 e.room_id e.player_id h.db.room_players))
  unfolding rounds
  two_rounds-rows setting next e h h' quiet here ran =
      elim (Option-cases (step docker match_string builder setting h)) [
        | inl never ↦ cc (rw (never, rounds) at ran)
        | inr (h₁, stepped) ↦
            let waiting = first_round setting e h quiet here stepped in
            elim (Option-cases (step docker match_string builder next h₁)) [
              | inl never ↦ cc (rw (stepped, never, rounds) at ran)
              | inr (h₂, stepped₂) ↦
                  let end : some h₂ ≡ some h' = rw (stepped, stepped₂, rounds) at ran in
                  subst
                    (λ (h₃ : Hub World).
                      (scores h₃.db.room_players ≡ scores h.db.room_players)
                      ⊎ (scores h₃.db.room_players
                          ≡ scores (add_score 50 e.room_id e.player_id h.db.room_players)))
                    (some_injective end) (second_round next e h.db.room_players h₁ waiting stepped₂)
            ]
      ]

  -- When a submission is alone in the channel of its room, and nothing arrives while its job runs,
  -- then two rounds of RoomHub.Start that come to an end leave each player in each room with the
  -- score as it was, but for the submitter's in the room of the submission, which is as it was or 50
  -- higher, whatever queries fail, carried out or not.
  pub two_rounds-scores :
      (setting next : Setting docker) (e : SolutionSubmitted) (h h' : Hub World)
      → setting.arrivals ≡ []
      → h.room.events ≡ submitted e ∷ []
      → rounds docker match_string builder (setting ∷ next ∷ []) h ≡ some h'
      → ((room user : Uuid)
          → score_of room user h'.db.room_players ≡ score_of room user h.db.room_players)
        ⊎ Gained 50 e.room_id e.player_id h.db.room_players h'.db.room_players
  two_rounds-scores setting next e h h' quiet here ran =
      elim (two_rounds-rows setting next e h h' quiet here ran) [
        | inl same ↦ inl (λ room user. score_of-scores room user _ _ same)
        | inr added ↦ inr (add_score-Gained 50 e.room_id e.player_id _ _ added)
      ]
