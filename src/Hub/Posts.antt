-- ===== src/Hub/Posts.antt =====
-- processSolutionSubmitted: what it leaves behind.
use rogue_learn_code_battle.Base.{
  ◌≡◌, refl, ap, ◌∙◌, Bool, true, false, Option, List, [], ◌∷◌, ◌++◌, String, Text, arith, length,
  ltb, Bool-cases, Option-cases, inl, inr,
}
use rogue_learn_code_battle.Store.Models.{Uuid, Language, TestCase, SubmissionStatus}
use rogue_learn_code_battle.Store.Db.{Db, Query, QueryResult, ok, no_rows, query_error}
use rogue_learn_code_battle.Store.Submissions.{
  get_language_by_name, get_code_problem_language_detail, get_test_cases_by_problem,
  create_submission,
}
use rogue_learn_code_battle.Events.{SolutionSubmitted, RoomEvent, judged}
use rogue_learn_code_battle.Executor.Builder.{CodeBuilder, Build, built, rejected, wrong_syntax}
use rogue_learn_code_battle.Executor.Containers.{Docker}
use rogue_learn_code_battle.Executor.Pool.{Result, run_job}
use rogue_learn_code_battle.Hub.Ensures.{
  Ensures, returned, errored, hung, Ensures-bind, Ensures-weaken,
}
use rogue_learn_code_battle.Hub.Exec.{
  Hub, HubError, Handler, ◌>>=◌, guard, or_fail, run, send_event, events_capacity,
}
use rogue_learn_code_battle.Hub.Defs.{generate_solution_result}
use rogue_learn_code_battle.Hub.Submit.{
  Setting, arrive, or_build_failed, execute, process_solution_submitted,
}

-- Nobody was told anything, no player's row has changed, and the buffer is `events`.
pub record IsQuiet {W : Type 0} (h : Hub W) (events : List RoomEvent) (h' : Hub W) : Type 0 where
  pub same_sent : h'.sent ≡ h.sent
  pub same_players : h'.db.room_players ≡ h.db.room_players
  pub buffer : h'.room.events ≡ events

-- A block that leaves a quiet state quiet, on a return and on an error.
pub record KeepsQuiet {W A : Type 0} (m : Handler W A) : Type 0 where
  pub keeps_quiet :
      (h₀ : Hub W) (events : List RoomEvent) (h : Hub W)
      → IsQuiet h₀ events h
      → Ensures (λ _ h'. IsQuiet h₀ events h') (λ h'. IsQuiet h₀ events h') (Unit {0}) (m h)

-- A query that leaves the players alone.
pub record SparesPlayers {A : Type 0} (q : Query A) : Type 0 where
  pub same_rows : (db : Db) → (q db).1.room_players ≡ db.room_players

module _ {W : Type 0} where
  or_fail-IsQuiet :
      {A : Type 0} (r : QueryResult A) (h₀ : Hub W) (events : List RoomEvent) (h : Hub W)
      → IsQuiet h₀ events h
      → Ensures (λ _ h'. IsQuiet h₀ events h') (λ h'. IsQuiet h₀ events h') (Unit {0}) (or_fail r h)
  or_fail-IsQuiet (ok a) h₀ events h s = returned s
  or_fail-IsQuiet no_rows h₀ events h s = errored s
  or_fail-IsQuiet query_error h₀ events h s = errored s

  run_quiet : {A : Type 0} (q : Query A) → SparesPlayers q → KeepsQuiet {W = W} (run q)
  run_quiet q spares = record {
    keeps_quiet = λ h₀ events h s. or_fail-IsQuiet (q h.db).0 h₀ events _ (record {
      same_sent = s.same_sent;
      same_players = spares.same_rows h.db ∙ s.same_players;
      buffer = s.buffer;
    });
  }

  guard_quiet : (b : Bool) (e : HubError) → KeepsQuiet {W = W} (guard b e)
  guard_quiet true e = record { keeps_quiet = λ h₀ events h s. returned s }
  guard_quiet false e = record { keeps_quiet = λ h₀ events h s. errored s }

  or_build_failed_quiet : (b : Build) → KeepsQuiet {W = W} (or_build_failed b)
  or_build_failed_quiet (built code) = record { keeps_quiet = λ h₀ events h s. returned s }
  or_build_failed_quiet (rejected err) = record { keeps_quiet = λ h₀ events h s. errored s }
  or_build_failed_quiet wrong_syntax = record { keeps_quiet = λ h₀ events h s. errored s }

module _ {W : Type 0} {h₀ : Hub W} {events : List RoomEvent} where
  send_event-IsQuiet :
      {E : Hub W → Type 0} (e : RoomEvent) (h : Hub W)
      → IsQuiet h₀ events h
      → Ensures (λ _ h'. IsQuiet h₀ (events ++ e ∷ []) h') E (Unit {0}) (send_event e h)
  send_event-IsQuiet e h s = elim (Bool-cases (ltb (length h.room.events) events_capacity)) [
    | inl room ↦ rw room (
        returned (record {
          same_sent = s.same_sent;
          same_players = s.same_players;
          buffer = ap (λ events. events ++ e ∷ []) s.buffer;
        }))
    | inr full ↦ rw full (hung tt)
  ]

get_language_by_name-SparesPlayers : (name : Text) → SparesPlayers (get_language_by_name name)
unfolding get_language_by_name
get_language_by_name-SparesPlayers name = record { same_rows = λ db. ground arith }

create_submission-SparesPlayers :
    (user problem language : Uuid) (room : Option Uuid) (code : Text) (status : SubmissionStatus)
    → SparesPlayers (create_submission user problem language room code status)
unfolding create_submission
create_submission-SparesPlayers user problem language room code status = record {
  same_rows = λ db. ground arith;
}

get_code_problem_language_detail-SparesPlayers :
    (problem language : Uuid) → SparesPlayers (get_code_problem_language_detail problem language)
unfolding get_code_problem_language_detail
get_code_problem_language_detail-SparesPlayers problem language = record {
  same_rows = λ db. ground arith;
}

get_test_cases_by_problem-SparesPlayers :
    (problem : Uuid) → SparesPlayers (get_test_cases_by_problem problem)
unfolding get_test_cases_by_problem
get_test_cases_by_problem-SparesPlayers problem = record { same_rows = λ db. ground arith }

module _ (docker : Docker) (match_string : String → Text → Option Bool)
    (builder : CodeBuilder) where
  open docker use {World}

  execute-IsQuiet :
      {E : Hub World → Type 0} (setting : Setting docker) (language : Language) (code : Text)
      (cases : List TestCase) (h₀ h : Hub World) (events : List RoomEvent)
      → IsQuiet h₀ events h
      → Ensures
          (λ _ h'. IsQuiet h₀ (arrive setting.arrivals events) h')
          E
          (Unit {0})
          (execute docker match_string builder setting language code cases h)
  unfolding execute
  execute-IsQuiet setting language code cases h₀ h events s =
      elim (Option-cases (
        run_job docker setting.queue setting.others
          (record { language = language; code = code; test_cases = cases }) h.manager)) [
            | inl never ↦ rw (never, execute) (hung tt)
            | inr (result, reply) ↦
                rw (reply, execute)
                  (returned (record {
                    same_sent = s.same_sent;
                    same_players = s.same_players;
                    buffer = ap (arrive setting.arrivals) s.buffer;
                  }))
          ]

  -- From `h`, a block that ends with the event of a verdict behind what has arrived.
  record Posts (setting : Setting docker) (event : SolutionSubmitted) (h : Hub World)
      (m : Handler World (Unit {0})) : Type 0 where
    posts :
        (h₁ : Hub World)
        → IsQuiet h h.room.events h₁
        → Ensures
            (λ _ h'.
              (id : Uuid) × (result : Result) × IsQuiet h
                (arrive setting.arrivals h.room.events
                  ++ judged (generate_solution_result (record event { submission_id = id }) result)
                    ∷ [])
                h')
            (λ h'. IsQuiet h h.room.events h')
            (Unit {0})
            (m h₁)

  module _ (setting : Setting docker) (event : SolutionSubmitted) (h : Hub World) where
    then-Posts :
        {A : Type 0} {m : Handler World A} {f : A → Handler World (Unit {0})}
        → KeepsQuiet m
        → ((a : A) → Posts setting event h (f a))
        → Posts setting event h (m >>= f)
    then-Posts keeps next = record {
      posts = λ h₁ s.
          Ensures-bind _ (keeps.keeps_quiet h h.room.events h₁ s) (λ a h₂ s₂. (next a).posts h₂ s₂);
    }

    verdict-Posts :
        (id : Uuid) (language : Language) (code : Text) (cases : List TestCase)
        → Posts setting event h (
            execute docker match_string builder setting language code cases >>= λ result.
            send_event
              (judged (generate_solution_result (record event { submission_id = id }) result)))
    verdict-Posts id language code cases = record {
      posts = λ h₁ s.
          Ensures-bind _ (execute-IsQuiet setting language code cases h h₁ h.room.events s)
            (λ result h₂ s₂.
              Ensures-weaken (send_event-IsQuiet {E = λ h'. IsQuiet h h.room.events h'} _ h₂ s₂)
                (λ _ h' s'. (id, result, s')) (λ h' e. e));
    }

  -- A submitted solution is answered in the room's own channel. On an error of the handler the
  -- channel is as it was; on a return it holds what has arrived while the job ran and then one
  -- event, with the verdict on this submission. In neither case is a listener told or a player's
  -- row changed; the handler may also wait for ever.
  pub process_solution_submitted-Posts :
      (setting : Setting docker) (event : SolutionSubmitted) (h : Hub World)
      → Ensures
          (λ _ h'.
            (id : Uuid) × (result : Result) × IsQuiet h
              (arrive setting.arrivals h.room.events
                ++ judged (generate_solution_result (record event { submission_id = id }) result)
                  ∷ [])
              h')
          (λ h'. IsQuiet h h.room.events h')
          (Unit {0})
          (process_solution_submitted docker match_string builder setting event h)
  unfolding process_solution_submitted
  process_solution_submitted-Posts setting event h =
      let all : Posts setting event h
          (process_solution_submitted docker match_string builder setting event) =
        then-Posts setting event h (guard_quiet _ _) (λ _.
          then-Posts setting event h (run_quiet _ (get_language_by_name-SparesPlayers _)) (λ lang.
            then-Posts setting event h (run_quiet _ (create_submission-SparesPlayers _ _ _ _ _ _))
              (λ submission.
                then-Posts setting event h
                  (run_quiet _ (get_code_problem_language_detail-SparesPlayers _ _))
                  (λ problem.
                    then-Posts setting event h
                      (run_quiet _ (get_test_cases_by_problem-SparesPlayers _))
                      (λ cases. then-Posts setting event h (or_build_failed_quiet _) (λ code.
                        verdict-Posts setting event h submission.id lang code cases)))))) in
      all.posts h (record { same_sent = refl; same_players = refl; buffer = refl })
