-- ===== src/Handlers/Submit/Settled.antt =====
-- What SubmitSolutionHandler leaves in the table of submissions, on every branch.
use rogue_learn_code_battle.Base.{
  ◌<◌, ◌≡◌, ◌∙◌, ◌⊎◌, refl, sym, ap, Bool, true, false, Option, none, some, List, ◌∷◌, String, Text,
  All, inl, inr, Option-cases, Bool-cases,
}
use rogue_learn_code_battle.Store.Models.{Uuid, Language, TestCase, Submission, pending}
use rogue_learn_code_battle.Store.Db.{Db, Query, QueryResult, ok, no_rows, query_error}
use rogue_learn_code_battle.Store.Submissions.{create_submission}
use rogue_learn_code_battle.Executor.Languages.{normalize_language}
use rogue_learn_code_battle.Executor.Builder.{CodeBuilder, Build, built, rejected, wrong_syntax}
use rogue_learn_code_battle.Executor.Containers.{Docker}
use rogue_learn_code_battle.Executor.Pool.{Queue, Result, Job, Others, run_job}
use rogue_learn_code_battle.Handlers.{SubmissionRequest, result_status}
use rogue_learn_code_battle.Handlers.Submit.{
  Server, SubmitAnswer, server_error, solved, Flow, answers, hangs, Web, go_on, ◌>>=◌, or_answer,
  query, id_of, create, set_result, or_build_answer, execute, solve, submit_solution,
}
use rogue_learn_code_battle.Handlers.Submit.Rows.{
  Spares, get_language_by_name-Spares, get_code_problem_language_detail-Spares,
  get_test_cases_by_problem-Spares, create_submission-cases, update_submission_status-cases,
  null_update, set_status-head, cons_cong, new_row,
}

abbrev is_solved : SubmitAnswer → Bool
is_solved (solved result) = true
is_solved _ = false

module _ (docker : Docker) (match_string : String → Text → Option Bool) (builder : CodeBuilder)
    (queue : Queue) (others : Others docker) (s₀ : Server docker.World) (player problem : Uuid)
    (code : Text) where
  open docker use {World}

  -- How the handler can end: with another answer than a result and the table as it was; with 500
  -- and a row that stays pending; with the result of the job that was run, and a row that holds its
  -- status; with 500, and such a row, when the answer of the last query was lost; or never.
  pub data Settled : Flow World (Unit {0}) → Type 0 where
    refused :
        {r : SubmitAnswer} {t : Server World}
        → is_solved r ≡ false
        → t.db.submissions ≡ s₀.db.submissions
        → Settled (answers r t)
    left_pending :
        {t : Server World} (language : Uuid)
        → t.db.submissions ≡ new_row s₀.db player problem language code ∷ s₀.db.submissions
        → Settled (answers server_error t)
    stored :
        {result : Result} {t : Server World} (language : Language) (final_code : Text)
        (cases : List TestCase)
        → run_job docker queue others
            (record { language = language; code = final_code; test_cases = cases })
            s₀.manager
          ≡ some (result, t.manager)
        → t.db.submissions
          ≡ record (new_row s₀.db player problem language.id code) { status = result_status result }
            ∷ s₀.db.submissions
        → Settled (answers (solved result) t)
    unreported :
        {result : Result} {t : Server World} (language : Language) (final_code : Text)
        (cases : List TestCase)
        → run_job docker queue others
            (record { language = language; code = final_code; test_cases = cases })
            s₀.manager
          ≡ some (result, t.manager)
        → t.db.submissions
          ≡ record (new_row s₀.db player problem language.id code) { status = result_status result }
            ∷ s₀.db.submissions
        → Settled (answers server_error t)
    hung : Settled hangs

  record Same (s : Server World) : Type 0 where
    rows : s.db.submissions ≡ s₀.db.submissions
    next : s.db.next_id ≡ s₀.db.next_id
    manager : s.manager ≡ s₀.manager

  record Settles (m : Web World (Unit {0})) : Type 0 where
    settles : (s : Server World) → Same s → Settled (m s)

  or_answer-Settled :
      {A : Type 0} (r : SubmitAnswer) (result : QueryResult A) (f : A → Web World (Unit {0}))
      (s : Server World)
      → is_solved r ≡ false
      → Same s
      → ((a : A) → Settles (f a))
      → Settled (go_on (or_answer r result s) f)
  or_answer-Settled r (ok a) f s refusal same next = (next a).settles s same
  or_answer-Settled r no_rows f s refusal same next = refused refusal same.rows
  or_answer-Settled r query_error f s refusal same next = refused refusal same.rows

  query-Settles :
      {A : Type 0} (r : SubmitAnswer) (q : Query A) {f : A → Web World (Unit {0})}
      → is_solved r ≡ false
      → Spares q
      → ((a : A) → Settles (f a))
      → Settles (query r q >>= f)
  query-Settles r q refusal spares next = record {
    settles = λ s same.
        or_answer-Settled r (q s.db).0 _ (record s { db = (q s.db).1 }) refusal
          (record {
            rows = spares.same_rows s.db ∙ same.rows;
            next = spares.same_id s.db ∙ same.next;
            manager = same.manager;
          })
          next;
  }

  or_build_answer-Settles :
      (b : Build) {f : Text → Web World (Unit {0})}
      → ((c : Text) → Settles (f c))
      → Settles (or_build_answer b >>= f)
  or_build_answer-Settles (built c) next = next c
  or_build_answer-Settles (rejected err) next = record {
    settles = λ s same. refused refl same.rows;
  }
  or_build_answer-Settles wrong_syntax next = record { settles = λ s same. refused refl same.rows }

  -- What `create` has left: the id of the new row and the row, or a null, and the table with the row
  -- or without it.
  Begun : Uuid → Option Uuid → Db → Type 0
  Begun language id db =
      ((id ≡ some s₀.db.next_id)
        × (db.submissions ≡ new_row s₀.db player problem language code ∷ s₀.db.submissions))
      ⊎ ((id ≡ none)
          × ((db.submissions ≡ s₀.db.submissions)
              ⊎ (db.submissions ≡ new_row s₀.db player problem language code ∷ s₀.db.submissions)))

  -- The result is stored, or the handler answers 500.
  store_settles :
      (language : Language) (final_code : Text) (cases : List TestCase) (result : Result)
      (id : Option Uuid) (t : Server World)
      → All (λ (row : Submission). row.id < s₀.db.next_id) s₀.db.submissions
      → run_job docker queue others
          (record { language = language; code = final_code; test_cases = cases })
          s₀.manager
        ≡ some (result, t.manager)
      → Begun language.id id t.db
      → Settled (
          go_on
            (query server_error (set_result id (result_status result)) t)
            (λ _. answers (solved result)))
  unfolding Begun
  store_settles language final_code cases result id t fresh ran (inr (null, inl rows)) =
      let (failed, kept) = null_update (result_status result) t.db in
      rw null (elim failed [
        | inl missing ↦ rw missing (refused refl (kept ∙ rows))
        | inr broken ↦ rw broken (refused refl (kept ∙ rows))
      ])
  store_settles language final_code cases result id t fresh ran (inr (null, inr rows)) =
      let (failed, kept) = null_update (result_status result) t.db in
      rw null (elim failed [
        | inl missing ↦ rw missing (left_pending language.id (kept ∙ rows))
        | inr broken ↦ rw broken (left_pending language.id (kept ∙ rows))
      ])
  store_settles language final_code cases result id t fresh ran (inl (new, rows)) =
      rw new
        (elim (update_submission_status-cases (new_row s₀.db player problem language.id code)
          s₀.db.submissions (result_status result) t.db rows) [
            | inl (answer, done, changed) ↦ rw done (
                stored language final_code cases ran (
                  changed
                  ∙ set_status-head (new_row s₀.db player problem language.id code)
                      (result_status result) s₀.db.submissions fresh))
            | inr (broken, inl kept) ↦ rw broken (left_pending language.id kept)
            | inr (broken, inr changed) ↦ rw broken (
                unreported language final_code cases ran (
                  changed
                  ∙ set_status-head (new_row s₀.db player problem language.id code)
                      (result_status result) s₀.db.submissions fresh))
          ])

  -- The job is run.
  run_settles :
      (language : Language) (final_code : Text) (cases : List TestCase) (id : Option Uuid)
      (s : Server World)
      → All (λ (row : Submission). row.id < s₀.db.next_id) s₀.db.submissions
      → s.manager ≡ s₀.manager
      → Begun language.id id s.db
      → Settled (
          go_on
            (execute docker match_string builder queue others language final_code cases s)
            (λ result. query server_error (set_result id (result_status result)) >>= λ _.
              answers (solved result)))
  unfolding execute
  run_settles language final_code cases id s fresh same begun =
      let job : Job = record { language = language; code = final_code; test_cases = cases } in
      elim (Option-cases (run_job docker queue others job s.manager)) [
        | inl never ↦ rw (never, execute) hung
        | inr ((result, manager), ran) ↦
            rw (ran, execute)
              (store_settles language final_code cases result id (record s { manager = manager })
                fresh (sym (ap (run_job docker queue others job) same) ∙ ran) begun)
      ]

  create-Begun :
      (language : Uuid) (s : Server World)
      → Same s
      → let (r, db) = create_submission player problem language none code pending s.db in
        Begun language (id_of r) db
  unfolding Begun
  create-Begun language s same =
      let new =
        ap (λ id. record (new_row s₀.db player problem language code) { id = id }) same.next in
      elim (create_submission-cases s.db player problem language code) [
        | inl (made, rows) ↦ inl (ap id_of made ∙ ap some same.next, rows ∙ cons_cong new same.rows)
        | inr (null, inl rows) ↦ inr (null, inl (rows ∙ same.rows))
        | inr (null, inr rows) ↦ inr (null, inr (rows ∙ cons_cong new same.rows))
      ]

  finish-Settles :
      (language : Language) (final_code : Text) (cases : List TestCase)
      → All (λ (row : Submission). row.id < s₀.db.next_id) s₀.db.submissions
      → Settles (
          create (create_submission player problem language.id none code pending) >>= λ id.
          execute docker match_string builder queue others language final_code cases >>= λ result.
          query server_error (set_result id (result_status result)) >>= λ _.
          answers (solved result))
  finish-Settles language final_code cases fresh = record {
    settles = λ s same.
        run_settles language final_code cases _ _ fresh same.manager
          (create-Begun language.id s same);
  }

module _ (docker : Docker) (match_string : String → Text → Option Bool) (builder : CodeBuilder)
    (queue : Queue) (others : Others docker) where
  open docker use {World}

  solve-Settles :
      (req : SubmissionRequest) (player problem : Uuid) (s : Server World)
      → All (λ (row : Submission). row.id < s.db.next_id) s.db.submissions
      → (normalized : Text)
      → Settles docker match_string builder queue others s player problem req.code
          (solve docker match_string builder queue others player problem req normalized)
  unfolding solve
  solve-Settles req player problem s fresh normalized =
      search
        (
          query-Settles, get_language_by_name-Spares, get_code_problem_language_detail-Spares,
          get_test_cases_by_problem-Spares, or_build_answer-Settles, finish-Settles,
        )
        depth 12

  -- A well-formed request, over a table whose ids are all behind the next one, ends in one of five
  -- ways, also when the answers of queries that were carried out are lost. It is answered with the result of the job that was run, and the table holds one new row,
  -- of the player, the problem, the language and the code as submitted, with the status of this
  -- result; or with 500, and the new row stays pending; or with 500, and the new row has the status of
  -- the job that was run; or with no result, and the table is as it was; or it waits for ever.
  pub submit_solution-Settled :
      (req : SubmissionRequest) (player problem : Uuid) (s : Server World)
      → All (λ (row : Submission). row.id < s.db.next_id) s.db.submissions
      → Settled docker match_string builder queue others s player problem req.code (
          submit_solution docker match_string builder queue others
            (some req)
            (some player)
            (some problem)
            s)
  unfolding submit_solution
  submit_solution-Settled req player problem s fresh =
      elim (Bool-cases (normalize_language req.language).1) [
        | inl known ↦
            rw (known, submit_solution)
              ((solve-Settles req player problem s fresh _).settles s
                (record { rows = refl; next = refl; manager = refl }))
        | inr unknown ↦ rw (unknown, submit_solution) (refused refl refl)
      ]
