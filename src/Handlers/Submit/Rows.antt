-- ===== src/Handlers/Submit/Rows.antt =====
-- What the queries of SubmitSolutionHandler do to the table of submissions.
use rogue_learn_code_battle.Base.{
  ◌<◌, ◌≡◌, ◌⊎◌, refl, none, List, [], ◌∷◌, Text, arith, All, ==_refl,
}
use rogue_learn_code_battle.Store.Models.{Uuid, Submission, SubmissionStatus, pending}
use rogue_learn_code_battle.Store.Db.{Db, Query, ok, no_rows, query_error}
use rogue_learn_code_battle.Store.Submissions.{
  get_language_by_name, get_code_problem_language_detail, get_test_cases_by_problem,
  create_submission, update_submission_status, set_status,
}
use rogue_learn_code_battle.Handlers.Submit.{id_of, set_result}

-- A query that leaves the submissions alone.
pub record Spares {A : Type 0} (q : Query A) : Type 0 where
  pub same_rows : (db : Db) → (q db).1.submissions ≡ db.submissions
  pub same_id : (db : Db) → (q db).1.next_id ≡ db.next_id

pub get_language_by_name-Spares : (name : Text) → Spares (get_language_by_name name)
unfolding get_language_by_name
get_language_by_name-Spares name = record {
  same_rows = λ db. ground arith;
  same_id = λ db. ground arith;
}

pub get_code_problem_language_detail-Spares :
    (problem language : Uuid) → Spares (get_code_problem_language_detail problem language)
unfolding get_code_problem_language_detail
get_code_problem_language_detail-Spares problem language = record {
  same_rows = λ db. ground arith;
  same_id = λ db. ground arith;
}

pub get_test_cases_by_problem-Spares : (problem : Uuid) → Spares (get_test_cases_by_problem problem)
unfolding get_test_cases_by_problem
get_test_cases_by_problem-Spares problem = record {
  same_rows = λ db. ground arith;
  same_id = λ db. ground arith;
}

-- The row that CreateSubmission adds.
abbrev pub new_row : Db → Uuid → Uuid → Uuid → Text → Submission
new_row db player problem language code = record {
  id = db.next_id;
  user_id = player;
  code_problem_id = problem;
  language_id = language;
  room_id = none;
  code_submitted = code;
  status = pending;
}

pub create_submission-cases :
    (db : Db) (player problem language : Uuid) (code : Text)
    → let (r, db') = create_submission player problem language none code pending db in
      ((r ≡ ok (new_row db player problem language code))
        × (db'.submissions ≡ new_row db player problem language code ∷ db.submissions))
      ⊎ ((id_of r ≡ none)
          × ((db'.submissions ≡ db.submissions)
              ⊎ (db'.submissions ≡ new_row db player problem language code ∷ db.submissions)))
unfolding create_submission
create_submission-cases db player problem language code = ground arith

-- The verdict is stored with the newest row, or the statement fails, carried out or not.
pub update_submission_status-cases :
    (row : Submission) (rows : List Submission) (status : SubmissionStatus) (db : Db)
    → db.submissions ≡ row ∷ rows
    → let (r, db') = update_submission_status row.id status db in
      ((answer : Submission) × (r ≡ ok answer)
        × (db'.submissions ≡ set_status row.id status (row ∷ rows)))
      ⊎ ((r ≡ query_error)
          × ((db'.submissions ≡ row ∷ rows)
              ⊎ (db'.submissions ≡ set_status row.id status (row ∷ rows))))
unfolding update_submission_status
update_submission_status-cases row rows status db e = ground (arith, ==_refl row.id)

-- UpdateSubmissionStatus on a null id: no row.
pub null_update :
    (status : SubmissionStatus) (db : Db)
    → let (r, db') = set_result none status db in
      ((r ≡ no_rows) ⊎ (r ≡ query_error)) × (db'.submissions ≡ db.submissions)
null_update status db = ground arith

pub cons_cong : {A : Type 0} {x y : A} {xs ys : List A} → x ≡ y → xs ≡ ys → x ∷ xs ≡ y ∷ ys
cons_cong p q = cc

set_status-fresh :
    (id : Uuid) (status : SubmissionStatus) (rows : List Submission)
    → All (λ (row : Submission). row.id < id) rows
    → set_status id status rows ≡ rows
unfolding set_status
set_status-fresh id status [] fresh = refl
set_status-fresh id status (row ∷ rows) fresh =
    ground (arith, fresh.0, set_status-fresh id status rows fresh.1)

pub set_status-head :
    (row : Submission) (status : SubmissionStatus) (rows : List Submission)
    → All (λ (r : Submission). r.id < row.id) rows
    → set_status row.id status (row ∷ rows) ≡ record row { status = status } ∷ rows
unfolding set_status
set_status-head row status rows fresh =
    ground (arith, ==_refl row.id, set_status-fresh row.id status rows fresh)
