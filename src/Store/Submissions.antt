-- ===== src/Store/Submissions.antt =====
-- The queries on languages, problems, test cases, submissions and rooms.
use rogue_learn_code_battle.Base.{
  ◌+◌, Bool, true, false, ◌&&◌, ◌||◌, not, Option, none, some, List, [], ◌∷◌, map, Text, text_eq,
  find, any, keep, ◌==◌, if◌then◌else◌, leb,
}
use rogue_learn_code_battle.Store.Models.{
  Uuid, Language, TestCase, CodeProblemLanguageDetail, Submission, SubmissionStatus,
}
use rogue_learn_code_battle.Store.Db.{Query, QueryResult, ok, no_rows, query_error, statement}

abbrev pub or_no_rows : {A : Type 0} → Option A → QueryResult A
or_no_rows none = no_rows
or_no_rows (some a) = ok a

-- GetLanguageByName
unfoldable pub get_language_by_name : Text → Query Language
get_language_by_name name =
    statement (λ db. (or_no_rows (find (λ l. text_eq l.name name) db.languages), db))

-- GetCodeProblemLanguageDetail
unfoldable pub get_code_problem_language_detail : Uuid → Uuid → Query CodeProblemLanguageDetail
get_code_problem_language_detail problem language = statement (λ db. (
  or_no_rows (find (λ p. p.code_problem_id == problem && p.language_id == language) db.details),
  db,
))

-- ORDER BY is_hidden, id
abbrev case_before : TestCase → TestCase → Bool
case_before s t =
    if s.is_hidden then (t.is_hidden && leb s.id t.id) else (t.is_hidden || leb s.id t.id)

insert_case : TestCase → List TestCase → List TestCase
insert_case t [] = t ∷ []
insert_case t (u ∷ rows) = if case_before t u then t ∷ u ∷ rows else u ∷ insert_case t rows

unfoldable pub sort_cases : List TestCase → List TestCase
unfolding insert_case
sort_cases [] = []
sort_cases (t ∷ rows) = insert_case t (sort_cases rows)

-- GetTestCasesByProblem
unfoldable pub get_test_cases_by_problem : Uuid → Query (List TestCase)
get_test_cases_by_problem problem =
    statement (λ db. (ok (sort_cases (keep (λ t. t.code_problem_id == problem) db.test_cases)), db))

-- CreateSubmission, with the columns that the program sets; the language and the
-- problem must exist, and so must a room that is given.
unfoldable pub create_submission :
    Uuid → Uuid → Uuid → Option Uuid → Text → SubmissionStatus → Query Submission
create_submission user problem language room code status = statement (λ db.
    let row : Submission = record {
      id = db.next_id;
      user_id = user;
      code_problem_id = problem;
      language_id = language;
      room_id = room;
      code_submitted = code;
      status = status;
    } in
    let room_exists : Bool = elim room [ none ↦ true | some r ↦ any (λ q. q == r) db.rooms ] in
    let language_exists = any (λ l. l.id == language) db.languages in
    let problem_exists = any (λ p. p == problem) db.problems in
    if room_exists && (language_exists && problem_exists)
    then (ok row, record db { submissions = row ∷ db.submissions; next_id = db.next_id + 1 })
    else (query_error, db))

-- UpdateSubmissionStatus
unfoldable pub set_status : Uuid → SubmissionStatus → List Submission → List Submission
set_status id status = map (λ s. if s.id == id then record s { status = status } else s)

unfoldable pub update_submission_status : Uuid → SubmissionStatus → Query Submission
unfolding set_status
update_submission_status id status = statement (λ db. elim (find (λ s. s.id == id) db.submissions) [
  | none ↦ (no_rows, db)
  | some s ↦ (
    ok (record s { status = status }),
    record db { submissions = set_status id status db.submissions },
  )
])

abbrev in_room : Uuid → Option Uuid → Bool
in_room room none = false
in_room room (some r) = r == room

-- DeleteRoom: the players and submissions that refer to the room hold it. Guild participants refer
-- to a room too, but the program never gives one of them a room.
unfoldable pub delete_room : Uuid → Query (Unit {0})
delete_room room = statement (λ db.
    let has_players = any (λ p. p.room_id == room) db.room_players in
    let has_submissions = any (λ s. in_room room s.room_id) db.submissions in
    if has_players || has_submissions
    then (query_error, db)
    else (ok tt, record db { rooms = keep (λ r. not (r == room)) db.rooms }))
