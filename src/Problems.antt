-- ===== src/Problems.antt =====
-- internal/handlers/problems.go: the problems that are shown to players.
pub mod Shown
pub mod Built
use rogue_learn_code_battle.Base.{
  ℕ, Bool, true, false, ◌&&◌, Option, none, some, List, [], ◌∷◌, Text, ℤ, pos, negsuc, any, find,
  keep, take, sort_by, map, text_eq, leb, ◌==◌, if◌then◌else◌,
}
use rogue_learn_code_battle.Store.Models.{Uuid, Language, CodeProblemLanguageDetail}
use rogue_learn_code_battle.Store.Db.{Db, Query, QueryResult, ok, no_rows, query_error, statement}
use rogue_learn_code_battle.Store.Submissions.{or_no_rows}
use rogue_learn_code_battle.Executor.Languages.{normalize_language}

-- CodeProblem and EventCodeProblem
pub record CodeProblem : Type 0 where
  pub id : Uuid
  pub title : Text
  pub problem_statement : Text
  pub difficulty : ℤ
  pub created_at : ℕ

pub record EventCodeProblem : Type 0 where
  pub event_id : Uuid
  pub code_problem_id : Uuid
  pub score : ℤ

-- The tables of problems, beside the others.
pub record Catalog : Type 0 where
  pub db : Db
  pub code_problems : List CodeProblem
  pub event_code_problems : List EventCodeProblem

-- A read of the catalog, which may fail with the connection.
abbrev pub read : {A : Type 0} → (Catalog → QueryResult A) → Catalog → QueryResult A × Catalog
read q c =
    let (r, db) = statement (λ db. (q (record c { db = db }), db)) c.db in (r, record c { db = db })

-- GetCodeProblems from the first row on, and GetCodeProblemByID.
unfoldable pub get_code_problems : ℕ → Catalog → QueryResult (List CodeProblem)
get_code_problems limit c =
    ok (take limit (sort_by (λ a b. leb b.created_at a.created_at) c.code_problems))

unfoldable pub get_code_problem_by_id : Uuid → Catalog → QueryResult CodeProblem
get_code_problem_by_id id c = or_no_rows (find (λ p. p.id == id) c.code_problems)

-- GetEventCodeProblemsRow
pub record GetEventCodeProblemsRow : Type 0 where
  pub event_id : Uuid
  pub code_problem_id : Uuid
  pub score : ℤ
  pub title : Text
  pub difficulty : ℤ

-- The join with the problems.
abbrev pub join_problem :
    List CodeProblem
    → EventCodeProblem
    → List GetEventCodeProblemsRow
    → List GetEventCodeProblemsRow
join_problem problems e rest = elim (find (λ p. p.id == e.code_problem_id) problems) [
  | none ↦ rest
  | some p ↦
      record {
        event_id = e.event_id;
        code_problem_id = e.code_problem_id;
        score = e.score;
        title = p.title;
        difficulty = p.difficulty;
      }
      ∷ rest
]

unfoldable pub join_problems :
    List CodeProblem → List EventCodeProblem → List GetEventCodeProblemsRow
join_problems problems [] = []
join_problems problems (e ∷ es) = join_problem problems e (join_problems problems es)

-- ORDER BY score DESC
abbrev pub int_leb : ℤ → ℤ → Bool
int_leb (pos m) (pos n) = leb m n
int_leb (pos m) (negsuc n) = false
int_leb (negsuc m) (pos n) = true
int_leb (negsuc m) (negsuc n) = leb n m

-- GetEventCodeProblems
unfoldable pub get_event_code_problems : Uuid → Catalog → QueryResult (List GetEventCodeProblemsRow)
unfolding join_problems
get_event_code_problems event c = ok (
    sort_by (λ a b. int_leb b.score a.score)
      (join_problems c.code_problems (keep (λ e. e.event_id == event) c.event_code_problems)))

-- GetCodeProblemLanguageDetailByLanguageName
unfoldable pub get_code_problem_language_detail_by_language_name :
    Uuid → Text → Query CodeProblemLanguageDetail
get_code_problem_language_detail_by_language_name problem name = statement (λ db. (
  or_no_rows (
      find
        (λ d.
          d.code_problem_id == problem
          && any (λ l. l.id == d.language_id && text_eq l.name name) db.languages)
        db.details),
  db,
))

-- What the handlers answer: 200 with the data, 400, 404 and 500.
pub data ProblemAnswer (A : Type 0) : Type 0 where
  found : A → ProblemAnswer A
  bad_request not_found server_error : ProblemAnswer A

abbrev pub answer_with : {A B : Type 0} → (A → B) → QueryResult A → ProblemAnswer B
answer_with f (ok a) = found (f a)
answer_with f no_rows = server_error
answer_with f query_error = server_error

-- CodeProblemResponse, and toProblemResponse.
pub record CodeProblemResponse : Type 0 where
  pub title : Text
  pub problem_statement : Text
  pub difficulty : ℤ

abbrev pub to_problem_response : CodeProblem → CodeProblemResponse
to_problem_response p = record {
  title = p.title;
  problem_statement = p.problem_statement;
  difficulty = p.difficulty;
}

-- CodeProblemLanguageDetailResponse, and toProblemDetailResponse.
pub record CodeProblemLanguageDetailResponse : Type 0 where
  pub solution_stub : Text
  pub driver_code : Text
  pub time_constraint_ms : ℕ
  pub space_constraint_mb : ℕ

abbrev pub to_problem_detail_response :
    CodeProblemLanguageDetail → CodeProblemLanguageDetailResponse
to_problem_detail_response d = record {
  solution_stub = d.solution_stub;
  driver_code = d.driver_code;
  time_constraint_ms = d.time_constraint_ms;
  space_constraint_mb = d.space_constraint_mb;
}

-- GetProblemsHandler
unfoldable pub get_problems : Catalog → ProblemAnswer (List CodeProblem) × Catalog
get_problems c = let (r, c') = read (get_code_problems 10) c in (answer_with (λ ps. ps) r, c')

-- GetProblemHandler on what uuid.Parse makes of the id: a problem that is not there answers 500.
unfoldable pub get_problem : Option Uuid → Catalog → ProblemAnswer CodeProblemResponse × Catalog
get_problem none c = (bad_request, c)
get_problem (some id) c =
    let (r, c') = read (get_code_problem_by_id id) c in (answer_with to_problem_response r, c')

-- GetRoomProblemsHandler; a query of many rows has no ErrNoRows.
unfoldable pub get_room_problems :
    Option Uuid → Catalog → ProblemAnswer (List GetEventCodeProblemsRow) × Catalog
get_room_problems none c = (bad_request, c)
get_room_problems (some id) c =
    let (r, c') = read (get_event_code_problems id) c in (answer_with (λ ps. ps) r, c')

-- GetProblemDetails
unfoldable pub get_problem_details :
    Option Uuid → Text → Db → ProblemAnswer CodeProblemLanguageDetailResponse × Db
get_problem_details none lang db = (bad_request, db)
get_problem_details (some problem) lang db =
    let normalized = normalize_language lang in
    let (r, db') = get_code_problem_language_detail_by_language_name problem normalized.0 db in
    if normalized.1 then (answer_with to_problem_detail_response r, db') else (not_found, db)
