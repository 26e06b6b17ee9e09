-- ===== src/Store/Db.antt =====
-- The database as the queries of internal/store/query.sql.go see it: the tables, and the outcomes
-- of the connection, on which any query may fail.
use rogue_learn_code_battle.Base.{ℕ, ◌≡◌, List, [], ◌∷◌}
use rogue_learn_code_battle.Store.Models.{
  Uuid, Language, TestCase, CodeProblemLanguageDetail, RoomPlayer, Submission,
}

-- What a query returns: rows, pgx.ErrNoRows, or another error.
pub data QueryResult {ℓ} (A : Type ℓ) : Type ℓ where
  ok : A → QueryResult A
  no_rows : QueryResult A
  query_error : QueryResult A

-- What a connection makes of a query: it is answered; it is not carried out; or it is carried out and
-- its answer is lost, with the connection or behind the deadline of its context.
pub data Transport : Type 0 where
  holds breaks loses : Transport

pub record Db : Type 0 where
  pub languages : List Language
  pub details : List CodeProblemLanguageDetail
  pub test_cases : List TestCase
  pub problems : List Uuid
  pub rooms : List Uuid
  pub room_players : List RoomPlayer
  pub submissions : List Submission
  -- What now() and gen_random_uuid() return next.
  pub clock : ℕ
  pub next_id : Uuid
  -- What the connection makes of the coming queries; when the list is used up, it holds.
  pub faults : List Transport

abbrev pub Query : Type 0 → Type 0
Query A = Db → QueryResult A × Db

-- One statement: it runs, or it fails with the connection, carried out or not.
abbrev pub statement : {A : Type 0} → Query A → Query A
statement q db = elim db.faults [
  | [] ↦ q db
  | fault ∷ faults ↦ elim fault [
    | holds ↦ q (record db { faults = faults })
    | breaks ↦ (query_error, record db { faults = faults })
    | loses ↦ (query_error, (q (record db { faults = faults })).1)
  ]
]

-- The connection holds from now on.
abbrev pub IsUp : Db → Type 0
IsUp db = db.faults ≡ []
