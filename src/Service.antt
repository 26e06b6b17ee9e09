-- ===== src/Service.antt =====
-- internal/service/code_battle.go: the gRPC service.
mod Messages
pub use Messages.*
use rogue_learn_code_battle.Base.{
  ℕ, ◌≡◌, ◌⊎◌, refl, Bool, true, false, Option, none, some, List, [], ◌∷◌, Text, codes, arith, inl,
  inr,
}
use rogue_learn_code_battle.Store.Models.{Uuid, Submission, pending}
use rogue_learn_code_battle.Store.Db.{
  Db, QueryResult, Transport, ok, no_rows, query_error, holds, breaks, loses,
}
use rogue_learn_code_battle.Store.Submissions.{create_submission}
use rogue_learn_code_battle.Requests.{Event, Session, Reply, rows, no_row, broken, exchange}
use rogue_learn_code_battle.Requests.Reads.{get_events}

-- uuid.Parse, with the text of its error; the text of a uuid; and the texts of the errors of a
-- query.
module _ (parse_uuid : Text → Text ⊎ Uuid) (uuid_text : Uuid → Text)
    (session_error : Session → Text) (db_error : Db → Text) where
  abbrev pub pb_event : Event → PbEvent
  pb_event e = record {
    id = uuid_text e.id;
    title = e.title;
    description = e.description;
    event_type = 1;
    start_date = e.started_date;
    end_date = e.end_date;
  }

  -- convertStoreEventsToPB
  unfoldable pub convert_store_events_to_pb : List Event → List PbEvent
  convert_store_events_to_pb [] = []
  convert_store_events_to_pb (e ∷ es) = pb_event e ∷ convert_store_events_to_pb es

  abbrev pub no_events : Session → (GetEventsResponse × Bool) × Session
  no_events s = (
    (
      record {
        status = record {
          success = false;
          message = codes "get events failed";
          error_message = session_error s;
        };
        events = [];
      },
      true,
    ),
    s,
  )

  abbrev pub events_answer : Reply (List Event) × Session → (GetEventsResponse × Bool) × Session
  events_answer (rows es, s) = (
    (
      record {
        status = record {
          success = true;
          message = codes "successfully getting events";
          error_message = [];
        };
        events = convert_store_events_to_pb es;
      },
      false,
    ),
    s,
  )
  events_answer (no_row, s) = no_events s
  events_answer (broken, s) = no_events s

  -- CodeBattleServer.GetEvents
  unfoldable pub get_events_pb : Session → (GetEventsResponse × Bool) × Session
  unfolding convert_store_events_to_pb
  get_events_pb s = events_answer (exchange (get_events default_get_limit) s)

  -- The text of a pgtype.UUID; one that is not valid is empty.
  abbrev pub pg_uuid_text : Option Uuid → Text
  pg_uuid_text none = []
  pg_uuid_text (some id) = uuid_text id

  -- submissionToPB; `none` is the empty row that comes with an error.
  unfoldable pub submission_to_pb : Option Submission → PbSubmission
  submission_to_pb none = record {
    id = [];
    user_id = [];
    language_id = [];
    room_id = [];
    code_problem_id = [];
    code_submitted = [];
    status = 0;
  }
  submission_to_pb (some s) = record {
    id = uuid_text s.id;
    user_id = uuid_text s.user_id;
    language_id = uuid_text s.language_id;
    room_id = pg_uuid_text s.room_id;
    code_problem_id = uuid_text s.code_problem_id;
    code_submitted = s.code_submitted;
    status = pb_status s.status;
  }

  abbrev pub failed_with : Text → Text → Option PbSubmission → SubmitReturn
  failed_with m err submission =
      refused (record { success = false; message = m; error_message = err }) submission

  unfoldable pub submit_return : QueryResult Submission × Db → SubmitReturn × Db
  unfolding submission_to_pb
  submit_return (ok row, db) = (nothing, db)
  submit_return (no_rows, db) = (
    failed_with (codes "failed to submit code solution") (db_error db)
        (some (submission_to_pb none)),
    db,
  )
  submit_return (query_error, db) = (
    failed_with (codes "failed to submit code solution") (db_error db)
        (some (submission_to_pb none)),
    db,
  )

  abbrev pub or_refused : Text ⊎ Uuid → Text → Db → (Uuid → SubmitReturn × Db) → SubmitReturn × Db
  or_refused (inl err) m db f = (failed_with m err none, db)
  or_refused (inr id) m db f = f id

  -- CodeBattleServer.SubmitCodeSolution behind the calls of uuid.Parse.
  abbrev pub submit_parsed :
      Text ⊎ Uuid → Text ⊎ Uuid → Text ⊎ Uuid → Text ⊎ Uuid → Text → Db → SubmitReturn × Db
  submit_parsed code_problem_id user_id language_id room_id code db =
      or_refused code_problem_id (codes "parse code problem id failed") db (λ problem.
        or_refused user_id (codes "parse user id failed") db (λ user.
          or_refused language_id (codes "parse language id failed") db (λ language.
            or_refused room_id (codes "parse room id failed") db (λ room.
              submit_return
                (create_submission user problem language (some room) code pending db)))))

  unfoldable pub submit_code_solution : SubmitCodeSolutionRequest → Db → SubmitReturn × Db
  unfolding submit_return
  submit_code_solution req db =
      submit_parsed (parse_uuid req.code_problem_id) (parse_uuid req.user_id)
        (parse_uuid req.language_id) (parse_uuid req.room_id) req.code_submitted db

  -- The submission of a request is stored.
  abbrev pub Stored :
      Text ⊎ Uuid → Text ⊎ Uuid → Text ⊎ Uuid → Text ⊎ Uuid → Text → Db → Db → Type 0
  Stored code_problem_id user_id language_id room_id code db db' =
      (problem : Uuid) × (user : Uuid) × (language : Uuid) × (room : Uuid) × (code_problem_id
        ≡ inr problem)
      × (user_id ≡ inr user)
      × (language_id ≡ inr language)
      × (room_id ≡ inr room)
      × (db'.submissions
          ≡ record {
            id = db.next_id;
            user_id = user;
            code_problem_id = problem;
            language_id = language;
            room_id = some room;
            code_submitted = code;
            status = pending;
          }
            ∷ db.submissions)

  -- Whether the answer of the next query is lost.
  abbrev pub loses_next : List Transport → Bool
  loses_next [] = false
  loses_next (holds ∷ faults) = false
  loses_next (breaks ∷ faults) = false
  loses_next (loses ∷ faults) = true

  -- A call that reports a failure.
  abbrev pub Reported : SubmitReturn → Type 0
  Reported r = (m : Text) × (err : Text) × (s : Option PbSubmission) × (r ≡ failed_with m err s)

  -- CreateSubmission adds the row and returns it, or adds nothing and fails.
  create_submission-either :
      (user problem language room : Uuid) (code : Text) (db : Db)
      → let (r, db') =
          submit_return (create_submission user problem language (some room) code pending db) in
        ((r ≡ nothing)
          × (db'.submissions
              ≡ record {
                id = db.next_id;
                user_id = user;
                code_problem_id = problem;
                language_id = language;
                room_id = some room;
                code_submitted = code;
                status = pending;
              }
                ∷ db.submissions))
        ⊎ ((r
              ≡ failed_with
                  (codes "failed to submit code solution")
                  (db_error db')
                  (some (submission_to_pb none)))
            × ((db'.submissions ≡ db.submissions)
                ⊎ ((loses_next db.faults ≡ true)
                    × (db'.submissions
                        ≡ record {
                          id = db.next_id;
                          user_id = user;
                          code_problem_id = problem;
                          language_id = language;
                          room_id = some room;
                          code_submitted = code;
                          status = pending;
                        }
                          ∷ db.submissions))))
  unfolding create_submission submit_return
  create_submission-either user problem language room code db = ground arith

  -- The three ends of a call.
  abbrev pub SubmitEnds :
      Text ⊎ Uuid → Text ⊎ Uuid → Text ⊎ Uuid → Text ⊎ Uuid → Text → Db → SubmitReturn × Db → Type 0
  SubmitEnds problem user language room code db (r, db') =
      ((r ≡ nothing) × Stored problem user language room code db db')
      ⊎ (Reported r × (db'.submissions ≡ db.submissions))
      ⊎ (Reported r × (loses_next db.faults ≡ true) × Stored problem user language room code db db')

  submit_parsed-SubmitEnds :
      (problem user language room : Text ⊎ Uuid) (code : Text) (db : Db)
      → SubmitEnds problem user language room code db
          (submit_parsed problem user language room code db)
  submit_parsed-SubmitEnds (inl err) user language room code db =
      inr (inl ((_, err, none, refl), refl))
  submit_parsed-SubmitEnds (inr p) (inl err) language room code db =
      inr (inl ((_, err, none, refl), refl))
  submit_parsed-SubmitEnds (inr p) (inr u) (inl err) room code db =
      inr (inl ((_, err, none, refl), refl))
  submit_parsed-SubmitEnds (inr p) (inr u) (inr l) (inl err) code db =
      inr (inl ((_, err, none, refl), refl))
  submit_parsed-SubmitEnds (inr p) (inr u) (inr l) (inr r) code db =
      elim (create_submission-either u p l r code db) [
        | inl (silent, stored) ↦ inl (silent, (p, u, l, r, refl, refl, refl, refl, stored))
        | inr (answered, inl same) ↦ inr (inl ((_, _, _, answered), same))
        | inr (answered, inr (lost, stored)) ↦
            inr (inr ((_, _, _, answered), lost, (p, u, l, r, refl, refl, refl, refl, stored)))
      ]

  -- SubmitCodeSolution stores the submission, pending and with the ids and the code of the request,
  -- and then returns neither a response nor an error; or it returns a response that reports a
  -- failure, and the table of submissions is as it was; or, when the insert is carried out and its
  -- answer is lost, it reports a failure and the submission is stored.
  pub submit_code_solution-silent :
      (req : SubmitCodeSolutionRequest) (db : Db)
      → SubmitEnds
          (parse_uuid req.code_problem_id)
          (parse_uuid req.user_id)
          (parse_uuid req.language_id)
          (parse_uuid req.room_id)
          req.code_submitted
          db
          (submit_code_solution req db)
  unfolding submit_code_solution
  submit_code_solution-silent req db =
      submit_parsed-SubmitEnds (parse_uuid req.code_problem_id) (parse_uuid req.user_id)
        (parse_uuid req.language_id) (parse_uuid req.room_id) req.code_submitted db
