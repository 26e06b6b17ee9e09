-- ===== src/Requests/Defs.antt =====
-- approveEventRequest, declineEventRequest and ProcessEventRequestHandler.
use rogue_learn_code_battle.Base.{
  ℕ, zero, suc, ◌+◌, Bool, true, false, Option, none, some, [], ◌∷◌, ◌++◌, Text, codes, decimal,
  text_eq, ℤ, int_32, rounds_of, if◌then◌else◌, is_empty,
}
use rogue_learn_code_battle.Store.Models.{Uuid}
use rogue_learn_code_battle.Requests.Queries.{
  EventRequest, Event, RequestStatus, Session, Tables, Reply, rows, no_row, broken, Statement,
  answered, refused, lost, exchange, create_event, create_room, create_event_guild_participant,
  get_event_request_by_id, update_event_request_status,
}

-- ParticipationDetails and RoomConfiguration
pub record ParticipationDetails : Type 0 where
  pub max_guilds : ℤ
  pub max_players_per_guild : ℤ

pub record RoomConfiguration : Type 0 where
  pub number_of_rooms : ℤ
  pub guilds_per_room : ℤ
  pub room_naming_prefix : Text

-- encoding/json on the two columns; `none` is an error.
pub record Json : Type 0 where
  pub unmarshal_rooms : Text → Option RoomConfiguration
  pub unmarshal_participation : Text → Option ParticipationDetails

-- Statements of a transaction; `none` is an error, which ends it.
abbrev pub Tx : Type 0 → Type 0
Tx A = Session → Option A × Session

abbrev pub row_of : {A : Type 0} → Reply A → Option A
row_of (rows a) = some a
row_of no_row = none
row_of broken = none

abbrev pub go_on : {A B : Type 0} → Option A × Session → (A → Tx B) → Option B × Session
go_on (none, s) f = (none, s)
go_on (some a, s) f = f a s

infixl 5 ◌>>=◌ ◌>>◌
abbrev pub ◌>>=◌ : {A B : Type 0} → Tx A → (A → Tx B) → Tx B
◌>>=◌ m f s = go_on (m s) f

abbrev pub ◌>>◌ : {A B : Type 0} → Tx A → Tx B → Tx B
m >> k = m >>= λ _. k

abbrev pub pure : {A : Type 0} → A → Tx A
pure a s = (some a, s)

abbrev pub query : {A : Type 0} → Statement A → Tx A
query q s = let (r, s') = exchange q s in (row_of r, s')

-- The names of the rooms count from 1.
abbrev pub room_name : Text → ℕ → Text
room_name prefix i = prefix ++ (codes " " ++ decimal (i + 1))

abbrev pub room_description : Text → ℕ → Text
room_description title i = codes "Room " ++ (decimal (i + 1) ++ (codes " for event " ++ title))

-- The loop that creates the rooms from number `i` on.
unfoldable pub create_rooms : ℕ → ℕ → Event → Text → Tx (Unit {0})
create_rooms zero i event prefix = pure tt
create_rooms (suc n) i event prefix =
    query (create_room event.id (room_name prefix i) (room_description event.title i)) >>= λ _.
    create_rooms n (i + 1) event prefix

-- The event that a request asks for; the database gives it its id.
abbrev pub requested_event : EventRequest → RoomConfiguration → ParticipationDetails → Event
requested_event req config details = record {
  id = 0;
  title = req.title;
  description = req.description;
  event_type = req.event_type;
  started_date = req.proposed_start_date;
  end_date = req.proposed_end_date;
  max_guilds = some (int_32 details.max_guilds);
  max_players_per_guild = some (int_32 details.max_players_per_guild);
  number_of_rooms = some (int_32 config.number_of_rooms);
  guilds_per_room = some (int_32 config.guilds_per_room);
  room_naming_prefix = some config.room_naming_prefix;
  original_request_id = some req.id;
}

-- The statements between Begin and Commit.
unfoldable pub approval_body :
    EventRequest → Uuid → RoomConfiguration → ParticipationDetails → Tx (Unit {0})
unfolding create_rooms
approval_body req admin config details = do
  event ← query (create_event (requested_event req config details))
  create_rooms (rounds_of config.number_of_rooms) 0 event config.room_naming_prefix
  _ ← query (create_event_guild_participant event.id req.requester_guild_id)
  _ ← query (update_event_request_status req.id RequestStatus.approved admin none (some event.id))
  pure tt

-- tx.Commit, and tx.Rollback to the tables at Begin. A commit whose answer is lost is carried out.
abbrev pub commit : Tables → Session → Bool × Session
commit before s = elim s.exchanges [
  | [] ↦ (true, s)
  | e ∷ es ↦ elim e [
    | answered ↦ (true, record s { exchanges = es })
    | refused ↦ (false, record { tables = before; exchanges = es })
    | lost ↦ (false, record s { exchanges = es })
  ]
]

abbrev pub finish : Tables → Option (Unit {0}) × Session → Bool × Session
finish before (none, s) = (false, record s { tables = before })
finish before (some _, s) = commit before s

-- Begin, the body, and Commit or Rollback.
abbrev pub in_transaction : Tx (Unit {0}) → Session → Bool × Session
in_transaction body s =
    let (begun, s') = exchange (λ t. (rows (tt {0}), t)) s in
    elim (row_of begun) [ none ↦ (false, s') | some _ ↦ finish s'.tables (body s') ]

-- approveEventRequest; `true` is the nil error.
unfoldable pub approve_event_request : Json → EventRequest → Uuid → Session → Bool × Session
unfolding approval_body
approve_event_request json req admin s = elim (json.unmarshal_rooms req.room_configuration) [
  | none ↦ (false, s)
  | some config ↦ elim (json.unmarshal_participation req.participation_details) [
    | none ↦ (false, s)
    | some details ↦ in_transaction (approval_body req admin config details) s
  ]
]

abbrev pub is_rows : {A : Type 0} → Reply A → Bool
is_rows (rows _) = true
is_rows no_row = false
is_rows broken = false

-- declineEventRequest
unfoldable pub decline_event_request : EventRequest → Uuid → Text → Session → Bool × Session
decline_event_request req admin reason s =
    let (r, s') =
      exchange (update_event_request_status req.id RequestStatus.rejected admin (some reason) none)
        s in
    (is_rows r, s')

-- ProcessRequestPayload
pub record ProcessRequestPayload : Type 0 where
  pub action : Text
  pub rejection_reason : Text

-- What the handler answers: 200, the 400s by their reason, 404 and 500.
pub data Answer : Type 0 where
  processed_as : Text → Answer
  invalid_request_id invalid_body reason_required invalid_action not_found server_error : Answer
  already_processed : RequestStatus → Answer

abbrev pub answer : Text → Bool × Session → Answer × Session
answer action (true, s) = (processed_as action, s)
answer action (false, s) = (server_error, s)

-- The switch on the action.
unfoldable pub act : Json → Uuid → ProcessRequestPayload → EventRequest → Session → Answer × Session
act json admin payload req s =
    if text_eq payload.action (codes "approve")
    then answer payload.action (approve_event_request json req admin s)
    else if text_eq payload.action (codes "decline")
    then (if is_empty payload.rejection_reason
        then (reason_required, s)
        else answer payload.action (decline_event_request req admin payload.rejection_reason s))
    else (invalid_action, s)

abbrev pub act_on_pending :
    Json → Uuid → ProcessRequestPayload → EventRequest → Session → Answer × Session
act_on_pending json admin payload req s = elim req.status [
  | RequestStatus.pending ↦ act json admin payload req s
  | RequestStatus.approved ↦ (already_processed RequestStatus.approved, s)
  | RequestStatus.rejected ↦ (already_processed RequestStatus.rejected, s)
]

-- What follows the read of the request.
abbrev pub answer_read :
    Json → Uuid → ProcessRequestPayload → Reply EventRequest × Session → Answer × Session
answer_read json admin payload (rows req, s) = act_on_pending json admin payload req s
answer_read json admin payload (no_row, s) = (not_found, s)
answer_read json admin payload (broken, s) = (server_error, s)

-- ProcessEventRequestHandler on what uuid.Parse and DecodeJSON make of the path and the body.
unfoldable pub process_event_request :
    Json → Uuid → Option Uuid → Option ProcessRequestPayload → Session → Answer × Session
process_event_request json admin none payload s = (invalid_request_id, s)
process_event_request json admin (some id) none s = (invalid_body, s)
process_event_request json admin (some id) (some payload) s =
    answer_read json admin payload (exchange (get_event_request_by_id id) s)
