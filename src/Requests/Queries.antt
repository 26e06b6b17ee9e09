-- ===== src/Requests/Queries.antt =====
-- The tables and queries that the requests for events work on, and transactions.
use rogue_learn_code_battle.Base.{
  ℕ, ◌+◌, Bool, true, not, ◌&&◌, Option, none, some, List, [], ◌∷◌, map, Text, ℤ, any, find, ◌==◌,
  if◌then◌else◌,
}
use rogue_learn_code_battle.Store.Models.{Uuid}

-- EventRequestStatus
pub data RequestStatus : Type 0 where
  pending approved rejected : RequestStatus

-- EventType, the enum of internal/store/models.go: a text; an invalid one is refused when a request
-- is made.
abbrev pub EventKind : Type 0
EventKind = Text

-- EventRequest; the JSON columns are their bytes.
pub record EventRequest : Type 0 where
  pub id : Uuid
  pub status : RequestStatus
  pub requester_guild_id : Uuid
  pub processed_by_admin_id : Option Uuid
  pub created_at : ℕ
  pub processed_at : Option ℕ
  pub event_type : EventKind
  pub title : Text
  pub description : Text
  pub proposed_start_date : ℕ
  pub proposed_end_date : ℕ
  pub notes : Option Text
  pub participation_details : Text
  pub room_configuration : Text
  pub event_specifics : Option Text
  pub rejection_reason : Option Text
  pub approved_event_id : Option Uuid

-- Event; the integer columns hold an int32, or null.
pub record Event : Type 0 where
  pub id : Uuid
  pub title : Text
  pub description : Text
  pub event_type : EventKind
  pub started_date : ℕ
  pub end_date : ℕ
  pub max_guilds : Option ℤ
  pub max_players_per_guild : Option ℤ
  pub number_of_rooms : Option ℤ
  pub guilds_per_room : Option ℤ
  pub room_naming_prefix : Option Text
  pub original_request_id : Option Uuid

-- Room
pub record Room : Type 0 where
  pub id : Uuid
  pub event_id : Uuid
  pub name : Text
  pub description : Text
  pub created_date : ℕ

-- EventGuildParticipant
pub record EventGuildParticipant : Type 0 where
  pub event_id : Uuid
  pub guild_id : Uuid
  pub joined_at : ℕ
  pub room_id : Option Uuid

pub record Tables : Type 0 where
  pub requests : List EventRequest
  pub events : List Event
  pub rooms : List Room
  pub participants : List EventGuildParticipant
  -- What now() returns, and what gen_random_uuid() returns next.
  pub clock : ℕ
  pub next_id : Uuid

-- What becomes of one exchange with the database: it is carried out and answered, it fails before
-- anything is done, or it is carried out and the answer is lost.
pub data Exchange : Type 0 where
  answered refused lost : Exchange

-- The tables, and the coming exchanges; when the list is used up, all are answered.
pub record Session : Type 0 where
  pub tables : Tables
  pub exchanges : List Exchange

pub data Reply (A : Type 0) : Type 0 where
  rows : A → Reply A
  no_row : Reply A
  broken : Reply A

abbrev pub Statement : Type 0 → Type 0
Statement A = Tables → Reply A × Tables

abbrev pub exchange : {A : Type 0} → Statement A → Session → Reply A × Session
exchange q s = elim s.exchanges [
  | [] ↦ let (r, t) = q s.tables in (r, record s { tables = t })
  | e ∷ es ↦ elim e [
    | answered ↦ let (r, t) = q s.tables in (r, record { tables = t; exchanges = es })
    | refused ↦ (broken, record s { exchanges = es })
    | lost ↦ let (r, t) = q s.tables in (broken, record { tables = t; exchanges = es })
  ]
]

-- CreateEvent: the request that it comes from must exist.
unfoldable pub create_event : Event → Statement Event
create_event e t =
    let row : Event = record e { id = t.next_id } in
    let known : Bool = elim e.original_request_id [
      | none ↦ true
      | some r ↦ any (λ q. q.id == r) t.requests
    ] in
    if known
    then (rows row, record t { events = row ∷ t.events; next_id = t.next_id + 1 })
    else (broken, t)

-- CreateRoom: its event must exist.
unfoldable pub create_room : Uuid → Text → Text → Statement Room
create_room event name description t =
    let row : Room = record {
      id = t.next_id;
      event_id = event;
      name = name;
      description = description;
      created_date = t.clock;
    } in
    if any (λ e. e.id == event) t.events
    then (rows row, record t { rooms = row ∷ t.rooms; next_id = t.next_id + 1 })
    else (broken, t)

-- CreateEventGuildParticipant without a room: the event must exist and the pair be new.
unfoldable pub create_event_guild_participant : Uuid → Uuid → Statement EventGuildParticipant
create_event_guild_participant event guild t =
    let row : EventGuildParticipant = record {
      event_id = event;
      guild_id = guild;
      joined_at = t.clock;
      room_id = none;
    } in
    if any (λ e. e.id == event) t.events
      && not (any (λ p. p.event_id == event && p.guild_id == guild) t.participants)
    then (rows row, record t { participants = row ∷ t.participants })
    else (broken, t)

-- GetEventRequestByID
unfoldable pub get_event_request_by_id : Uuid → Statement EventRequest
get_event_request_by_id id t = elim (find (λ q. q.id == id) t.requests) [
  | some q ↦ (rows q, t)
  | none ↦ (no_row, t)
]

-- UpdateEventRequestStatus: an approved event must exist.
abbrev pub processed :
    RequestStatus → Uuid → Option Text → Option Uuid → ℕ → EventRequest → EventRequest
processed status admin reason event now q = record q {
  status = status;
  processed_by_admin_id = some admin;
  processed_at = some now;
  rejection_reason = reason;
  approved_event_id = event;
}

abbrev pub set_processed :
    Uuid → (EventRequest → EventRequest) → List EventRequest → List EventRequest
set_processed id f = map (λ (q : EventRequest). if q.id == id then f q else q)

unfoldable pub update_event_request_status :
    Uuid → RequestStatus → Uuid → Option Text → Option Uuid → Statement EventRequest
update_event_request_status id status admin reason event t =
    let change = processed status admin reason event t.clock in
    let known : Bool = elim event [ none ↦ true | some e ↦ any (λ x. x.id == e) t.events ] in
    elim (find (λ q. q.id == id) t.requests) [
      | none ↦ (no_row, t)
      | some q ↦
          if known
          then (rows (change q), record t { requests = set_processed id change t.requests })
          else (broken, t)
    ]
