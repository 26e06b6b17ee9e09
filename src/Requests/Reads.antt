-- ===== src/Requests/Reads.antt =====
-- The queries that make a request for an event, and those that list requests, events and rooms.
use rogue_learn_code_battle.Base.{
  ℕ, ◌+◌, Bool, true, false, not, ◌&&◌, Option, none, some, List, [], ◌∷◌, Text, codes, text_eq,
  any, keep, take, sort_by, leb, ◌==◌, if◌then◌else◌,
}
use rogue_learn_code_battle.Store.Models.{Uuid}
use rogue_learn_code_battle.Requests.Queries.{
  EventRequest, Event, EventKind, Room, RequestStatus, rows, broken, Statement,
}

-- CreateEventRequestParams; the JSON columns are the bytes that are sent.
pub record CreateEventRequestParams : Type 0 where
  pub requester_guild_id : Uuid
  pub event_type : EventKind
  pub title : Text
  pub description : Text
  pub proposed_start_date : ℕ
  pub proposed_end_date : ℕ
  pub notes : Option Text
  pub participation_details : Text
  pub room_configuration : Text
  pub event_specifics : Option Text

-- The enum event_type of the schema.
abbrev event_types : List Text
event_types = codes "code_battle" ∷ codes "workshop" ∷ codes "seminar" ∷ codes "social" ∷ []

-- A text column takes no zero byte.
abbrev is_text : Text → Bool
is_text s = not (any (λ c. c == 0) s)

abbrev is_text_or_null : Option Text → Bool
is_text_or_null none = true
is_text_or_null (some s) = is_text s

-- The bytes that a jsonb column gives back for those that it is given; `none` if it refuses them.
abbrev pub stored_or_null : (Text → Option Text) → Option Text → Option (Option Text)
stored_or_null jsonb none = some none
stored_or_null jsonb (some s) = elim (jsonb s) [ none ↦ none | some kept ↦ some (some kept) ]

-- The row of a new request. A timestamptz column gives back for a date what it keeps of it: no more
-- than microseconds, and no offset.
abbrev pub new_request :
    (ℕ → ℕ) → CreateEventRequestParams → Uuid → ℕ → Text → Text → Option Text → EventRequest
new_request timestamp p id now participation rooms specifics = record {
  id = id;
  status = RequestStatus.pending;
  requester_guild_id = p.requester_guild_id;
  processed_by_admin_id = none;
  created_at = now;
  processed_at = none;
  event_type = p.event_type;
  title = p.title;
  description = p.description;
  proposed_start_date = timestamp p.proposed_start_date;
  proposed_end_date = timestamp p.proposed_end_date;
  notes = p.notes;
  participation_details = participation;
  room_configuration = rooms;
  event_specifics = specifics;
  rejection_reason = none;
  approved_event_id = none;
}

-- The columns other than the JSON ones are taken.
abbrev pub is_accepted_row : CreateEventRequestParams → Bool
is_accepted_row p =
    any (λ name. text_eq name p.event_type) event_types
    && (is_text p.title && (is_text p.description && is_text_or_null p.notes))

-- CreateEventRequest
unfoldable pub create_event_request :
    (Text → Option Text) → (ℕ → ℕ) → CreateEventRequestParams → Statement EventRequest
create_event_request jsonb timestamp p t = elim (jsonb p.participation_details) [
  | none ↦ (broken, t)
  | some participation ↦ elim (jsonb p.room_configuration) [
    | none ↦ (broken, t)
    | some rooms ↦ elim (stored_or_null jsonb p.event_specifics) [
      | none ↦ (broken, t)
      | some specifics ↦
          let row = new_request timestamp p t.next_id t.clock participation rooms specifics in
          if is_accepted_row p
          then (rows row, record t { requests = row ∷ t.requests; next_id = t.next_id + 1 })
          else (broken, t)
    ]
  ]
]

-- ORDER BY created_at DESC
abbrev pub newer : EventRequest → EventRequest → Bool
newer q r = leb r.created_at q.created_at

-- ListEventRequestsByGuild, ListEventRequests and ListEventRequestsByStatus from the first row on.
unfoldable pub list_event_requests_by_guild : Uuid → ℕ → Statement (List EventRequest)
list_event_requests_by_guild guild limit t =
    (rows (take limit (sort_by newer (keep (λ q. q.requester_guild_id == guild) t.requests))), t)

unfoldable pub list_event_requests : ℕ → Statement (List EventRequest)
list_event_requests limit t = (rows (take limit (sort_by newer t.requests)), t)

abbrev pub same_status : RequestStatus → RequestStatus → Bool
same_status RequestStatus.pending RequestStatus.pending = true
same_status RequestStatus.approved RequestStatus.approved = true
same_status RequestStatus.rejected RequestStatus.rejected = true
same_status _ _ = false

abbrev pub status_text : RequestStatus → Text
status_text RequestStatus.pending = codes "pending"
status_text RequestStatus.approved = codes "approved"
status_text RequestStatus.rejected = codes "rejected"

-- A text that is no EventRequestStatus is an error of the query.
abbrev pub status_named : Text → Option RequestStatus
status_named name =
    if text_eq name (codes "pending")
    then some RequestStatus.pending
    else if text_eq name (codes "approved")
    then some RequestStatus.approved
    else if text_eq name (codes "rejected")
    then some RequestStatus.rejected
    else none

unfoldable pub list_event_requests_by_status : Text → ℕ → Statement (List EventRequest)
list_event_requests_by_status name limit t = elim (status_named name) [
  | none ↦ (broken, t)
  | some status ↦
      (rows (take limit (sort_by newer (keep (λ q. same_status q.status status) t.requests))), t)
]

-- GetEvents from the first row on, and GetRoomsByEvent.
unfoldable pub get_events : ℕ → Statement (List Event)
get_events limit t =
    (rows (take limit (sort_by (λ a b. leb a.started_date b.started_date) t.events)), t)

unfoldable pub get_rooms_by_event : Uuid → Statement (List Room)
get_rooms_by_event event t = (
  rows (
      sort_by (λ a b. leb a.created_date b.created_date) (keep (λ r. r.event_id == event) t.rooms)),
  t,
)
