-- ===== src/Requests/Lists.antt =====
-- The handlers that list requests, events and rooms, and the one that registers a guild.
use rogue_learn_code_battle.Base.{ℕ, Option, none, some, List, [], ◌∷◌, Text}
use rogue_learn_code_battle.Store.Models.{Uuid}
use rogue_learn_code_battle.Requests.Queries.{
  EventRequest, Event, EventGuildParticipant, Room, Session, Reply, rows, no_row, broken, exchange,
  create_event_guild_participant,
}
use rogue_learn_code_battle.Requests.Defs.{Json}
use rogue_learn_code_battle.Requests.Reads.{
  list_event_requests_by_guild, list_event_requests, list_event_requests_by_status, get_events,
  get_rooms_by_event,
}
use rogue_learn_code_battle.Requests.Forms.{EventRequestResponse, to_event_request_response}

-- What the handlers answer: 200 with a list, the 400s by their reason, 404 and 500.
pub data ListAnswer (A : Type 0) : Type 0 where
  listed : List A → ListAnswer A
  guild_required invalid_id unreadable not_found server_error : ListAnswer A

-- The limits of the two kinds of pages.
abbrev pub request_limit : ℕ
request_limit = 20

abbrev pub event_limit : ℕ
event_limit = 10

-- The loop of GetMyEventRequestsHandler: a row that cannot be read is left out.
unfoldable pub readable : Json → List EventRequest → List EventRequestResponse
readable json [] = []
readable json (req ∷ reqs) =
    let rest = readable json reqs in
    elim (to_event_request_response json req) [ none ↦ rest | some dto ↦ dto ∷ rest ]

abbrev pub answer_readable :
    Json → Reply (List EventRequest) × Session → ListAnswer EventRequestResponse × Session
answer_readable json (rows reqs, s) = (listed (readable json reqs), s)
answer_readable json (no_row, s) = (server_error, s)
answer_readable json (broken, s) = (server_error, s)

-- GetMyEventRequestsHandler: the parameter guild_id is missing, malformed, or an id.
unfoldable pub get_my_event_requests :
    Json → Option (Option Uuid) → Session → ListAnswer EventRequestResponse × Session
unfolding readable
get_my_event_requests json none s = (guild_required, s)
get_my_event_requests json (some none) s = (invalid_id, s)
get_my_event_requests json (some (some guild)) s =
    answer_readable json (exchange (list_event_requests_by_guild guild request_limit) s)

-- The loop of GetEventRequestsHandler: it ends at a row that cannot be read.
unfoldable pub read_all : Json → List EventRequest → Option (List EventRequestResponse)
read_all json [] = some []
read_all json (req ∷ reqs) =
    let rest = read_all json reqs in
    elim (to_event_request_response json req) [
      | none ↦ none
      | some dto ↦ elim rest [ none ↦ none | some dtos ↦ some (dto ∷ dtos) ]
    ]

abbrev pub or_unreadable :
    Option (List EventRequestResponse) → Session → ListAnswer EventRequestResponse × Session
or_unreadable none s = (unreadable, s)
or_unreadable (some dtos) s = (listed dtos, s)

abbrev pub answer_all :
    Json → Reply (List EventRequest) × Session → ListAnswer EventRequestResponse × Session
answer_all json (rows reqs, s) = or_unreadable (read_all json reqs) s
answer_all json (no_row, s) = (server_error, s)
answer_all json (broken, s) = (server_error, s)

-- GetEventRequestsHandler on the parameter status, which may be empty.
unfoldable pub get_event_requests :
    Json → Text → Session → ListAnswer EventRequestResponse × Session
get_event_requests json [] s = answer_all json (exchange (list_event_requests request_limit) s)
get_event_requests json (c ∷ status) s =
    answer_all json (exchange (list_event_requests_by_status (c ∷ status) request_limit) s)

abbrev pub answer_rows : {A : Type 0} → Reply (List A) × Session → ListAnswer A × Session
answer_rows (rows found, s) = (listed found, s)
answer_rows (no_row, s) = (not_found, s)
answer_rows (broken, s) = (server_error, s)

-- GetEventsHandler; its query answers no row with an empty list.
unfoldable pub get_events_handler : Session → ListAnswer Event × Session
get_events_handler s = answer_rows (exchange (get_events event_limit) s)

-- GetEventRoomsHandler
unfoldable pub get_event_rooms : Option Uuid → Session → ListAnswer Room × Session
get_event_rooms none s = (invalid_id, s)
get_event_rooms (some event) s = answer_rows (exchange (get_rooms_by_event event) s)

abbrev pub answer_registered :
    Reply EventGuildParticipant × Session → ListAnswer EventGuildParticipant × Session
answer_registered (rows _, s) = (listed [], s)
answer_registered (no_row, s) = (not_found, s)
answer_registered (broken, s) = (server_error, s)

-- RegisterGuildToEventHandler; its answer carries no data.
unfoldable pub register_guild_to_event :
    Option Uuid → Option Uuid → Session → ListAnswer EventGuildParticipant × Session
register_guild_to_event none event s = (invalid_id, s)
register_guild_to_event (some guild) none s = (invalid_id, s)
register_guild_to_event (some guild) (some event) s =
    answer_registered (exchange (create_event_guild_participant event guild) s)
