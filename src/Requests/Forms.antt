-- ===== src/Requests/Forms.antt =====
-- CreateEventHandler and the handlers that list requests, events and rooms.
use rogue_learn_code_battle.Base.{
  ℕ, Option, none, some, List, [], ◌∷◌, Text, ltb, ℤ, pos, is_empty, if◌then◌else◌,
}
use rogue_learn_code_battle.Store.Models.{Uuid, text_or_empty}
use rogue_learn_code_battle.Requests.Queries.{
  EventRequest, EventKind, Session, Reply, rows, no_row, broken, exchange,
}
use rogue_learn_code_battle.Requests.Reads.{
  CreateEventRequestParams, create_event_request, status_text,
}
use rogue_learn_code_battle.Requests.Defs.{ParticipationDetails, RoomConfiguration, Json}

-- CodeBattleDetails with its DifficultyDistribution, and EventSpecifics.
pub record DifficultyDistribution : Type 0 where
  pub number_of_problems : ℤ
  pub difficulty : ℤ
  pub score : ℤ

pub record CodeBattleDetails : Type 0 where
  pub topics : List Uuid
  pub distribution : List DifficultyDistribution

pub record EventSpecifics : Type 0 where
  pub code_battle : Option CodeBattleDetails

-- EventCreationRequest; the guild id is what uuid.Parse makes of it.
pub record EventCreationRequest : Type 0 where
  pub requester_guild_id : Option Uuid
  pub event_type : EventKind
  pub title : Text
  pub description : Text
  pub proposed_start_date : ℕ
  pub proposed_end_date : ℕ
  pub participation : ParticipationDetails
  pub room_configuration : RoomConfiguration
  pub event_specifics : Option EventSpecifics
  pub notes : Text

-- json.Marshal on the three types; `none` is an error. And the columns of the
-- database: the text that a jsonb column gives back, if it takes the one it is given, and the instant
-- that a timestamptz column gives back.
pub record Columns : Type 0 where
  pub marshal_participation : ParticipationDetails → Option Text
  pub marshal_rooms : RoomConfiguration → Option Text
  pub marshal_specifics : EventSpecifics → Option Text
  pub jsonb : Text → Option Text
  pub timestamp : ℕ → ℕ

-- What CreateEventHandler answers: 202 with the row, the 400s by their reason, 500.
pub data CreateAnswer : Type 0 where
  accepted : EventRequest → CreateAnswer
  invalid_body empty_title reversed_dates invalid_guild server_error : CreateAnswer

abbrev pub created : Reply EventRequest × Session → CreateAnswer × Session
created (rows row, s) = (accepted row, s)
created (no_row, s) = (server_error, s)
created (broken, s) = (server_error, s)

abbrev pub marshal_optional :
    (EventSpecifics → Option Text) → Option EventSpecifics → Option (Option Text)
marshal_optional marshal none = some none
marshal_optional marshal (some e) = elim (marshal e) [ none ↦ none | some t ↦ some (some t) ]

abbrev pub text_if_any : Text → Option Text
text_if_any [] = none
text_if_any (c ∷ s) = some (c ∷ s)

abbrev pub params_of :
    EventCreationRequest → Uuid → Text → Text → Option Text → CreateEventRequestParams
params_of req guild participation room_config specifics = record {
  requester_guild_id = guild;
  event_type = req.event_type;
  title = req.title;
  description = req.description;
  proposed_start_date = req.proposed_start_date;
  proposed_end_date = req.proposed_end_date;
  notes = text_if_any req.notes;
  participation_details = participation;
  room_configuration = room_config;
  event_specifics = specifics;
}

-- The part behind the checks.
unfoldable pub insert_request :
    Columns → EventCreationRequest → Uuid → Session → CreateAnswer × Session
insert_request c req guild s = elim (c.marshal_participation req.participation) [
  | none ↦ (server_error, s)
  | some participation ↦ elim (c.marshal_rooms req.room_configuration) [
    | none ↦ (server_error, s)
    | some room_config ↦ elim (marshal_optional c.marshal_specifics req.event_specifics) [
      | none ↦ (server_error, s)
      | some specifics ↦ created (
          exchange
            (create_event_request c.jsonb c.timestamp
              (params_of req guild participation room_config specifics))
            s)
    ]
  ]
]

-- CreateEventHandler on what DecodeJSON makes of the body.
unfoldable pub create_event_handler :
    Columns → Option EventCreationRequest → Session → CreateAnswer × Session
create_event_handler c none s = (invalid_body, s)
create_event_handler c (some req) s =
    if is_empty req.title
    then (empty_title, s)
    else if ltb req.proposed_end_date req.proposed_start_date
    then (reversed_dates, s)
    else elim req.requester_guild_id [
      | none ↦ (invalid_guild, s)
      | some guild ↦ insert_request c req guild s
    ]

-- EventRequestResponse; a null id is the zero id, a null text the empty text.
pub record EventRequestResponse : Type 0 where
  pub id : Uuid
  pub status : Text
  pub requester_guild_id : Uuid
  pub title : Text
  pub description : Text
  pub proposed_start_date : ℕ
  pub proposed_end_date : ℕ
  pub participation_details : ParticipationDetails
  pub room_configuration : RoomConfiguration
  pub rejection_reason : Text
  pub approved_event_id : Uuid
  pub notes : Text

abbrev pub id_or_zero : Option Uuid → Uuid
id_or_zero none = 0
id_or_zero (some id) = id

-- An empty column is not read and gives the zero value.
abbrev pub read_column : {A : Type 0} → (Text → Option A) → A → Text → Option A
read_column unmarshal zero_value [] = some zero_value
read_column unmarshal zero_value (c ∷ s) = unmarshal (c ∷ s)

abbrev pub no_participation : ParticipationDetails
no_participation = record { max_guilds = pos 0; max_players_per_guild = pos 0 }

abbrev pub no_rooms_configured : RoomConfiguration
no_rooms_configured = record {
  number_of_rooms = pos 0;
  guilds_per_room = pos 0;
  room_naming_prefix = [];
}

abbrev pub response_of :
    EventRequest → ParticipationDetails → RoomConfiguration → EventRequestResponse
response_of req participation room_config = record {
  id = req.id;
  status = status_text req.status;
  requester_guild_id = req.requester_guild_id;
  title = req.title;
  description = req.description;
  proposed_start_date = req.proposed_start_date;
  proposed_end_date = req.proposed_end_date;
  participation_details = participation;
  room_configuration = room_config;
  rejection_reason = text_or_empty req.rejection_reason;
  approved_event_id = id_or_zero req.approved_event_id;
  notes = text_or_empty req.notes;
}

-- toEventRequestResponse; `none` is an error.
unfoldable pub to_event_request_response : Json → EventRequest → Option EventRequestResponse
to_event_request_response json req =
    elim (read_column json.unmarshal_participation no_participation req.participation_details) [
      | none ↦ none
      | some participation ↦
          elim (read_column json.unmarshal_rooms no_rooms_configured req.room_configuration) [
            | none ↦ none
            | some room_config ↦ some (response_of req participation room_config)
          ]
    ]
