-- ===== src/Tests/Requests.antt =====
-- The theorems on requests for events at concrete inputs.
use rogue_learn_code_battle.Base.{◌≡◌, ◌≢◌, ◌⊎◌, refl, true, false, none, some, [], ◌∷◌, codes, pos}
use rogue_learn_code_battle.Requests.{
  EventRequest, RequestStatus, Session, Json, RoomConfiguration, ParticipationDetails,
  already_processed, server_error, approve_event_request, approval_body, create_rooms, create_event,
  create_room, create_event_guild_participant, update_event_request_status, process_event_request,
}
use rogue_learn_code_battle.Requests.Approval.{IsApproved, approve_event_request-atomic}
use rogue_learn_code_battle.Requests.Once.{process_event_request-settled}

abbrev request_of : RequestStatus → EventRequest
request_of status = record {
  id = 1;
  status = status;
  requester_guild_id = 2;
  processed_by_admin_id = none;
  created_at = 0;
  processed_at = none;
  event_type = codes "code_battle";
  title = codes "t";
  description = codes "d";
  proposed_start_date = 5;
  proposed_end_date = 6;
  notes = none;
  participation_details = codes "{}";
  room_configuration = codes "{}";
  event_specifics = none;
  rejection_reason = none;
  approved_event_id = none;
}

-- A decoder that reads two rooms and three guilds of four players from every text.
abbrev decoder : Json
decoder = record {
  unmarshal_rooms = λ s. some (record {
    number_of_rooms = pos 2;
    guilds_per_room = pos 3;
    room_naming_prefix = codes "Room";
  });
  unmarshal_participation =
      λ s. some (record { max_guilds = pos 3; max_players_per_guild = pos 4 });
}

abbrev session_of : RequestStatus → Session
session_of status = record {
  tables = record {
    requests = request_of status ∷ [];
    events = [];
    rooms = [];
    participants = [];
    clock = 7;
    next_id = 20;
  };
  exchanges = [];
}

approve_event_request-atomic_example :
    let result =
      approve_event_request decoder
        (request_of RequestStatus.pending)
        3
        (session_of RequestStatus.pending) in
    ((result.0 ≡ false) × (result.1.tables ≡ (session_of RequestStatus.pending).tables))
    ⊎ ((config : RoomConfiguration) × (details : ParticipationDetails) × (decoder.unmarshal_rooms
            (codes "{}")
          ≡ some config)
        × (decoder.unmarshal_participation (codes "{}") ≡ some details)
        × IsApproved
            (request_of RequestStatus.pending)
            3
            config
            details
            (session_of RequestStatus.pending).tables
            result.1.tables)
approve_event_request-atomic_example =
    approve_event_request-atomic decoder (request_of RequestStatus.pending) 3
      (session_of RequestStatus.pending)

rejected_ne_pending : RequestStatus.rejected ≢ RequestStatus.pending
rejected_ne_pending e = cc

process_event_request-settled_example :
    let result =
      process_event_request decoder 3
        (some 1)
        (some (record { action = codes "approve"; rejection_reason = [] }))
        (session_of RequestStatus.rejected) in
    (result.1.tables ≡ (session_of RequestStatus.rejected).tables)
    × ((result.0 ≡ already_processed RequestStatus.rejected) ⊎ (result.0 ≡ server_error))
process_event_request-settled_example =
    process_event_request-settled decoder 3 1
      (record { action = codes "approve"; rejection_reason = [] })
      (session_of RequestStatus.rejected) (request_of RequestStatus.rejected) refl
      rejected_ne_pending

approved_once :
    (approve_event_request decoder
      (request_of RequestStatus.pending)
      3
      (session_of RequestStatus.pending)).0
    ≡ true
unfolding approve_event_request approval_body create_rooms create_event create_room
    create_event_guild_participant update_event_request_status
approved_once = refl

approved_again :
    (approve_event_request decoder
      (request_of RequestStatus.pending)
      4
      (approve_event_request decoder
        (request_of RequestStatus.pending)
        3
        (session_of RequestStatus.pending)).1).0
    ≡ true
unfolding approve_event_request approval_body create_rooms create_event create_room
    create_event_guild_participant update_event_request_status
approved_again = refl
