-- ===== src/Requests/Approval.antt =====
-- approveEventRequest is one transaction: all of it is done or nothing.
use rogue_learn_code_battle.Base.{
  ◌+◌, ◌≡◌, ◌⊎◌, refl, ap, ◌∙◌, inl, inr, false, Option, none, some, List, [], ◌∷◌, arith, length,
  tally, ◌==◌, rounds_of, Option-cases,
}
use rogue_learn_code_battle.Store.Models.{Uuid}
use rogue_learn_code_battle.Requests.Queries.{
  EventRequest, Event, Room, EventGuildParticipant, RequestStatus, Session, Tables, Exchange,
  answered, refused, lost, create_event, create_event_guild_participant,
  update_event_request_status, processed, set_processed,
}
use rogue_learn_code_battle.Requests.Defs.{
  ParticipationDetails, RoomConfiguration, Json, Tx, query, create_rooms, requested_event,
  approval_body, in_transaction, finish, commit, approve_event_request,
}
use rogue_learn_code_battle.Requests.Statements.{
  query-rows, go_on-some, create_event-rows, create_event_guild_participant-rows,
  update_event_request_status-rows, create_rooms-AddsRooms, AddsRooms,
}

-- Between the tables: one event more, made for this request, with as many rooms as it asks for and
-- the requester's guild, and the request is approved with that event.
pub record IsApproved (req : EventRequest) (admin : Uuid) (config : RoomConfiguration)
    (details : ParticipationDetails) (t t' : Tables) : Type 0 where
  pub one_event :
      t'.events ≡ record (requested_event req config details) { id = t.next_id } ∷ t.events
  pub rooms_added : length t'.rooms ≡ rounds_of config.number_of_rooms + length t.rooms
  pub rooms_of_event :
      tally (λ (r : Room). r.event_id == t.next_id) t'.rooms
      ≡ rounds_of config.number_of_rooms + tally (λ (r : Room). r.event_id == t.next_id) t.rooms
  pub one_guild :
      t'.participants
      ≡ record {
        event_id = t.next_id;
        guild_id = req.requester_guild_id;
        joined_at = t.clock;
        room_id = none;
      }
        ∷ t.participants
  pub marked :
      t'.requests
      ≡ set_processed req.id
          (processed RequestStatus.approved admin none (some t.next_id) t.clock)
          t.requests

module _ (req : EventRequest) (admin : Uuid) (config : RoomConfiguration)
    (details : ParticipationDetails) where
  -- The four statements' effects together.
  IsApproved-steps :
      (t t₁ t₂ t₃ t₄ : Tables) (event : Event) (guild : EventGuildParticipant)
      → event ≡ record (requested_event req config details) { id = t.next_id }
      → t₁ ≡ record t { events = event ∷ t.events; next_id = t.next_id + 1 }
      → AddsRooms (rounds_of config.number_of_rooms) event.id t₁ t₂
      → guild ≡ record {
        event_id = event.id;
        guild_id = req.requester_guild_id;
        joined_at = t₂.clock;
        room_id = none;
      }
      → t₃ ≡ record t₂ { participants = guild ∷ t₂.participants }
      → t₄ ≡ record t₃ {
        requests =
            set_processed req.id
              (processed RequestStatus.approved admin none (some event.id) t₃.clock)
              t₃.requests;
      }
      → IsApproved req admin config details t t₄
  IsApproved-steps t t₁ t₂ t₃ t₄ event guild event_is e₁ added guild_is e₃ e₄ =
      let same_id : event.id ≡ t.next_id = ap (λ (e : Event). e.id) event_is in
      let time₂ : t₂.clock ≡ t.clock = added.same_clock ∙ ap (λ (t : Tables). t.clock) e₁ in
      let time₃ : t₃.clock ≡ t.clock = ap (λ (t : Tables). t.clock) e₃ ∙ time₂ in
      let requests₃ : t₃.requests ≡ t.requests =
        ap (λ (t : Tables). t.requests) e₃
        ∙ added.same_requests
        ∙ ap (λ (t : Tables). t.requests) e₁ in
      let member : EventGuildParticipant = record {
        event_id = t.next_id;
        guild_id = req.requester_guild_id;
        joined_at = t.clock;
        room_id = none;
      } in
      let rooms₄ : t₄.rooms ≡ t₂.rooms =
        ap (λ (t : Tables). t.rooms) e₄ ∙ ap (λ (t : Tables). t.rooms) e₃ in
      let rooms₁ : t₁.rooms ≡ t.rooms = ap (λ (t : Tables). t.rooms) e₁ in
      record {
        one_event =
            ap (λ (t : Tables). t.events) e₄
            ∙ ap (λ (t : Tables). t.events) e₃
            ∙ added.same_events
            ∙ ap (λ (t : Tables). t.events) e₁
            ∙ ap (λ e. e ∷ t.events) event_is;
        rooms_added = omega (arith, ap length rooms₄, added.all_rooms, ap length rooms₁);
        rooms_of_event = omega (
          arith,
          ap (tally (λ (r : Room). r.event_id == t.next_id)) rooms₄,
          ap (tally (λ (r : Room). r.event_id == t.next_id)) rooms₁,
          (rw same_id at added).event_rooms,
        );
        one_guild =
            ap (λ (t : Tables). t.participants) e₄
            ∙ ap (λ (t : Tables). t.participants) e₃
            ∙ ap (λ g. g ∷ t₂.participants) (rw (same_id, time₂) at guild_is)
            ∙ ap (λ rest. member ∷ rest)
                (added.same_participants ∙ ap (λ (t : Tables). t.participants) e₁);
        marked = ap (λ (t : Tables). t.requests) e₄ ∙ rw (same_id, time₃, requests₃) refl;
      }

  approval_body-IsApproved :
      (s : Session) {u : Unit {0}} {s' : Session}
      → approval_body req admin config details s ≡ (some u, s')
      → IsApproved req admin config details s.tables s'.tables
  unfolding approval_body
  approval_body-IsApproved s h =
      let create = create_event (requested_event req config details) in
      let (event, s₁, q₁, h₁) = go_on-some (query create s) _ h in
      let (event_is, t₁) =
        create_event-rows (requested_event req config details) s.tables (query-rows create s q₁) in
      let (_, s₂, q₂, h₂) =
        go_on-some
          (create_rooms (rounds_of config.number_of_rooms) 0 event config.room_naming_prefix s₁) _
          h₁ in
      let added =
        create_rooms-AddsRooms (rounds_of config.number_of_rooms) 0 event config.room_naming_prefix
          s₁ q₂ in
      let join = create_event_guild_participant event.id req.requester_guild_id in
      let (guild, s₃, q₃, h₃) = go_on-some (query join s₂) _ h₂ in
      let (guild_is, t₃) =
        create_event_guild_participant-rows event.id req.requester_guild_id s₂.tables
          (query-rows join s₂ q₃) in
      let mark =
        update_event_request_status req.id RequestStatus.approved admin none (some event.id) in
      let (row, s₄, q₄, h₄) = go_on-some (query mark s₃) _ h₃ in
      let t₄ =
        update_event_request_status-rows req.id RequestStatus.approved admin none (some event.id)
          s₃.tables (query-rows mark s₃ q₄) in
      let end : s₄.tables ≡ _ = ap (λ (p : Option (Unit {0}) × Session). p.1.tables) h₄ in
      rw (← end) (
        IsApproved-steps s.tables s₁.tables s₂.tables s₃.tables s₄.tables event guild event_is t₁
          added guild_is t₃ t₄)

commit-cases :
    (before : Tables) (s : Session) (es : List Exchange)
    → s.exchanges ≡ es
    → (((commit before s).0 ≡ false) × ((commit before s).1.tables ≡ before))
      ⊎ ((commit before s).1.tables ≡ s.tables)
commit-cases before s [] e = inr (rw e refl)
commit-cases before s (answered ∷ es) e = inr (rw e refl)
commit-cases before s (refused ∷ es) e = inl (rw e refl, rw e refl)
commit-cases before s (lost ∷ es) e = inr (rw e refl)

finish-cases :
    (before : Tables) (r : Option (Unit {0}) × Session)
    → (((finish before r).0 ≡ false) × ((finish before r).1.tables ≡ before))
      ⊎ ((s₂ : Session) × (r ≡ (some tt, s₂)) × ((finish before r).1.tables ≡ s₂.tables))
finish-cases before (none, s) = inl (refl, refl)
finish-cases before (some tt, s) = elim (commit-cases before s s.exchanges refl) [
  | inl undone ↦ inl undone
  | inr kept ↦ inr (s, refl, kept)
]

-- A transaction fails and leaves the tables as they were, or does all of its body.
in_transaction-cases :
    (body : Tx (Unit {0})) (s : Session) (es : List Exchange)
    → s.exchanges ≡ es
    → (((in_transaction body s).0 ≡ false) × ((in_transaction body s).1.tables ≡ s.tables))
      ⊎ ((s₁ : Session) × (s₂ : Session) × (s₁.tables ≡ s.tables)
          × (body s₁ ≡ (some tt, s₂))
          × ((in_transaction body s).1.tables ≡ s₂.tables))
in_transaction-cases body s [] e =
    rw e (elim (finish-cases s.tables (body (record { tables = s.tables; exchanges = [] }))) [
      | inl undone ↦ inl undone
      | inr (s₂, ran, kept) ↦
          inr (record { tables = s.tables; exchanges = [] }, s₂, refl, ran, kept)
    ])
in_transaction-cases body s (answered ∷ es) e =
    rw e (elim (finish-cases s.tables (body (record { tables = s.tables; exchanges = es }))) [
      | inl undone ↦ inl undone
      | inr (s₂, ran, kept) ↦
          inr (record { tables = s.tables; exchanges = es }, s₂, refl, ran, kept)
    ])
in_transaction-cases body s (refused ∷ es) e = inl (rw e refl, rw e refl)
in_transaction-cases body s (lost ∷ es) e = inl (rw e refl, rw e refl)

-- Approving a request is atomic: it fails and the tables are as they were, or the request's two
-- JSON columns are well-formed and the tables hold the whole approval. This holds whichever
-- exchange with the database fails.
pub approve_event_request-atomic :
    (json : Json) (req : EventRequest) (admin : Uuid) (s : Session)
    → let result = approve_event_request json req admin s in
      ((result.0 ≡ false) × (result.1.tables ≡ s.tables))
      ⊎ ((config : RoomConfiguration) × (details : ParticipationDetails) × (json.unmarshal_rooms
              req.room_configuration
            ≡ some config)
          × (json.unmarshal_participation req.participation_details ≡ some details)
          × IsApproved req admin config details s.tables result.1.tables)
unfolding approve_event_request
approve_event_request-atomic json req admin s =
    elim (Option-cases (json.unmarshal_rooms req.room_configuration)) [
      | inl bad ↦ inl (rw (bad, approve_event_request) refl, rw (bad, approve_event_request) refl)
      | inr (config, rooms_ok) ↦
          elim (Option-cases (json.unmarshal_participation req.participation_details)) [
            | inl bad ↦ inl (
              rw (rooms_ok, bad, approve_event_request) refl,
              rw (rooms_ok, bad, approve_event_request) refl,
            )
            | inr (details, guilds_ok) ↦
                elim (in_transaction-cases (approval_body req admin config details) s s.exchanges
                  refl) [
                    | inl undone ↦ inl (rw (rooms_ok, guilds_ok, approve_event_request) undone)
                    | inr (s₁, s₂, before, ran, kept) ↦ inr (
                      config,
                      details,
                      rooms_ok,
                      guilds_ok,
                      rw (rooms_ok, guilds_ok, approve_event_request)
                          (rw kept (
                            rw (← before)
                              (approval_body-IsApproved req admin config details s₁ ran))),
                    )
                  ]
          ]
    ]
