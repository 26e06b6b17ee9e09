-- ===== src/Requests/Statements.antt =====
-- What the statements of an approval did when a transaction goes on behind them.
use rogue_learn_code_battle.Base.{
  ℕ, zero, suc, ◌+◌, ◌≡◌, refl, ap, Option, none, some, List, [], ◌∷◌, Text, arith, length, tally,
  ◌==◌,
}
use rogue_learn_code_battle.Store.Models.{Uuid}
use rogue_learn_code_battle.Requests.Queries.{
  EventRequest, Event, Room, EventGuildParticipant, RequestStatus, Session, Tables, Reply, rows,
  no_row, broken, Statement, Exchange, answered, refused, lost, create_event, create_room,
  create_event_guild_participant, update_event_request_status, processed, set_processed,
}
use rogue_learn_code_battle.Requests.Defs.{
  Tx, go_on, query, row_of, create_rooms, room_name, room_description,
}

none-some : {A : Type 0} {a : A} → none ≡ some a → ⊥
none-some e = cc

rows_of_pair :
    {A : Type 0} (p : Reply A × Tables) {a : A} {t : Tables}
    → row_of p.0 ≡ some a
    → p.1 ≡ t
    → p ≡ (rows a, t)
rows_of_pair (rows b, t) e h = cc
rows_of_pair (no_row, t) e h = absurd (none-some e)
rows_of_pair (broken, t) e h = absurd (none-some e)

-- A statement that a transaction gets rows from was carried out.
query-rows_at :
    {A : Type 0} (q : Statement A) (s : Session) (es : List Exchange) {a : A} {s' : Session}
    → s.exchanges ≡ es
    → query q s ≡ (some a, s')
    → q s.tables ≡ (rows a, s'.tables)
query-rows_at q s [] e h =
    let h' = rw e at h in
    rows_of_pair (q s.tables) (ap (λ (p : Option _ × Session). p.0) h')
      (ap (λ (p : Option _ × Session). p.1.tables) h')
query-rows_at q s (answered ∷ es) e h =
    let h' = rw e at h in
    rows_of_pair (q s.tables) (ap (λ (p : Option _ × Session). p.0) h')
      (ap (λ (p : Option _ × Session). p.1.tables) h')
query-rows_at q s (refused ∷ es) e h =
    let h' = rw e at h in absurd (none-some (ap (λ (p : Option _ × Session). p.0) h'))
query-rows_at q s (lost ∷ es) e h =
    let h' = rw e at h in absurd (none-some (ap (λ (p : Option _ × Session). p.0) h'))

pub query-rows :
    {A : Type 0} (q : Statement A) (s : Session) {a : A} {s' : Session}
    → query q s ≡ (some a, s')
    → q s.tables ≡ (rows a, s'.tables)
query-rows q s h = query-rows_at q s s.exchanges refl h

pub go_on-some :
    {A B : Type 0} (r : Option A × Session) (f : A → Tx B) {b : B} {s' : Session}
    → go_on r f ≡ (some b, s')
    → (a : A) × (s₁ : Session) × (r ≡ (some a, s₁)) × (f a s₁ ≡ (some b, s'))
go_on-some (none, s) f h = absurd (none-some (ap (λ (p : Option _ × Session). p.0) h))
go_on-some (some a, s) f h = (a, s, refl, h)

pub create_event-rows :
    (e : Event) (t : Tables) {row : Event} {t' : Tables}
    → create_event e t ≡ (rows row, t')
    → (row ≡ record e { id = t.next_id })
      × (t' ≡ record t { events = row ∷ t.events; next_id = t.next_id + 1 })
unfolding create_event
create_event-rows e t h = ground arith

create_room-rows :
    (event : Uuid) (name description : Text) (t : Tables) {row : Room} {t' : Tables}
    → create_room event name description t ≡ (rows row, t')
    → (row.event_id ≡ event) × (t' ≡ record t { rooms = row ∷ t.rooms; next_id = t.next_id + 1 })
unfolding create_room
create_room-rows event name description t h = ground arith

pub create_event_guild_participant-rows :
    (event guild : Uuid) (t : Tables) {row : EventGuildParticipant} {t' : Tables}
    → create_event_guild_participant event guild t ≡ (rows row, t')
    → (row ≡ record { event_id = event; guild_id = guild; joined_at = t.clock; room_id = none })
      × (t' ≡ record t { participants = row ∷ t.participants })
unfolding create_event_guild_participant
create_event_guild_participant-rows event guild t h = ground arith

pub update_event_request_status-rows :
    (id : Uuid) (status : RequestStatus) (admin : Uuid) (reason : Option Text) (event : Option Uuid)
    (t : Tables) {row : EventRequest} {t' : Tables}
    → update_event_request_status id status admin reason event t ≡ (rows row, t')
    → t' ≡ record t {
      requests = set_processed id (processed status admin reason event t.clock) t.requests;
    }
unfolding update_event_request_status
update_event_request_status-rows id status admin reason event t h = ground arith

-- Between the tables: `n` rooms more, all of the event, and nothing else but the next id.
pub record AddsRooms (n : ℕ) (event : Uuid) (t t' : Tables) : Type 0 where
  pub all_rooms : length t'.rooms ≡ n + length t.rooms
  pub event_rooms :
      tally (λ (r : Room). r.event_id == event) t'.rooms
      ≡ n + tally (λ (r : Room). r.event_id == event) t.rooms
  pub same_requests : t'.requests ≡ t.requests
  pub same_events : t'.events ≡ t.events
  pub same_participants : t'.participants ≡ t.participants
  pub same_clock : t'.clock ≡ t.clock

AddsRooms-suc :
    (n : ℕ) (event : Uuid) (row : Room) (t t' : Tables)
    → row.event_id ≡ event
    → AddsRooms n event (record t { rooms = row ∷ t.rooms; next_id = t.next_id + 1 }) t'
    → AddsRooms (suc n) event t t'
AddsRooms-suc n event row t t' e a = record {
  all_rooms = omega (arith, a.all_rooms);
  event_rooms = ground (arith, a.event_rooms);
  same_requests = a.same_requests;
  same_events = a.same_events;
  same_participants = a.same_participants;
  same_clock = a.same_clock;
}

pub create_rooms-AddsRooms :
    (n i : ℕ) (event : Event) (prefix : Text) (s : Session) {u : Unit {0}} {s' : Session}
    → create_rooms n i event prefix s ≡ (some u, s')
    → AddsRooms n event.id s.tables s'.tables
unfolding create_rooms
create_rooms-AddsRooms zero i event prefix s h =
    let same : s.tables ≡ _ = ap (λ (p : Option (Unit {0}) × Session). p.1.tables) h in
    rw (← same) (record {
      all_rooms = omega arith;
      event_rooms = omega arith;
      same_requests = refl;
      same_events = refl;
      same_participants = refl;
      same_clock = refl;
    })
create_rooms-AddsRooms (suc n) i event prefix s h =
    let (row, s₁, first, later) =
      go_on-some
        (query (create_room event.id (room_name prefix i) (room_description event.title i)) s) _
        h in
    let (here, t₁) = create_room-rows event.id _ _ s.tables (
      query-rows (create_room event.id (room_name prefix i) (room_description event.title i)) s
        first) in
    AddsRooms-suc n event.id row s.tables _ here
      (rw t₁ at (create_rooms-AddsRooms n (i + 1) event prefix s₁ later))
