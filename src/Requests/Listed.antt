-- ===== src/Requests/Listed.antt =====
-- A request that is made is listed with the values that were sent.
use rogue_learn_code_battle.Base.{
  ℕ, suc, ◌<◌, ◌≡◌, ◌≢◌, ◌∙◌, refl, sym, ap, Bool, true, Option, some, List, [], ◌∷◌, Text, codes,
  arith, All, keep, take, sort_by, insert_by-first, All-sort_by, All-keep, ◌==◌, ==_iff,
}
use rogue_learn_code_battle.Store.Models.{Uuid, text_or_empty}
use rogue_learn_code_battle.Requests.Queries.{EventRequest, Session}
use rogue_learn_code_battle.Requests.Defs.{Json, ParticipationDetails, RoomConfiguration}
use rogue_learn_code_battle.Requests.Reads.{list_event_requests_by_guild, newer}
use rogue_learn_code_battle.Requests.Forms.{
  EventCreationRequest, Columns, accepted, create_event_handler, EventRequestResponse, read_column,
  response_of, to_event_request_response, text_if_any, no_participation, no_rooms_configured,
}
use rogue_learn_code_battle.Requests.Lists.{listed, readable, get_my_event_requests, request_limit}
use mathlib.Core.Path.{subst}
use rogue_learn_code_battle.Requests.Made.{Went, create_event_handler-Went}

-- encoding/json reads what it has written, through a jsonb column too, and writes no empty text.
pub record ReadsBack (json : Json) (c : Columns) : Type 0 where
  pub participation :
      (x : ParticipationDetails) {sent kept : Text}
      → c.marshal_participation x ≡ some sent
      → c.jsonb sent ≡ some kept
      → (kept ≢ []) × (json.unmarshal_participation kept ≡ some x)
  pub rooms :
      (x : RoomConfiguration) {sent kept : Text}
      → c.marshal_rooms x ≡ some sent
      → c.jsonb sent ≡ some kept
      → (kept ≢ []) × (json.unmarshal_rooms kept ≡ some x)

read_column-some :
    {A : Type 0} (unmarshal : Text → Option A) (zero_value : A) (kept : Text) {x : A}
    → kept ≢ []
    → unmarshal kept ≡ some x
    → read_column unmarshal zero_value kept ≡ some x
read_column-some unmarshal zero_value [] ne h = absurd (ne refl)
read_column-some unmarshal zero_value (c ∷ s) ne h = h

-- The response that shows a request with the values that were sent, its dates as the columns give
-- them back.
abbrev pub sent_response : (ℕ → ℕ) → EventCreationRequest → Uuid → Uuid → EventRequestResponse
sent_response timestamp req guild id = record {
  id = id;
  status = codes "pending";
  requester_guild_id = guild;
  title = req.title;
  description = req.description;
  proposed_start_date = timestamp req.proposed_start_date;
  proposed_end_date = timestamp req.proposed_end_date;
  participation_details = req.participation;
  room_configuration = req.room_configuration;
  rejection_reason = [];
  approved_event_id = 0;
  notes = req.notes;
}

text_if_any_back : (s : Text) → text_or_empty (text_if_any s) ≡ s
text_if_any_back [] = refl
text_if_any_back (c ∷ s) = refl

to_event_request_response-some :
    (json : Json) (row : EventRequest) {x : ParticipationDetails} {y : RoomConfiguration}
    → read_column json.unmarshal_participation no_participation row.participation_details ≡ some x
    → read_column json.unmarshal_rooms no_rooms_configured row.room_configuration ≡ some y
    → to_event_request_response json row ≡ some (response_of row x y)
unfolding to_event_request_response
to_event_request_response-some json row p q = rw (to_event_request_response, p, q) refl

Went-response :
    (json : Json) (c : Columns) (req : EventCreationRequest) (s : Session) {row : EventRequest}
    {s' : Session}
    → ReadsBack json c
    → (went : Went c req s row s')
    → to_event_request_response json row ≡ some (sent_response c.timestamp req went.guild row.id)
Went-response json c req s {row = row} reads went =
    let kept = went.kept in
    let (full, back) = reads.participation req.participation went.marshalled kept.stored in
    let (full_rooms, back_rooms) =
      reads.rooms req.room_configuration went.marshalled_rooms kept.stored_rooms in
    to_event_request_response-some json row
      (ap
          (λ (r : EventRequest).
            read_column json.unmarshal_participation no_participation r.participation_details)
          kept.is
        ∙ read_column-some json.unmarshal_participation no_participation kept.participation full
            back)
      (ap
          (λ (r : EventRequest).
            read_column json.unmarshal_rooms no_rooms_configured r.room_configuration)
          kept.is
        ∙ read_column-some json.unmarshal_rooms no_rooms_configured kept.rooms full_rooms
            back_rooms)
    ∙ ap some (
        ap (λ (r : EventRequest). response_of r req.participation req.room_configuration) kept.is
        ∙ ap
            (λ (n : Text). record (sent_response c.timestamp req went.guild s.tables.next_id) {
              notes = n;
            })
            (text_if_any_back req.notes)
        ∙ ap (λ (r : EventRequest). sent_response c.timestamp req went.guild r.id) (sym kept.is))

keep-first :
    {A : Type 0} (p : A → Bool) (x : A) (xs : List A) → p x ≡ true → keep p (x ∷ xs) ≡ x ∷ keep p xs
keep-first p x xs h = rw h refl

All-weaken :
    {A : Type 0} (P Q : A → Type 0) → ((x : A) → P x → Q x) → (xs : List A) → All P xs → All Q xs
All-weaken P Q f [] h = tt
All-weaken P Q f (x ∷ xs) h = (f x h.0, All-weaken P Q f xs h.1)

-- The newest request of a guild is listed first.
newest-first :
    (row : EventRequest) (guild : Uuid) (older : List EventRequest)
    → row.requester_guild_id ≡ guild
    → All (λ (q : EventRequest). q.created_at < row.created_at) older
    → sort_by newer (keep (λ (q : EventRequest). q.requester_guild_id == guild) (row ∷ older))
      ≡ row ∷ sort_by newer (keep (λ (q : EventRequest). q.requester_guild_id == guild) older)
unfolding sort_by
newest-first row guild older same old =
    let later : All (λ (q : EventRequest). newer row q ≡ true)
        (sort_by newer (keep (λ (q : EventRequest). q.requester_guild_id == guild) older)) =
      All-sort_by _ newer _ (
        All-keep _ _ older (
          All-weaken (λ (q : EventRequest). q.created_at < row.created_at)
            (λ (q : EventRequest). newer row q ≡ true) (λ q lt. ground (arith, lt)) older old)) in
    ap (sort_by newer) (keep-first _ row older ((==_iff row.requester_guild_id guild).1 same))
    ∙ insert_by-first newer row _ later

readable-first :
    (json : Json) (row : EventRequest) (more : List EventRequest) {dto : EventRequestResponse}
    → to_event_request_response json row ≡ some dto
    → readable json (row ∷ more) ≡ dto ∷ readable json more
unfolding readable
readable-first json row more e = rw (e, readable) refl

take-first : {A : Type 0} (n : ℕ) (x : A) (xs : List A) → take (suc n) (x ∷ xs) ≡ x ∷ take n xs
unfolding take
take-first n x xs = refl

-- What GetMyEventRequestsHandler answers while the database answers.
get_my_event_requests-up :
    (json : Json) (guild : Uuid) (s : Session)
    → s.exchanges ≡ []
    → (get_my_event_requests json (some (some guild)) s).0
      ≡ listed (
          readable json (
            take request_limit (
              sort_by newer
                (keep (λ (q : EventRequest). q.requester_guild_id == guild) s.tables.requests))))
unfolding get_my_event_requests list_event_requests_by_guild
get_my_event_requests-up json guild s up =
    rw (up, get_my_event_requests, list_event_requests_by_guild) refl

-- encoding/json reads back through the jsonb columns what it has written. A request for an event
-- that CreateEventHandler accepts, later than every request before it, is then the first that
-- GetMyEventRequestsHandler lists for its guild while the database answers: pending, with the
-- two dates as a timestamptz column gives them back, and every other field as it was sent.
pub create_event_handler-listed :
    (json : Json) (c : Columns) (req : EventCreationRequest) (s s' : Session) (row : EventRequest)
    → ReadsBack json c
    → All (λ (q : EventRequest). q.created_at < s.tables.clock) s.tables.requests
    → create_event_handler c (some req) s ≡ (accepted row, s')
    → s'.exchanges ≡ []
    → (guild : Uuid) × (rest : List EventRequestResponse) × (req.requester_guild_id ≡ some guild)
      × ((get_my_event_requests json (some (some guild)) s').0
          ≡ listed (sent_response c.timestamp req guild row.id ∷ rest))
create_event_handler-listed json c req s s' row reads older made up =
    let went = create_event_handler-Went c req s made in
    let kept = went.kept in
    let guild = went.guild in
    let same : row.requester_guild_id ≡ guild =
      ap (λ (r : EventRequest). r.requester_guild_id) kept.is in
    let now : row.created_at ≡ s.tables.clock = ap (λ (r : EventRequest). r.created_at) kept.is in
    let old =
      subst (λ (n : ℕ). All (λ (q : EventRequest). q.created_at < n) s.tables.requests) (sym now)
        older in
    (
      guild,
      _,
      went.of_guild,
      get_my_event_requests-up json guild s' up
          ∙ ap
              (λ (reqs : List EventRequest). listed (
                readable json (
                  take request_limit (
                    sort_by newer
                      (keep (λ (q : EventRequest). q.requester_guild_id == guild) reqs)))))
              kept.inserted
          ∙ ap (λ (reqs : List EventRequest). listed (readable json (take request_limit reqs)))
              (newest-first row guild s.tables.requests same old)
          ∙ ap (λ (reqs : List EventRequest). listed (readable json reqs)) (take-first 19 row _)
          ∙ ap listed (readable-first json row _ (Went-response json c req s reads went)),
    )
