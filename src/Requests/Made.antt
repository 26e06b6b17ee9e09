-- ===== src/Requests/Made.antt =====
-- What a request that CreateEventHandler accepts went through.
use rogue_learn_code_battle.Base.{
  ℕ, ◌≡◌, ◌∙◌, refl, sym, ap, Bool, true, false, true≢false, Option, some, ◌∷◌, Text, ltb, is_empty,
  Bool-cases, Option-cases, inl, inr,
}
use rogue_learn_code_battle.Store.Models.{Uuid}
use rogue_learn_code_battle.Requests.Queries.{
  EventRequest, Session, Tables, Reply, rows, no_row, broken, exchange, Statement,
}
use rogue_learn_code_battle.Requests.Statements.{query-rows}
use rogue_learn_code_battle.Requests.Defs.{row_of}
use rogue_learn_code_battle.Requests.Reads.{
  create_event_request, new_request, is_accepted_row, stored_or_null, CreateEventRequestParams,
}
use rogue_learn_code_battle.Requests.Forms.{
  EventCreationRequest, Columns, CreateAnswer, accepted, created, marshal_optional, params_of,
  insert_request, create_event_handler,
}

abbrev is_broken : {A : Type 0} → Reply A → Bool
is_broken (rows a) = false
is_broken no_row = false
is_broken broken = true

-- What CreateEventRequest keeps of its parameters when it adds a row.
pub record Kept (jsonb : Text → Option Text) (timestamp : ℕ → ℕ) (p : CreateEventRequestParams)
    (t : Tables) (row : EventRequest) (t' : Tables) : Type 0 where
  pub participation : Text
  pub rooms : Text
  pub specifics : Option Text
  pub stored : jsonb p.participation_details ≡ some participation
  pub stored_rooms : jsonb p.room_configuration ≡ some rooms
  pub is : row ≡ new_request timestamp p t.next_id t.clock participation rooms specifics
  pub inserted : t'.requests ≡ row ∷ t.requests

not_rows : {A B : Type 0} {x y : B} {a : A} → Path (Reply A × B) (broken, x) (rows a, y) → ⊥
not_rows {A = A} {B = B} e = true≢false (ap (λ (p : Reply A × B). is_broken p.0) e)

rows_eq : {A : Type 0} {a b : A} → rows a ≡ rows b → a ≡ b
rows_eq e = cc

create_event_request-Kept :
    (jsonb : Text → Option Text) (timestamp : ℕ → ℕ) (p : CreateEventRequestParams) (t : Tables)
    {row : EventRequest} {t' : Tables}
    → create_event_request jsonb timestamp p t ≡ (rows row, t')
    → Kept jsonb timestamp p t row t'
unfolding create_event_request
create_event_request-Kept jsonb timestamp p t h =
    elim (Option-cases (jsonb p.participation_details)) [
      | inl e ↦ absurd (not_rows (rw (create_event_request, e) at h))
      | inr (participation, e) ↦ elim (Option-cases (jsonb p.room_configuration)) [
        | inl e₂ ↦ absurd (not_rows (rw (create_event_request, e, e₂) at h))
        | inr (rooms, e₂) ↦ elim (Option-cases (stored_or_null jsonb p.event_specifics)) [
          | inl e₃ ↦ absurd (not_rows (rw (create_event_request, e, e₂, e₃) at h))
          | inr (specifics, e₃) ↦ elim (Bool-cases (is_accepted_row p)) [
            | inl ok ↦
                let h' = rw (create_event_request, e, e₂, e₃, ok) at h in
                record {
                  participation = participation;
                  rooms = rooms;
                  specifics = specifics;
                  stored = e;
                  stored_rooms = e₂;
                  is = sym (rows_eq (ap (λ (q : Reply EventRequest × Tables). q.0) h'));
                  inserted =
                      sym (ap (λ (q : Reply EventRequest × Tables). q.1.requests) h')
                      ∙ ap (λ (r : EventRequest). r ∷ t.requests)
                          (rows_eq (ap (λ (q : Reply EventRequest × Tables). q.0) h'));
                }
            | inr bad ↦ absurd (not_rows (rw (create_event_request, e, e₂, e₃, bad) at h))
          ]
        ]
      ]
    ]

-- What an accepted request went through.
pub record Went (c : Columns) (req : EventCreationRequest) (s : Session) (row : EventRequest)
    (s' : Session) : Type 0 where
  pub guild : Uuid
  pub participation : Text
  pub rooms : Text
  pub specifics : Option Text
  pub of_guild : req.requester_guild_id ≡ some guild
  pub marshalled : c.marshal_participation req.participation ≡ some participation
  pub marshalled_rooms : c.marshal_rooms req.room_configuration ≡ some rooms
  pub kept :
      Kept c.jsonb c.timestamp
        (params_of req guild participation rooms specifics)
        s.tables
        row
        s'.tables

exchange-rows :
    {A : Type 0} (q : Statement A) (s : Session) {a : A} {s' : Session}
    → exchange q s ≡ (rows a, s')
    → q s.tables ≡ (rows a, s'.tables)
exchange-rows {A = A} q s h = query-rows q s (ap (λ (p : Reply A × Session). (row_of p.0, p.1)) h)

abbrev was_accepted : CreateAnswer → Bool
was_accepted (accepted row) = true
was_accepted _ = false

not_accepted :
    {r : CreateAnswer} {s s' : Session} {row : EventRequest}
    → was_accepted r ≡ false
    → Path (CreateAnswer × Session) (r, s) (accepted row, s')
    → ⊥
not_accepted refused e =
    true≢false (sym (ap (λ (p : CreateAnswer × Session). was_accepted p.0) e) ∙ refused)

accepted_eq : {row row' : EventRequest} → accepted row ≡ accepted row' → row ≡ row'
accepted_eq e = cc

answer_pair :
    {r row : EventRequest} {s s' : Session}
    → r ≡ row
    → s ≡ s'
    → Path (Reply EventRequest × Session) (rows r, s) (rows row, s')
answer_pair p q = cc

created-accepted :
    (p : Reply EventRequest × Session) {row : EventRequest} {s' : Session}
    → created p ≡ (accepted row, s')
    → p ≡ (rows row, s')
created-accepted (rows r, s) h =
    answer_pair (accepted_eq (ap (λ (p : CreateAnswer × Session). p.0) h))
      (ap (λ (p : CreateAnswer × Session). p.1) h)
created-accepted (no_row, s) h = absurd (not_accepted refl h)
created-accepted (broken, s) h = absurd (not_accepted refl h)

insert_request-Went :
    (c : Columns) (req : EventCreationRequest) (guild : Uuid) (s : Session) {row : EventRequest}
    {s' : Session}
    → req.requester_guild_id ≡ some guild
    → insert_request c req guild s ≡ (accepted row, s')
    → Went c req s row s'
unfolding insert_request
insert_request-Went c req guild s of_guild h =
    elim (Option-cases (c.marshal_participation req.participation)) [
      | inl e ↦ absurd (not_accepted refl (rw (insert_request, e) at h))
      | inr (participation, e) ↦ elim (Option-cases (c.marshal_rooms req.room_configuration)) [
        | inl e₂ ↦ absurd (not_accepted refl (rw (insert_request, e, e₂) at h))
        | inr (rooms, e₂) ↦
            elim (Option-cases (marshal_optional c.marshal_specifics req.event_specifics)) [
              | inl e₃ ↦ absurd (not_accepted refl (rw (insert_request, e, e₂, e₃) at h))
              | inr (specifics, e₃) ↦ record {
                guild = guild;
                participation = participation;
                rooms = rooms;
                specifics = specifics;
                of_guild = of_guild;
                marshalled = e;
                marshalled_rooms = e₂;
                kept =
                    create_event_request-Kept c.jsonb c.timestamp
                      (params_of req guild participation rooms specifics) s.tables
                      (exchange-rows
                        (create_event_request c.jsonb c.timestamp
                          (params_of req guild participation rooms specifics))
                        s (created-accepted _ (rw (insert_request, e, e₂, e₃) at h)));
              }
            ]
      ]
    ]

pub create_event_handler-Went :
    (c : Columns) (req : EventCreationRequest) (s : Session) {row : EventRequest} {s' : Session}
    → create_event_handler c (some req) s ≡ (accepted row, s')
    → Went c req s row s'
unfolding create_event_handler
create_event_handler-Went c req s h = elim (Bool-cases (is_empty req.title)) [
  | inl e ↦ absurd (not_accepted refl (rw (create_event_handler, e) at h))
  | inr e ↦ elim (Bool-cases (ltb req.proposed_end_date req.proposed_start_date)) [
    | inl e₂ ↦ absurd (not_accepted refl (rw (create_event_handler, e, e₂) at h))
    | inr e₂ ↦ elim (Option-cases req.requester_guild_id) [
      | inl e₃ ↦ absurd (not_accepted refl (rw (create_event_handler, e, e₂, e₃) at h))
      | inr (guild, e₃) ↦
          insert_request-Went c req guild s e₃ (rw (create_event_handler, e, e₂, e₃) at h)
    ]
  ]
]
