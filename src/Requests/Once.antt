-- ===== src/Requests/Once.antt =====
-- ProcessEventRequestHandler and requests that are processed already.
use rogue_learn_code_battle.Base.{
  ◌≡◌, ◌≢◌, ◌⊎◌, refl, sym, ap, ◌∙◌, inl, inr, true, true≢false, some, List, [], ◌∷◌, find, ◌==◌,
}
use rogue_learn_code_battle.Store.Models.{Uuid}
use rogue_learn_code_battle.Requests.Queries.{
  EventRequest, Event, RequestStatus, Session, Tables, Statement, rows, broken, Exchange, answered,
  refused, lost, exchange, get_event_request_by_id,
}
use rogue_learn_code_battle.Requests.Defs.{
  Json, requested_event, ProcessRequestPayload, Answer, already_processed, server_error,
  act_on_pending, process_event_request, approve_event_request,
}
use rogue_learn_code_battle.Requests.Approval.{approve_event_request-atomic}

act_on_pending-settled :
    (json : Json) (admin : Uuid) (payload : ProcessRequestPayload) (req : EventRequest)
    (s : Session) (status : RequestStatus)
    → req.status ≡ status
    → req.status ≢ RequestStatus.pending
    → act_on_pending json admin payload req s ≡ (already_processed req.status, s)
act_on_pending-settled json admin payload req s RequestStatus.pending e settled = absurd (settled e)
act_on_pending-settled json admin payload req s RequestStatus.approved e settled = rw e refl
act_on_pending-settled json admin payload req s RequestStatus.rejected e settled = rw e refl

-- What the handler answers for a settled request, and the tables that it leaves.
SettledAnswer : EventRequest → Session → Answer × Session → Type 0
SettledAnswer req s result =
    (result.1.tables ≡ s.tables)
    × ((result.0 ≡ already_processed req.status) ⊎ (result.0 ≡ server_error))

SettledAnswer-act :
    (json : Json) (admin : Uuid) (payload : ProcessRequestPayload) (req : EventRequest)
    (s s' : Session)
    → s'.tables ≡ s.tables
    → req.status ≢ RequestStatus.pending
    → SettledAnswer req s (act_on_pending json admin payload req s')
unfolding SettledAnswer
SettledAnswer-act json admin payload req s s' same settled =
    let acted = act_on_pending-settled json admin payload req s' req.status refl settled in
    (
      ap (λ (r : Answer × Session). r.1.tables) acted ∙ same,
      inl (ap (λ (r : Answer × Session). r.0) acted),
    )

-- An exchange that only reads: its rows come back, or an error.
exchange-read :
    {A : Type 0} (q : Statement A) (s : Session) (es : List Exchange) {a : A}
    → s.exchanges ≡ es
    → q s.tables ≡ (rows a, s.tables)
    → (s' : Session) × (s'.tables ≡ s.tables)
      × ((exchange q s ≡ (rows a, s')) ⊎ (exchange q s ≡ (broken, s')))
exchange-read q s [] e h = (s, refl, inl (rw (e, h) refl))
exchange-read q s (answered ∷ es) e h = (record s { exchanges = es }, refl, inl (rw (e, h) refl))
exchange-read q s (refused ∷ es) e h = (record s { exchanges = es }, refl, inr (rw e refl))
exchange-read q s (lost ∷ es) e h = (record s { exchanges = es }, refl, inr (rw (e, h) refl))

get_event_request_by_id-rows :
    (id : Uuid) (t : Tables) (req : EventRequest)
    → find (λ q. q.id == id) t.requests ≡ some req
    → get_event_request_by_id id t ≡ (rows req, t)
unfolding get_event_request_by_id
get_event_request_by_id-rows id t req there = rw (get_event_request_by_id, there) refl

-- A request that has been approved or rejected is left as it is: whatever the payload says, the
-- tables stay, and the answer is that it has been processed already, or an error of the server if
-- the request could not be read.
pub process_event_request-settled :
    (json : Json) (admin id : Uuid) (payload : ProcessRequestPayload) (s : Session)
    (req : EventRequest)
    → find (λ q. q.id == id) s.tables.requests ≡ some req
    → req.status ≢ RequestStatus.pending
    → let result = process_event_request json admin (some id) (some payload) s in
      (result.1.tables ≡ s.tables)
      × ((result.0 ≡ already_processed req.status) ⊎ (result.0 ≡ server_error))
unfolding SettledAnswer process_event_request
process_event_request-settled json admin id payload s req there settled =
    let (s', same, read) =
      exchange-read (get_event_request_by_id id) s s.exchanges refl
        (get_event_request_by_id-rows id s.tables req there) in
    elim read [
      | inl e ↦
          rw (process_event_request, e) (SettledAnswer-act json admin payload req s s' same settled)
      | inr e ↦ rw (process_event_request, e) (same, inr refl)
    ]

-- Two handlers that have both read a request as pending, and whose approvals both succeed, create
-- two events for it.
approve_event_request-twice :
    (json : Json) (req : EventRequest) (admin other : Uuid) (s : Session)
    → let first = approve_event_request json req admin s in
      let second = approve_event_request json req other first.1 in
      first.0 ≡ true
      → second.0 ≡ true
      → (e : Event) × (e' : Event) × (second.1.tables.events ≡ e' ∷ e ∷ s.tables.events)
        × (e.original_request_id ≡ some req.id)
        × (e'.original_request_id ≡ some req.id)
approve_event_request-twice json req admin other s first_ok second_ok =
    elim (approve_event_request-atomic json req admin s) [
      | inl undone ↦ absurd (true≢false (sym first_ok ∙ undone.0))
      | inr (config, details, _, _, approved_first) ↦
          elim (approve_event_request-atomic json req other
            (approve_event_request json req admin s).1) [
              | inl undone ↦ absurd (true≢false (sym second_ok ∙ undone.0))
              | inr (config', details', _, _, approved_second) ↦
                  let second : Event = record (requested_event req config' details') {
                    id = (approve_event_request json req admin s).1.tables.next_id;
                  } in
                  (
                    record (requested_event req config details) { id = s.tables.next_id },
                    second,
                    approved_second.one_event ∙ ap (λ es. second ∷ es) approved_first.one_event,
                    refl,
                    refl,
                  )
            ]
    ]
