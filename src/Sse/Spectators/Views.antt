-- ===== src/Sse/Spectators/Views.antt =====
-- The listeners of the events as what each client last did, and whom a guild update reaches.
use rogue_learn_code_battle.Base.{
  ℕ, ◌≡◌, ◌∙◌, ◌↔◌, refl, sym, ap, Bool, true, false, ◌&&◌, Option, none, some, List, [], ◌∷◌, map,
  arith, Has, ◌==◌, ==_iff, lookup, insert, delete, nat_eq, lookup-insert, lookup-delete,
  UniqueKeys, UniqueKeys-insert, UniqueKeys-delete, if◌then◌else◌, Bool-cases, Option-cases, inl,
  inr, ◌⊎◌,
}
use rogue_learn_code_battle.Store.Models.{Uuid}
use rogue_learn_code_battle.Sse.Spectators.{
  Clients, EventListeners, clients_of, add_listener, put_back, remove_listener, new_event_listeners,
  supabase_event_id, dispatch_event_to_event,
}

-- A client starts to listen to an event on a channel, or stops.
pub data Change : Type 0 where
  registers : Uuid → Uuid → ℕ → Change
  leaves : Uuid → Uuid → Change

abbrev pub apply : Change → EventListeners → EventListeners
apply (registers event client channel) m = add_listener event client channel m
apply (leaves event client) m = remove_listener event client m

unfoldable pub apply_all : List Change → EventListeners → EventListeners
apply_all [] m = m
apply_all (change ∷ changes) m = apply_all changes (apply change m)

-- The abstract view: the channel of a client, by event and client.
abbrev pub View : Type 0
View = Uuid → Uuid → Option ℕ

abbrev pub nobody : View
nobody event client = none

abbrev pub updated : Uuid → Uuid → Option ℕ → View → View
updated event client o v event' client' =
    if event == event' && client == client' then o else v event' client'

abbrev pub after_change : Change → View → View
after_change (registers event client channel) v = updated event client (some channel) v
after_change (leaves event client) v = updated event client none v

unfoldable pub after_changes : List Change → View → View
after_changes [] v = v
after_changes (change ∷ changes) v = after_changes changes (after_change change v)

abbrev view_of : EventListeners → View
view_of m event client = lookup client (clients_of (lookup event m))

clients_of-put_back :
    (event event' : Uuid) (clients : Clients) (m : EventListeners)
    → clients_of (lookup event' (put_back event clients m))
      ≡ (if event == event' then clients else clients_of (lookup event' m))
clients_of-put_back event event' [] m = ground (arith, lookup-delete event event' m)
clients_of-put_back event event' (c ∷ clients) m =
    ground (arith, lookup-insert event event' (c ∷ clients) m)

pub clients_of-add_listener :
    (event client : Uuid) (channel : ℕ) (m : EventListeners) (e : Uuid)
    → clients_of (lookup e (add_listener event client channel m)) ≡ (
        if event == e
        then insert client channel (clients_of (lookup event m))
        else clients_of (lookup e m))
unfolding add_listener
clients_of-add_listener event client channel m e =
    ground (arith, lookup-insert event e (insert client channel (clients_of (lookup event m))) m)

absent_if :
    (event e : Uuid) (m : EventListeners)
    → lookup event m ≡ none
    → clients_of (lookup e m) ≡ (if event == e then [] else clients_of (lookup e m))
absent_if event e m absent = elim (Bool-cases (event == e)) [
  | inl same ↦ rw (same, sym (ap (λ k. lookup k m) ((==_iff event e).0 same)), absent) refl
  | inr other ↦ rw other refl
]

clients_of-remove_listener :
    (event client : Uuid) (m : EventListeners) (e : Uuid)
    → clients_of (lookup e (remove_listener event client m)) ≡ (
        if event == e then delete client (clients_of (lookup event m)) else clients_of (lookup e m))
unfolding remove_listener
clients_of-remove_listener event client m e = elim (Option-cases (lookup event m)) [
  | inl absent ↦ rw (remove_listener, absent) (absent_if event e m absent)
  | inr (clients, here) ↦
      rw (remove_listener, here) (clients_of-put_back event e (delete client clients) m)
]

-- A change of one client of one event changes the view at that place.
view_of-changed :
    (event client : Uuid) (o : Option ℕ) (m m' : EventListeners) (changed : Clients)
    → ((e : Uuid)
        → clients_of (lookup e m') ≡ (if event == e then changed else clients_of (lookup e m)))
    → ((c : Uuid)
        → lookup c changed ≡ (if client == c then o else lookup c (clients_of (lookup event m))))
    → (e c : Uuid) → view_of m' e c ≡ updated event client o (view_of m) e c
view_of-changed event client o m m' changed maps entries e c = elim (Bool-cases (event == e)) [
  | inl same ↦ rw (maps e, same, sym ((==_iff event e).0 same)) (entries c)
  | inr other ↦ rw (maps e, other) refl
]

view_of-apply :
    (change : Change) (m : EventListeners) (e c : Uuid)
    → view_of (apply change m) e c ≡ after_change change (view_of m) e c
view_of-apply (registers event client channel) m e c =
    view_of-changed event client (some channel) m _ _
      (clients_of-add_listener event client channel m) (λ c. lookup-insert client c channel _) e c
view_of-apply (leaves event client) m e c =
    view_of-changed event client none m _ _ (clients_of-remove_listener event client m)
      (λ c. lookup-delete client c _) e c

updated_cong :
    (event client : Uuid) (o : Option ℕ) (v w : View)
    → ((e c : Uuid) → v e c ≡ w e c)
    → (e c : Uuid) → updated event client o v e c ≡ updated event client o w e c
updated_cong event client o v w same e c = rw (same e c) refl

after_changes_cong :
    (changes : List Change) (v w : View)
    → ((e c : Uuid) → v e c ≡ w e c)
    → (e c : Uuid) → after_changes changes v e c ≡ after_changes changes w e c
unfolding after_changes
after_changes_cong [] v w same e c = same e c
after_changes_cong (registers event client channel ∷ changes) v w same e c =
    after_changes_cong changes _ _ (updated_cong event client (some channel) v w same) e c
after_changes_cong (leaves event client ∷ changes) v w same e c =
    after_changes_cong changes _ _ (updated_cong event client none v w same) e c

-- The nested maps implement the abstract updates.
view_of-apply_all :
    (changes : List Change) (m : EventListeners) (e c : Uuid)
    → view_of (apply_all changes m) e c ≡ after_changes changes (view_of m) e c
unfolding apply_all after_changes
view_of-apply_all [] m e c = refl
view_of-apply_all (change ∷ changes) m e c =
    view_of-apply_all changes (apply change m) e c
    ∙ after_changes_cong changes _ _ (view_of-apply change m) e c

-- A Go map holds a client once under an event.
abbrev Tidy : EventListeners → Type 0
Tidy m = (event : Uuid) → UniqueKeys (clients_of (lookup event m))

UniqueKeys-either :
    (b : Bool) (l m : Clients) → UniqueKeys l → UniqueKeys m → UniqueKeys (if b then l else m)
UniqueKeys-either true l m p q = p
UniqueKeys-either false l m p q = q

apply-Tidy : (change : Change) (m : EventListeners) → Tidy m → Tidy (apply change m)
apply-Tidy (registers event client channel) m tidy e =
    rw (clients_of-add_listener event client channel m e) (
      UniqueKeys-either (event == e) _ _ (UniqueKeys-insert client channel _ (tidy event)) (tidy e))
apply-Tidy (leaves event client) m tidy e =
    rw (clients_of-remove_listener event client m e)
      (UniqueKeys-either (event == e) _ _ (UniqueKeys-delete client _ (tidy event)) (tidy e))

apply_all-Tidy : (changes : List Change) (m : EventListeners) → Tidy m → Tidy (apply_all changes m)
unfolding apply_all
apply_all-Tidy [] m tidy = tidy
apply_all-Tidy (change ∷ changes) m tidy =
    apply_all-Tidy changes (apply change m) (apply-Tidy change m tidy)

new_event_listeners-Tidy : Tidy new_event_listeners
unfolding new_event_listeners
new_event_listeners-Tidy e = elim (Bool-cases (supabase_event_id == e)) [
  | inl same ↦ rw same tt
  | inr other ↦ rw other tt
]

new_event_listeners-nobody : (e c : Uuid) → view_of new_event_listeners e c ≡ nobody e c
unfolding new_event_listeners
new_event_listeners-nobody e c = elim (Bool-cases (supabase_event_id == e)) [
  | inl same ↦ rw same refl
  | inr other ↦ rw other refl
]

-- The sends of a dispatch are those to the channels of the clients.
abbrev pub sends_to : {E : Type 0} → E → Clients → List (ℕ × E)
sends_to sse_event = map (λ (l : Uuid × ℕ). (l.1, sse_event))

send_first : {E : Type 0} {c d : ℕ} {x y : E} → Path (ℕ × E) (c, x) (d, y) → c ≡ d
send_first {E = E} e = ap (λ (p : ℕ × E). p.0) e

first_sent :
    (client : Uuid) (c channel : ℕ) (clients : Clients)
    → channel ≡ c
    → lookup client ((client, c) ∷ clients) ≡ some channel
first_sent client c channel clients e = ground (arith, ==_iff client client)

found_where :
    (k client : Uuid) (c channel : ℕ) (clients : Clients)
    → lookup k ((client, c) ∷ clients) ≡ some channel
    → (channel ≡ c) ⊎ (lookup k clients ≡ some channel)
found_where k client c channel clients h = ground arith

lookup_later :
    (k client : Uuid) (c : ℕ) {channel : ℕ} (clients : Clients)
    → lookup client clients ≡ none
    → lookup k clients ≡ some channel
    → lookup k ((client, c) ∷ clients) ≡ some channel
lookup_later k client c clients absent h = ground (arith, ==_iff client k)

Has-sends_to :
    {E : Type 0} (sse_event : E) (channel : ℕ) (clients : Clients)
    → UniqueKeys clients
    → Has {A = ℕ × E} (channel, sse_event) (sends_to sse_event clients)
      ↔ ((client : Uuid) × (lookup client clients ≡ some channel))
Has-sends_to sse_event channel [] u = (λ h. elim h [ ], λ (client, h). cc)
Has-sends_to sse_event channel ((client, c) ∷ clients) u =
    let later = Has-sends_to sse_event channel clients u.1 in
    (
      λ h. elim h [
        | inl e ↦ (client, first_sent client c channel clients (send_first e))
        | inr h ↦ let (k, there) = later.0 h in (k, lookup_later k client c clients u.0 there)
      ],
      λ (k, here). elim (found_where k client c channel clients here) [
        | inl e ↦ inl (ap (λ d. (d, sse_event)) e)
        | inr there ↦ inr (later.1 (k, there))
      ],
    )

pub dispatch_event_to_event-sends :
    {E : Type 0} (event : Uuid) (sse_event : E) (m : EventListeners)
    → dispatch_event_to_event event sse_event m ≡ sends_to sse_event (clients_of (lookup event m))
unfolding dispatch_event_to_event
dispatch_event_to_event-sends event sse_event m = elim (Option-cases (lookup event m)) [
  | inl absent ↦ rw (absent, dispatch_event_to_event) refl
  | inr (clients, here) ↦ rw (here, dispatch_event_to_event) refl
]

-- After any registrations and removals of listeners from the start of the server on, a goroutine
-- of a guild update of an event tries to send it on a channel exactly when the channel is that of a
-- client whose last change for this event was to register with this channel.
pub dispatch_event_to_event-reaches :
    {E : Type 0} (changes : List Change) (event : Uuid) (sse_event : E) (channel : ℕ)
    → Has {A = ℕ × E}
        (channel, sse_event)
        (dispatch_event_to_event event sse_event (apply_all changes new_event_listeners))
      ↔ ((client : Uuid) × (after_changes changes nobody event client ≡ some channel))
dispatch_event_to_event-reaches changes event sse_event channel =
    let m = apply_all changes new_event_listeners in
    let same : (client : Uuid)
        → view_of m event client ≡ after_changes changes nobody event client =
      λ client.
        view_of-apply_all changes new_event_listeners event client
        ∙ after_changes_cong changes _ _ new_event_listeners-nobody event client in
    let has =
      Has-sends_to sse_event channel (clients_of (lookup event m))
        (apply_all-Tidy changes new_event_listeners new_event_listeners-Tidy event) in
    rw (dispatch_event_to_event-sends event sse_event m) (
      λ h. let (client, there) = has.0 h in (client, sym (same client) ∙ there),
      λ (client, there). has.1 (client, same client ∙ there),
    )
