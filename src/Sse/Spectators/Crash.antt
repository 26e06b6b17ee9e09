-- ===== src/Sse/Spectators/Crash.antt =====
-- A spectator that leaves while a guild update is under way.
use rogue_learn_code_battle.Base.{
  ℕ, ◌≡◌, ◌∙◌, refl, ap, none, some, List, [], ◌∷◌, ◌++◌, arith, Has, ◌==◌, ==_refl, lookup, nat_eq,
  lookup-insert, Bool-cases, inl, inr,
}
use rogue_learn_code_battle.Store.Models.{Uuid}
use rogue_learn_code_battle.Sse.Spectators.{
  Clients, EventListeners, add_listener, dispatch_event_to_event, Spectators, connect, disconnect,
  dispatch, try_send,
}
use rogue_learn_code_battle.Sse.Spectators.Views.{
  sends_to, dispatch_event_to_event-sends, clients_of-add_listener,
}

module _ {E : Type 0} (sse_event : E) where
  Has-sent :
      (client : Uuid) (channel : ℕ) (clients : Clients)
      → lookup client clients ≡ some channel
      → Has {A = ℕ × E} (channel, sse_event) (sends_to sse_event clients)
  Has-sent client channel [] h = cc
  Has-sent client channel ((k, c) ∷ clients) h = elim (Bool-cases (k == client)) [
    | inl same ↦ inl (ap (λ d. (d, sse_event)) (ground arith))
    | inr other ↦ inr (Has-sent client channel clients (rw other at h))
  ]

  Has-append_right : (a : ℕ × E) (xs ys : List (ℕ × E)) → Has a ys → Has a (xs ++ ys)
  Has-append_right a [] ys h = h
  Has-append_right a (x ∷ xs) ys h = inr (Has-append_right a xs ys h)

  added-sent :
      (event client : Uuid) (channel : ℕ) (m : EventListeners)
      → Has {A = ℕ × E}
          (channel, sse_event)
          (dispatch_event_to_event event sse_event (add_listener event client channel m))
  added-sent event client channel m =
      rw
        (
          dispatch_event_to_event-sends event sse_event (add_listener event client channel m),
          clients_of-add_listener event client channel m event,
          ==_refl event,
        )
        (Has-sent client channel _
          (lookup-insert client client channel _ ∙ rw (==_refl client) refl))

  -- A spectator connects, a guild update of its event is dispatched, and the spectator disconnects
  -- before the goroutine of its channel has run: the goroutine's send is still to be tried, on a
  -- channel that is closed, and the program ends with a panic. This needs nothing of the state in
  -- which the spectator connects.
  pub disconnect-crashes :
      (event client : Uuid) (s : Spectators E)
      → let connected = connect event client s in
        let dispatched = dispatch event sse_event connected in
        let left = disconnect event client s.next_channel dispatched in
        Has {A = ℕ × E} (s.next_channel, sse_event) left.sends
        × (try_send s.next_channel left ≡ none)
  unfolding connect disconnect dispatch try_send
  disconnect-crashes event client s = (
    Has-append_right (s.next_channel, sse_event) s.sends _
        (added-sent event client s.next_channel s.listeners),
    rw (==_refl s.next_channel) refl,
  )
