-- ===== src/Sse/Delivery/Received.antt =====
-- What the client of a room reads, against the events that were dispatched to it.
use mathlib.Core.Path.{subst}
use rogue_learn_code_battle.Base.{
  ◌≡◌, refl, ◌∙◌, ap, inl, inr, Bool, true, Option, some, List, [], ◌∷◌, ◌++◌, Text, tally,
  Option-cases, arith,
}
use rogue_learn_code_battle.Events.{EventType}
use rogue_learn_code_battle.Sse.Frames.{room_frame, write_events}
use rogue_learn_code_battle.Sse.Frames.Read.{
  IsLine, read_stream, marshalled, read_stream-write_events,
}
use rogue_learn_code_battle.Sse.Delivery.{
  WireStage, opening, arriving, parked, leaving, ended, writing, Wire, WireAct, dispatched, tried,
  served, hung_up, pick, Outlet, select_send, wire_act, run_wire, new_wire, dispatched_of,
  room_outlet,
}
use rogue_learn_code_battle.Sse.Delivery.Counted.{account, greeted, Sent, run_wire-Sent, After}

-- The program goes on, since the goroutines recover.
abbrev Goes : {E : Type 0} → Option (Wire E) → Type 0
Goes {E} r = (w : Wire E) × (r ≡ some w)

module _ {E : Type 0} (o : Outlet E) (safe : o.recovers ≡ true) where
  select_send-Goes :
      (e : E) (stage : WireStage E) (buffer sends : List E) (stream : Text) (written lost : List E)
      → Goes (
          select_send o e (record {
            stage = stage;
            buffer = buffer;
            sends = sends;
            stream = stream;
            written = written;
            lost = lost;
          }))
  unfolding select_send
  select_send-Goes e opening buffer sends stream written lost = (_, refl)
  select_send-Goes e arriving buffer sends stream written lost = (_, refl)
  select_send-Goes e parked buffer sends stream written lost = (_, refl)
  select_send-Goes e leaving buffer sends stream written lost = (_, refl)
  select_send-Goes e ended buffer sends stream written lost = rw safe (_, refl)
  select_send-Goes e (writing f) buffer sends stream written lost = (_, refl)

  wire_act-Goes : (a : WireAct E) (w : Wire E) → Goes (wire_act o a w)
  unfolding wire_act
  wire_act-Goes (dispatched e) w = (_, refl)
  wire_act-Goes (tried k) w = elim (Option-cases (pick k w.sends)) [
    | inl stuck ↦ rw (stuck, wire_act) (w, refl)
    | inr ((e, sends), h) ↦
        rw (h, wire_act) (select_send-Goes e w.stage w.buffer sends w.stream w.written w.lost)
  ]
  wire_act-Goes served w = (_, refl)
  wire_act-Goes hung_up w = (_, refl)

  run_wire-Goes : (acts : List (WireAct E)) (w : Wire E) → Goes (run_wire o acts w)
  unfolding run_wire
  run_wire-Goes [] w = (w, refl)
  run_wire-Goes (a ∷ acts) w =
      let (w', e) = wire_act-Goes a w in rw (e, run_wire) (run_wire-Goes acts w')

module _ {E : Type 0} (event_type : E → EventType) (marshal : E → Option Text) where
  not_greeted : (stage : WireStage E) → greeted (room_outlet event_type marshal) stage ≡ []
  not_greeted stage = ground arith

  -- Whatever the goroutines and the handler of a player's connection do, and in whatever order, the
  -- program goes on; each event that goroutines were started for has one place: among the goroutines
  -- that have yet to try, in the channel, in the handler's hand, among those that were written or
  -- among those that are lost. What the client reads is the type and the data of those that were
  -- written, where what json.Marshal writes has no line break.
  pub run_wire-reads :
      (acts : List (WireAct E))
      → ((event : E) (text : Text) → marshal event ≡ some text → IsLine text)
      → (w : Wire E) × (run_wire (room_outlet event_type marshal) acts new_wire ≡ some w)
        × (read_stream w.stream ≡ marshalled event_type marshal w.written)
        × ((p : E → Bool) → account p w ≡ tally p (dispatched_of acts))
  unfolding write_events
  run_wire-reads acts lines =
      let o = room_outlet event_type marshal in
      let (w, e) = run_wire-Goes o refl acts new_wire in
      let sent : (p : E → Bool) → Sent o p (dispatched_of acts) new_wire w = λ p.
        subst (After (Sent o p (dispatched_of acts) new_wire)) e
          (run_wire-Sent o p acts new_wire) in
      let t = (sent (λ f. true)).told (record { text = refl; fine = tt; first = λ same. refl }) in
      (
        w,
        e,
        ap read_stream (
              t.text
              ∙ ap (λ s. s ++ write_events event_type marshal room_frame w.written)
                  (not_greeted w.stage))
            ∙ (read_stream-write_events event_type marshal w.written lines).0,
        λ p. omega (arith, (sent p).count),
      )
