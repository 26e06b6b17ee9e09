-- ===== src/Sse/Delivery/Lost.antt =====
-- Two events that a room dispatches to a player one right after the other.
use rogue_learn_code_battle.Base.{◌≡◌, refl, ap, ◌∙◌, Option, some, List, [], ◌∷◌, ◌++◌, Text}
use rogue_learn_code_battle.Events.{EventType}
use rogue_learn_code_battle.Sse.Frames.{room_frame}
use rogue_learn_code_battle.Sse.Delivery.{
  arriving, parked, writing, Wire, WireAct, dispatched, tried, served, pick, select_send, receive,
  write_event, serve, wire_act, run_wire, room_outlet,
}

-- The handler of a player is parked in its select, and no goroutine waits.
abbrev pub at_rest : {E : Type 0} → Text → List E → List E → Wire E
at_rest stream written lost = record {
  stage = parked;
  buffer = [];
  sends = [];
  stream = stream;
  written = written;
  lost = lost;
}

module _ {E : Type 0} (event_type : E → EventType) (marshal : E → Option Text) where
  abbrev pub frame_of : E → Text → Text
  frame_of e text = room_frame (event_type e) text

  write_event-some :
      (e : E) (w : Wire E) {text : Text}
      → marshal e ≡ some text
      → write_event (room_outlet event_type marshal) e w ≡ record w {
        stage = arriving;
        stream = w.stream ++ frame_of e text;
        written = w.written ++ e ∷ [];
      }
  unfolding write_event
  write_event-some e w h = rw (h, write_event) refl

  -- Two turns of the handler with an event in its hand: it writes the event and parks.
  served_twice :
      (e : E) (sends : List E) (stream : Text) (written lost : List E) {text : Text}
      → marshal e ≡ some text
      → serve (room_outlet event_type marshal) (
          serve
            (room_outlet event_type marshal)
            (record (at_rest stream written lost) { stage = writing e; sends = sends }))
        ≡ record (at_rest (stream ++ frame_of e text) (written ++ e ∷ []) lost) { sends = sends }
  unfolding serve receive
  served_twice e sends stream written lost h = ap (serve (room_outlet event_type marshal)) (
      write_event-some e (record (at_rest stream written lost) { stage = writing e; sends = sends })
        h)

  -- A room dispatches two events to a player whose handler is parked. When both goroutines run
  -- before the handler has written, the client gets the first and the second is lost, or the other
  -- way round; when the handler has parked again in between, it gets both, and the second event can
  -- be the first that it gets.
  pub two_dispatches :
      (e f : E) (text text' : Text) (stream : Text) (written lost : List E)
      → marshal e ≡ some text
      → marshal f ≡ some text'
      → let run : List (WireAct E) → Option (Wire E) = λ acts.
        run_wire
          (room_outlet event_type marshal)
          (dispatched e ∷ dispatched f ∷ acts)
          (at_rest stream written lost) in
        (run (tried 0 ∷ tried 0 ∷ served ∷ served ∷ [])
          ≡ some (at_rest (stream ++ frame_of e text) (written ++ e ∷ []) (f ∷ lost)))
        × (run (tried 1 ∷ tried 0 ∷ served ∷ served ∷ [])
            ≡ some (at_rest (stream ++ frame_of f text') (written ++ f ∷ []) (e ∷ lost)))
        × (run (tried 1 ∷ served ∷ served ∷ tried 0 ∷ served ∷ served ∷ [])
            ≡ some (
                at_rest
                  ((stream ++ frame_of f text') ++ frame_of e text)
                  ((written ++ f ∷ []) ++ e ∷ [])
                  lost))
  unfolding run_wire wire_act pick select_send
  two_dispatches e f text text' stream written lost he hf = (
    ap some (served_twice e [] stream written (f ∷ lost) he),
    ap some (served_twice f [] stream written (e ∷ lost) hf),
    ap (run_wire (room_outlet event_type marshal) (tried 0 ∷ served ∷ served ∷ []))
          (served_twice f (e ∷ []) stream written lost hf)
        ∙ ap some (served_twice e [] (stream ++ frame_of f text') (written ++ f ∷ []) lost he),
  )
