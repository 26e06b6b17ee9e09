-- ===== src/Sse/Delivery/Counted.antt =====
-- What becomes of each event that a goroutine was started for.
use mathlib.Core.List.{append_assoc, append-nil}
use mathlib.Core.Path.{subst}
use rogue_learn_code_battle.Base.{
  ℕ, ◌+◌, ◌≡◌, ◌≢◌, refl, sym, ap, ◌∙◌, inl, inr, Bool, Option, none, some, List, [], ◌∷◌, ◌++◌,
  length, Text, ltb, tally, All, Bool-cases, Option-cases, if◌then◌else◌, arith,
}
use rogue_learn_code_battle.Sse.Frames.{write_events}
use rogue_learn_code_battle.Sse.Delivery.{
  WireStage, opening, arriving, parked, leaving, ended, writing, Wire, WireAct, dispatched, tried,
  served, hung_up, pick, Outlet, select_send, receive, write_event, serve, hang_up, wire_act,
  run_wire, dispatched_of,
}
use rogue_learn_code_battle.Sse.Delivery.Picked.{tally-pick}
use rogue_learn_code_battle.Base.{tally-snoc, All-snoc}

module _ {E : Type 0} where
  -- The event that a handler has received and not written.
  abbrev pub in_hand : WireStage E → List E
  in_hand (writing e) = e ∷ []
  in_hand _ = []

  -- How many events with `p` are in some place.
  abbrev pub account : (E → Bool) → Wire E → ℕ
  account p w =
      tally p w.sends
      + tally p w.buffer
      + tally p (in_hand w.stage)
      + tally p w.written
      + tally p w.lost

  -- What holds of the state, when the program has not ended.
  abbrev pub After : (Wire E → Type 0) → Option (Wire E) → Type 0
  After P none = Unit
  After P (some w) = P w

module _ {E : Type 0} (o : Outlet E) where
  abbrev pub greeted : WireStage E → Text
  greeted opening = []
  greeted _ = o.greeting

  -- The text on the connection is that of the events that were written.
  pub record Told (w : Wire E) : Type 0 where
    pub text : w.stream ≡ greeted w.stage ++ write_events o.event_type o.marshal o.frame w.written
    pub fine : All (λ e. o.marshal e ≢ none) w.written
    pub first : w.stage ≡ opening → w.written ≡ []

  write_events-nil : (es : List E) → es ≡ [] → write_events o.event_type o.marshal o.frame es ≡ []
  unfolding write_events
  write_events-nil [] e = refl
  write_events-nil (x ∷ es) e = cc

  write_events-snoc :
      (es : List E) (e : E) {text : Text}
      → All (λ e. o.marshal e ≢ none) es
      → o.marshal e ≡ some text
      → write_events o.event_type o.marshal o.frame (es ++ e ∷ [])
        ≡ write_events o.event_type o.marshal o.frame es ++ o.frame (o.event_type e) text
  unfolding write_events
  write_events-snoc [] e {text} a h =
      rw (h, write_events) (append-nil (o.frame (o.event_type e) text))
  write_events-snoc (x ∷ es) e {text} a h = elim (Option-cases (o.marshal x)) [
    | inl stuck ↦ absurd (a.0 stuck)
    | inr (first, f) ↦
        rw (f, write_events)
          (ap (λ s. o.frame (o.event_type x) first ++ s) (write_events-snoc es e a.1 h)
            ∙ sym (append_assoc (o.frame (o.event_type x) first) _ _))
  ]

  module _ (p : E → Bool) where
    pub record Sent (es : List E) (w w' : Wire E) : Type 0 where
      pub count : account p w' ≡ account p w + tally p es
      pub told : Told w → Told w'

    module _ (buffer sends : List E) (stream : Text) (written lost : List E) where
      abbrev at : WireStage E → Wire E
      at stage = record {
        stage = stage;
        buffer = buffer;
        sends = sends;
        stream = stream;
        written = written;
        lost = lost;
      }

      -- The event goes into the buffer, or is lost.
      push_or_drop :
          (e : E) (stage : WireStage E)
          → Sent (e ∷ []) (at stage) (
              if ltb (length buffer) o.capacity
              then record (at stage) { buffer = buffer ++ e ∷ [] }
              else record (at stage) { lost = e ∷ lost })
      push_or_drop e stage = elim (Bool-cases (ltb (length buffer) o.capacity)) [
        | inl room ↦ rw room (record {
          count = omega (arith, tally-snoc p buffer e);
          told = λ t. record { text = t.text; fine = t.fine; first = t.first };
        })
        | inr full ↦ rw full (record {
          count = ground arith;
          told = λ t. record { text = t.text; fine = t.fine; first = t.first };
        })
      ]

      select_send-Sent :
          (e : E) (stage : WireStage E)
          → After (Sent (e ∷ []) (at stage)) (select_send o e (at stage))
      unfolding select_send
      select_send-Sent e opening = push_or_drop e opening
      select_send-Sent e arriving = push_or_drop e arriving
      select_send-Sent e leaving = push_or_drop e leaving
      select_send-Sent e (writing f) = push_or_drop e (writing f)
      select_send-Sent e parked = record {
        count = ground arith;
        told = λ t. record { text = t.text; fine = t.fine; first = λ no. cc };
      }
      select_send-Sent e ended = elim (Bool-cases o.recovers) [
        | inl safe ↦
            rw (safe, select_send)
              (record {
                count = ground arith;
                told = λ t. record { text = t.text; fine = t.fine; first = t.first };
              })
        | inr crash ↦ rw (crash, select_send) tt
      ]

      write_event-Sent : (e : E) → Sent [] (at (writing e)) (write_event o e (at (writing e)))
      unfolding write_event
      write_event-Sent e = elim (Option-cases (o.marshal e)) [
        | inl stuck ↦
            rw (stuck, write_event)
              (record {
                count = ground arith;
                told = λ t. record { text = t.text; fine = t.fine; first = λ no. cc };
              })
        | inr (text, m) ↦
            rw (m, write_event)
              (record {
                count = omega (arith, tally-snoc p written e);
                told = λ t. record {
                  text =
                      ap (λ s. s ++ o.frame (o.event_type e) text) t.text
                      ∙ (append_assoc o.greeting _ (o.frame (o.event_type e) text)
                          ∙ ap (λ s. o.greeting ++ s) (sym (write_events-snoc written e t.fine m)));
                  fine =
                      All-snoc (λ f. o.marshal f ≢ none) written e t.fine (λ stuck. cc (stuck, m));
                  first = λ no. cc;
                };
              })
      ]

    receive-Sent :
        (buffer sends : List E) (stream : Text) (written lost : List E)
        → let w = at buffer sends stream written lost arriving in Sent [] w (receive o buffer w)
    unfolding receive
    receive-Sent [] sends stream written lost = record {
      count = omega arith;
      told = λ t. record { text = t.text; fine = t.fine; first = λ no. cc };
    }
    receive-Sent (e ∷ buffer) sends stream written lost = record {
      count = ground arith;
      told = λ t. record { text = t.text; fine = t.fine; first = λ no. cc };
    }

    module _ (buffer sends : List E) (stream : Text) (written lost : List E) where
      serve-Sent :
          (stage : WireStage E)
          → Sent []
              (at buffer sends stream written lost stage)
              (serve o (at buffer sends stream written lost stage))
      unfolding serve
      serve-Sent opening = record {
        count = omega arith;
        told = λ t. record {
          text =
              let empty = write_events-nil written (t.first refl) in
              ap (λ s. s ++ o.greeting) (t.text ∙ empty)
              ∙ sym (ap (λ s. o.greeting ++ s) empty ∙ append-nil o.greeting);
          fine = t.fine;
          first = λ no. cc;
        };
      }
      serve-Sent arriving = receive-Sent buffer sends stream written lost
      serve-Sent parked = record { count = omega arith; told = λ t. t }
      serve-Sent leaving = record {
        count = omega arith;
        told = λ t. record { text = t.text; fine = t.fine; first = λ no. cc };
      }
      serve-Sent ended = record { count = omega arith; told = λ t. t }
      serve-Sent (writing e) = write_event-Sent buffer sends stream written lost e

      hang_up-Sent :
          (stage : WireStage E)
          → let w = at buffer sends stream written lost stage in Sent [] w (hang_up o w)
      unfolding hang_up
      hang_up-Sent opening = record { count = omega arith; told = λ t. t }
      hang_up-Sent arriving = record {
        count = omega arith;
        told = λ t. record { text = t.text; fine = t.fine; first = λ no. cc };
      }
      hang_up-Sent parked = record {
        count = omega arith;
        told = λ t. record { text = t.text; fine = t.fine; first = λ no. cc };
      }
      hang_up-Sent leaving = record { count = omega arith; told = λ t. t }
      hang_up-Sent ended = record { count = omega arith; told = λ t. t }
      hang_up-Sent (writing e) = record { count = omega arith; told = λ t. t }

    dispatched-cons :
        (a : WireAct E) (acts : List (WireAct E))
        → tally p (dispatched_of (a ∷ acts))
          ≡ tally p (dispatched_of (a ∷ [])) + tally p (dispatched_of acts)
    dispatched-cons (dispatched e) acts = ground arith
    dispatched-cons (tried k) acts = omega arith
    dispatched-cons served acts = omega arith
    dispatched-cons hung_up acts = omega arith

    -- The send of a goroutine that was among those that wait.
    picked :
        (w : Wire E) (e : E) (sends : List E) (r : Option (Wire E))
        → tally p w.sends ≡ tally p sends + tally p (e ∷ [])
        → After (Sent (e ∷ []) (record w { sends = sends })) r
        → After (Sent [] w) r
    picked w e sends none h x = tt
    picked w e sends (some w') h x = record {
      count = omega (arith, h, x.count);
      told = λ t. x.told (record { text = t.text; fine = t.fine; first = t.first });
    }

    wire_act-Sent :
        (a : WireAct E) (w : Wire E) → After (Sent (dispatched_of (a ∷ [])) w) (wire_act o a w)
    unfolding wire_act
    wire_act-Sent (dispatched e) w = record {
      count = omega (arith, tally-snoc p w.sends e);
      told = λ t. record { text = t.text; fine = t.fine; first = t.first };
    }
    wire_act-Sent (tried k) w = elim (Option-cases (pick k w.sends)) [
      | inl stuck ↦ rw (stuck, wire_act) (record { count = omega arith; told = λ t. t })
      | inr ((e, sends), h) ↦
          rw (h, wire_act)
            (picked w e sends _ (tally-pick p k w.sends h)
              (select_send-Sent w.buffer sends w.stream w.written w.lost e w.stage))
    ]
    wire_act-Sent served w = serve-Sent w.buffer w.sends w.stream w.written w.lost w.stage
    wire_act-Sent hung_up w = hang_up-Sent w.buffer w.sends w.stream w.written w.lost w.stage

    join :
        (a : WireAct E) (acts : List (WireAct E)) (w w' : Wire E) (r : Option (Wire E))
        → Sent (dispatched_of (a ∷ [])) w w'
        → After (Sent (dispatched_of acts) w') r
        → After (Sent (dispatched_of (a ∷ acts)) w) r
    join a acts w w' none x y = tt
    join a acts w w' (some w'') x y = record {
      count = omega (arith, x.count, y.count, dispatched-cons a acts);
      told = λ t. y.told (x.told t);
    }

    -- The events of all acts.
    pub run_wire-Sent :
        (acts : List (WireAct E)) (w : Wire E)
        → After (Sent (dispatched_of acts) w) (run_wire o acts w)
    unfolding run_wire
    run_wire-Sent [] w = record { count = omega arith; told = λ t. t }
    run_wire-Sent (a ∷ acts) w = elim (Option-cases (wire_act o a w)) [
      | inl stuck ↦ rw (stuck, run_wire) tt
      | inr (w', e) ↦
          rw (e, run_wire)
            (join a acts w w' (run_wire o acts w')
              (subst (After (Sent (dispatched_of (a ∷ [])) w)) e (wire_act-Sent a w))
              (run_wire-Sent acts w'))
    ]
