-- ===== src/Sse/Delivery/Spaced.antt =====
-- A connection to which no more is dispatched than its channel has space for.
use rogue_learn_code_battle.Base.{
  ℕ, suc, ◌+◌, ◌-◌, ◌*◌, ◌≤◌, ◌≡◌, ◌≢◌, refl, ap, inl, inr, Option, none, some, List, [], ◌∷◌, ◌++◌,
  length, length-append, ltb, All, Option-cases, if◌then◌else◌, arith,
}
use rogue_learn_code_battle.Sse.Delivery.{
  WireStage, opening, arriving, parked, leaving, ended, writing, Wire, WireAct, dispatched, tried,
  served, hung_up, pick, Outlet, select_send, receive, write_event, serve, wire_act, run_wire,
  dispatched_of,
}
use rogue_learn_code_battle.Sse.Delivery.Picked.{length-pick}
use rogue_learn_code_battle.Base.{lt→ltb}

-- The handler has not left its loop.
abbrev pub IsHere : {E : Type 0} → WireStage E → Type 0
IsHere leaving = ⊥
IsHere ended = ⊥
IsHere _ = Unit

-- How many turns the handler has to go until it is parked.
abbrev pub turns_at : {E : Type 0} → WireStage E → ℕ
turns_at opening = 2
turns_at arriving = 1
turns_at (writing e) = 2
turns_at _ = 0

abbrev pub due_turns : {E : Type 0} → Wire E → ℕ
due_turns w = 2 * length w.buffer + turns_at w.stage

-- Nothing is lost, and the goroutines and the channel have at most `n` events.
pub record Roomy {E : Type 0} (n : ℕ) (w : Wire E) : Type 0 where
  pub here : IsHere w.stage
  pub kept : w.lost ≡ []
  pub fits : length w.sends + length w.buffer ≤ n
  pub empty : w.stage ≡ parked → w.buffer ≡ []

-- What one turn of the handler leaves.
pub record Stepped {E : Type 0} (n : ℕ) (w w' : Wire E) : Type 0 where
  pub roomy : Roomy n w'
  pub sooner : due_turns w' ≤ due_turns w - 1
  pub same : w'.sends ≡ w.sends

-- A state in which the goroutines that wait are `sends`.
pub record Comes {E : Type 0} (n : ℕ) (sends : List E) (r : Option (Wire E)) : Type 0 where
  pub wire : Wire E
  pub is : r ≡ some wire
  pub roomy : Roomy n wire
  pub same : wire.sends ≡ sends

pub Roomy-le : {E : Type 0} {n m : ℕ} {w : Wire E} → n ≤ m → Roomy n w → Roomy m w
Roomy-le h x = record {
  here = x.here;
  kept = x.kept;
  fits = omega (arith, h, x.fits);
  empty = x.empty;
}

module _ {E : Type 0} (o : Outlet E) (writes : (e : E) → o.marshal e ≢ none) where
  module _ (sends : List E) (stream : List ℕ) (written lost : List E) where
    abbrev at : List E → WireStage E → Wire E
    at buffer stage = record {
      stage = stage;
      buffer = buffer;
      sends = sends;
      stream = stream;
      written = written;
      lost = lost;
    }

    push :
        (n : ℕ) (e : E) (buffer : List E) (stage : WireStage E)
        → Roomy n (at buffer stage)
        → stage ≢ parked
        → suc (length buffer) ≤ o.capacity
        → suc (length sends + length buffer) ≤ n
        → Comes n sends (
            some (
              if ltb (length buffer) o.capacity
              then record (at buffer stage) { buffer = buffer ++ e ∷ [] }
              else record (at buffer stage) { lost = e ∷ lost }))
    push n e buffer stage x busy room few = rw (lt→ltb (length buffer) o.capacity room) (record {
      wire = _;
      is = refl;
      roomy = record {
        here = x.here;
        kept = x.kept;
        fits = omega (arith, few, length-append buffer (e ∷ []));
        empty = λ same. absurd (busy same);
      };
      same = refl;
    })

    -- A goroutine's send finds the handler or some space.
    send-Roomy :
        (n : ℕ) (e : E) (buffer : List E) (stage : WireStage E)
        → Roomy n (at buffer stage)
        → suc (length buffer) ≤ o.capacity
        → suc (length sends + length buffer) ≤ n
        → Comes n sends (select_send o e (at buffer stage))
    unfolding select_send
    send-Roomy n e buffer opening x room few = push n e buffer opening x (λ same. cc) room few
    send-Roomy n e buffer arriving x room few = push n e buffer arriving x (λ same. cc) room few
    send-Roomy n e buffer (writing f) x room few =
        push n e buffer (writing f) x (λ same. cc) room few
    send-Roomy n e buffer leaving x room few = elim x.here [ ]
    send-Roomy n e buffer ended x room few = elim x.here [ ]
    send-Roomy n e buffer parked x room few = record {
      wire = _;
      is = refl;
      roomy = record { here = tt; kept = x.kept; fits = x.fits; empty = λ no. cc };
      same = refl;
    }

    write-Stepped :
        (n : ℕ) (e : E) (buffer : List E)
        → Roomy n (at buffer (writing e))
        → Stepped n (at buffer (writing e)) (write_event o e (at buffer (writing e)))
    unfolding write_event
    write-Stepped n e buffer x = elim (Option-cases (o.marshal e)) [
      | inl stuck ↦ absurd (writes e stuck)
      | inr (text, m) ↦
          rw (m, write_event)
            (record {
              roomy = record { here = tt; kept = x.kept; fits = x.fits; empty = λ no. cc };
              sooner = omega arith;
              same = refl;
            })
    ]

    pub serve-Stepped :
        (n : ℕ) (buffer : List E) (stage : WireStage E)
        → Roomy n (at buffer stage)
        → Stepped n (at buffer stage) (serve o (at buffer stage))
    unfolding serve receive
    serve-Stepped n buffer opening x = record {
      roomy = record { here = tt; kept = x.kept; fits = x.fits; empty = λ no. cc };
      sooner = omega arith;
      same = refl;
    }
    serve-Stepped n [] arriving x = record {
      roomy = record { here = tt; kept = x.kept; fits = x.fits; empty = λ e. refl };
      sooner = omega arith;
      same = refl;
    }
    serve-Stepped n (e ∷ buffer) arriving x = record {
      roomy = record { here = tt; kept = x.kept; fits = omega (arith, x.fits); empty = λ no. cc };
      sooner = omega arith;
      same = refl;
    }
    serve-Stepped n buffer parked x = record {
      roomy = x;
      sooner = omega (arith, ap length (x.empty refl));
      same = refl;
    }
    serve-Stepped n buffer leaving x = elim x.here [ ]
    serve-Stepped n buffer ended x = elim x.here [ ]
    serve-Stepped n buffer (writing e) x = write-Stepped n e buffer x

  -- The goroutine that has been picked.
  pub try-Comes :
      (n : ℕ) (e : E) (sends : List E) (w : Wire E)
      → Roomy n w
      → length w.sends ≡ suc (length sends)
      → n ≤ o.capacity
      → Comes n sends (select_send o e (record w { sends = sends }))
  try-Comes n e sends w x one few =
      send-Roomy sends w.stream w.written w.lost n e w.buffer w.stage
        (record {
          here = x.here;
          kept = x.kept;
          fits = omega (arith, x.fits, one);
          empty = x.empty;
        })
        (omega (arith, x.fits, one, few)) (omega (arith, x.fits, one))

  length-dispatched :
      (a : WireAct E) (acts : List (WireAct E))
      → length (dispatched_of (a ∷ acts))
        ≡ length (dispatched_of (a ∷ [])) + length (dispatched_of acts)
  length-dispatched (dispatched e) acts = omega arith
  length-dispatched (tried k) acts = omega arith
  length-dispatched served acts = omega arith
  length-dispatched hung_up acts = omega arith

  -- One act that leaves the connection open, with the events that it dispatches.
  act-Roomy :
      (n : ℕ) (a : WireAct E) (w : Wire E)
      → Roomy n w
      → a ≢ hung_up
      → n + length (dispatched_of (a ∷ [])) ≤ o.capacity
      → (w' : Wire E) × (wire_act o a w ≡ some w') × Roomy (n + length (dispatched_of (a ∷ []))) w'
  unfolding wire_act
  act-Roomy n (dispatched e) w x stays few = (
    _,
    refl,
    record {
      here = x.here;
      kept = x.kept;
      fits = omega (arith, x.fits, length-append w.sends (e ∷ []));
      empty = x.empty;
    },
  )
  act-Roomy n (tried k) w x stays few = elim (Option-cases (pick k w.sends)) [
    | inl stuck ↦ rw (stuck, wire_act) (w, refl, Roomy-le (omega arith) x)
    | inr ((e, sends), h) ↦
        let r = try-Comes n e sends w x (length-pick k w.sends h) (omega (arith, few)) in
        rw (h, wire_act) (r.wire, r.is, Roomy-le (omega arith) r.roomy)
  ]
  act-Roomy n served w x stays few = (
    _,
    refl,
    Roomy-le (omega arith)
        (serve-Stepped w.sends w.stream w.written w.lost n w.buffer w.stage x).roomy,
  )
  act-Roomy n hung_up w x stays few = absurd (stays refl)

  pub acts-Roomy :
      (n : ℕ) (acts : List (WireAct E)) (w : Wire E)
      → Roomy n w
      → All (λ a. a ≢ hung_up) acts
      → n + length (dispatched_of acts) ≤ o.capacity
      → (w' : Wire E) × (run_wire o acts w ≡ some w') × Roomy (n + length (dispatched_of acts)) w'
  unfolding run_wire
  acts-Roomy n [] w x stays few = (w, refl, Roomy-le (omega arith) x)
  acts-Roomy n (a ∷ acts) w x stays few =
      let counts = length-dispatched a acts in
      let (w', e, y) = act-Roomy n a w x stays.0 (omega (arith, few, counts)) in
      let (w'', e', z) =
        acts-Roomy (n + length (dispatched_of (a ∷ []))) acts w' y stays.1
          (omega (arith, few, counts)) in
      rw (e, run_wire) (w'', e', Roomy-le (omega (arith, counts)) z)
