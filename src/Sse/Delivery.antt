-- ===== src/Sse/Delivery.antt =====
-- internal/handlers/sse.go and the goroutines of dispatchEvent, dispatchEventToPlayer and
-- dispatchEventToEvent of internal/hub/event_hub.go: one listener's channel, from the goroutines
-- that send on it to the text that the loop of its handler writes, in any interleaving.
mod Picked
pub mod Counted
pub mod Received
mod Spaced
pub mod Drained
pub mod Lost
use rogue_learn_code_battle.Base.{
  ℕ, zero, suc, ◌≡◌, Bool, true, false, Option, none, some, List, [], ◌∷◌, ◌++◌, length, Text, ltb,
  if◌then◌else◌,
}
use rogue_learn_code_battle.Events.{EventType}
use rogue_learn_code_battle.Sse.Frames.{room_frame, spectator_frame}

-- Where a handler stands: before its loop; at its select; parked in it; with an event to write; in
-- its deferred calls; and behind the close of the channel.
pub data WireStage (E : Type 0) : Type 0 where
  opening arriving parked leaving ended : WireStage E
  writing : E → WireStage E

-- A listener's channel, with what became of the events.
pub record Wire (E : Type 0) : Type 0 where
  pub stage : WireStage E
  pub buffer : List E
  -- The goroutines that have not tried their send.
  pub sends : List E
  pub stream : Text
  -- The events that were written, and those that no client will get.
  pub written : List E
  pub lost : List E

-- A goroutine is started for an event; the goroutine at a place among those that wait runs; the
-- handler runs up to its next use of the channel; the client's context is done.
pub data WireAct (E : Type 0) : Type 0 where
  dispatched : E → WireAct E
  tried : ℕ → WireAct E
  served hung_up : WireAct E

-- The element at `k`, and the others.
unfoldable pub pick : {E : Type 0} → ℕ → List E → Option (E × List E)
pick k [] = none
pick zero (e ∷ es) = some (e, es)
pick (suc k) (e ∷ es) = elim (pick k es) [ none ↦ none | some (f, fs) ↦ some (f, e ∷ fs) ]

-- What a handler does with a listener: the size of its channel's buffer, whether a goroutine
-- recovers from a send on the closed channel, what is written before the loop, and for an event.
pub record Outlet (E : Type 0) : Type 0 where
  pub capacity : ℕ
  pub recovers : Bool
  pub greeting : Text
  pub event_type : E → EventType
  pub marshal : E → Option Text
  pub frame : EventType → Text → Text

module _ {E : Type 0} (o : Outlet E) where
  -- The select of a goroutine: it hands the event to a parked handler, or puts it into the buffer,
  -- or drops it. On a closed channel it panics, which ends the program (`none`) when nothing
  -- recovers.
  unfoldable pub select_send : E → Wire E → Option (Wire E)
  select_send e w = elim w.stage [
    | ended ↦ if o.recovers then some (record w { lost = e ∷ w.lost }) else none
    | parked ↦ some (record w { stage = writing e })
    | _ ↦ some (
        if ltb (length w.buffer) o.capacity
        then record w { buffer = w.buffer ++ e ∷ [] }
        else record w { lost = e ∷ w.lost })
  ]

  -- The select of the handler: the first event of the buffer, or it parks.
  unfoldable pub receive : List E → Wire E → Wire E
  receive [] w = record w { stage = parked }
  receive (e ∷ buffer) w = record w { stage = writing e; buffer = buffer }

  -- An event that cannot be marshalled ends the loop.
  unfoldable pub write_event : E → Wire E → Wire E
  write_event e w = elim (o.marshal e) [
    | none ↦ record w { stage = leaving; lost = e ∷ w.lost }
    | some text ↦ record w {
      stage = arriving;
      stream = w.stream ++ o.frame (o.event_type e) text;
      written = w.written ++ e ∷ [];
    }
  ]

  -- One turn of the handler.
  unfoldable pub serve : Wire E → Wire E
  unfolding receive write_event
  serve w = elim w.stage [
    | opening ↦ record w { stage = arriving; stream = w.stream ++ o.greeting }
    | arriving ↦ receive w.buffer w
    | parked ↦ w
    | leaving ↦ record w { stage = ended }
    | ended ↦ w
    | writing e ↦ write_event e w
  ]

  -- The case of the context in the select.
  unfoldable pub hang_up : Wire E → Wire E
  hang_up w = elim w.stage [
    | arriving ↦ record w { stage = leaving }
    | parked ↦ record w { stage = leaving }
    | _ ↦ w
  ]

  unfoldable pub wire_act : WireAct E → Wire E → Option (Wire E)
  unfolding pick select_send serve hang_up
  wire_act (dispatched e) w = some (record w { sends = w.sends ++ e ∷ [] })
  wire_act (tried k) w = elim (pick k w.sends) [
    | none ↦ some w
    | some (e, sends) ↦ select_send e (record w { sends = sends })
  ]
  wire_act served w = some (serve w)
  wire_act hung_up w = some (hang_up w)

  -- The acts, the first of them in front.
  unfoldable pub run_wire : List (WireAct E) → Wire E → Option (Wire E)
  unfolding wire_act
  run_wire [] w = some w
  run_wire (a ∷ acts) w = elim (wire_act a w) [ none ↦ none | some w' ↦ run_wire acts w' ]

-- JoinRoomHandler, for the goroutines of RoomHub.
abbrev pub room_outlet : {E : Type 0} → (E → EventType) → (E → Option Text) → Outlet E
room_outlet event_type marshal = record {
  capacity = 0;
  recovers = true;
  greeting = [];
  event_type = event_type;
  marshal = marshal;
  frame = room_frame;
}

-- SpectateEventHandler, for those of EventHub; `greeting` is the first leaderboard, when it was read.
abbrev pub spectator_outlet : {E : Type 0} → Text → (E → EventType) → (E → Option Text) → Outlet E
spectator_outlet greeting event_type marshal = record {
  capacity = 5;
  recovers = false;
  greeting = greeting;
  event_type = event_type;
  marshal = marshal;
  frame = spectator_frame;
}

-- A registered listener.
abbrev pub new_wire : {E : Type 0} → Wire E
new_wire = record { stage = opening; buffer = []; sends = []; stream = []; written = []; lost = [] }

-- The events that goroutines were started for.
abbrev pub dispatched_of : {E : Type 0} → List (WireAct E) → List E
dispatched_of [] = []
dispatched_of (dispatched e ∷ acts) = e ∷ dispatched_of acts
dispatched_of (tried k ∷ acts) = dispatched_of acts
dispatched_of (served ∷ acts) = dispatched_of acts
dispatched_of (hung_up ∷ acts) = dispatched_of acts
