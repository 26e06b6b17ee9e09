-- ===== src/Sse/Delivery/Drained.antt =====
-- A connection whose channel has space for all that is dispatched writes all of it.
use mathlib.Core.Path.{subst}
use rogue_learn_code_battle.Base.{some_injective, Option-cases}
use rogue_learn_code_battle.Base.{
  ℕ, zero, suc, ◌+◌, ◌-◌, ◌*◌, ◌≤◌, ◌≡◌, ◌≢◌, refl, ap, ◌∙◌, inl, inr, Bool, true, none, some, List,
  [], ◌∷◌, ◌++◌, length, tally, All, arith,
}
use rogue_learn_code_battle.Sse.Frames.{write_events}
use rogue_learn_code_battle.Sse.Delivery.{
  WireStage, opening, arriving, parked, leaving, ended, writing, Wire, WireAct, dispatched, tried,
  served, hung_up, pick, Outlet, serve, wire_act, run_wire, new_wire, dispatched_of,
}
use rogue_learn_code_battle.Sse.Delivery.Counted.{in_hand, greeted, After, Sent, run_wire-Sent}
use rogue_learn_code_battle.Sse.Delivery.Spaced.{
  IsHere, turns_at, due_turns, Roomy, Roomy-le, serve-Stepped, try-Comes, acts-Roomy,
}
use rogue_learn_code_battle.Sse.Delivery.Picked.{length-pick, pick_first-none}

-- The goroutines that wait run one after another, `tries` times, then the handler takes turns.
abbrev pub finish : {E : Type 0} → ℕ → ℕ → List (WireAct E)
finish zero zero = []
finish zero (suc turns) = served ∷ finish zero turns
finish (suc tries) turns = tried 0 ∷ finish tries turns

module _ {E : Type 0} where
  nothing_new :
      (p : E → Bool) (acts : List (WireAct E)) (k l : ℕ)
      → tally p (dispatched_of (acts ++ finish k l)) ≡ tally p (dispatched_of acts)
  nothing_new p [] zero zero = refl
  nothing_new p [] zero (suc l) = nothing_new p [] zero l
  nothing_new p [] (suc k) l = nothing_new p [] k l
  nothing_new p (dispatched e ∷ acts) k l = ground (arith, nothing_new p acts k l)
  nothing_new p (tried j ∷ acts) k l = nothing_new p acts k l
  nothing_new p (served ∷ acts) k l = nothing_new p acts k l
  nothing_new p (hung_up ∷ acts) k l = nothing_new p acts k l

  -- A connection that has written all.
  record Finished (w : Wire E) : Type 0 where
    is_parked : w.stage ≡ parked
    no_buffer : w.buffer ≡ []
    no_sends : w.sends ≡ []
    none_lost : w.lost ≡ []

  is_empty_of : (xs : List E) → length xs ≡ 0 → xs ≡ []
  is_empty_of [] h = refl
  is_empty_of (x ∷ xs) h = absurd (omega (arith, h))

  stage_of :
      (stage : WireStage E) (buffer : List E)
      → 2 * length buffer + turns_at stage ≡ 0
      → IsHere stage
      → stage ≡ parked
  stage_of opening buffer h x = absurd (omega (arith, h))
  stage_of arriving buffer h x = absurd (omega (arith, h))
  stage_of parked buffer h x = refl
  stage_of leaving buffer h x = elim x [ ]
  stage_of ended buffer h x = elim x [ ]
  stage_of (writing e) buffer h x = absurd (omega (arith, h))

  turns_at-le : (stage : WireStage E) → turns_at stage ≤ 2
  turns_at-le stage = ground arith

  parked_of : (n : ℕ) (w : Wire E) → Roomy n w → w.sends ≡ [] → due_turns w ≡ 0 → Finished w
  parked_of n w x gone h = record {
    is_parked = stage_of w.stage w.buffer h x.here;
    no_buffer = is_empty_of w.buffer (omega (arith, h));
    no_sends = gone;
    none_lost = x.kept;
  }

  due_turns-le : (n : ℕ) (w : Wire E) → Roomy n w → due_turns w ≤ 2 * n + 2
  due_turns-le n w x = omega (arith, x.fits, turns_at-le w.stage)

  module _ (o : Outlet E) (writes : (e : E) → o.marshal e ≢ none) where
    run_wire-append :
        (xs ys : List (WireAct E)) (w : Wire E) {w' : Wire E}
        → run_wire o xs w ≡ some w'
        → run_wire o (xs ++ ys) w ≡ run_wire o ys w'
    unfolding run_wire
    run_wire-append [] ys w {w'} h = ap (run_wire o ys) (some_injective h)
    run_wire-append (a ∷ xs) ys w h = elim (Option-cases (wire_act o a w)) [
      | inl stuck ↦ cc (rw (stuck, run_wire) at h)
      | inr (v, e) ↦ rw (e, run_wire) (run_wire-append xs ys v (rw (e, run_wire) at h))
    ]

    first_try :
        (n : ℕ) (w : Wire E)
        → Roomy n w
        → n ≤ o.capacity
        → (w' : Wire E) × (wire_act o (tried 0) w ≡ some w')
          × Roomy n w'
          × (length w'.sends ≡ length w.sends - 1)
    unfolding wire_act
    first_try n w x few = elim (Option-cases (pick 0 w.sends)) [
      | inl stuck ↦ rw (stuck, wire_act) (w, refl, x, omega (arith, pick_first-none w.sends stuck))
      | inr ((e, sends), h) ↦
          let one = length-pick 0 w.sends h in
          let r = try-Comes o writes n e sends w x one few in
          rw (h, wire_act) (r.wire, r.is, r.roomy, omega (arith, one, ap length r.same))
    ]

    serves :
        (n l : ℕ) (w : Wire E)
        → Roomy n w
        → w.sends ≡ []
        → due_turns w ≤ l
        → (w' : Wire E) × (run_wire o (finish 0 l) w ≡ some w') × Finished w'
    unfolding run_wire wire_act
    serves n zero w x gone h = (w, refl, parked_of n w x gone (omega (arith, h)))
    serves n (suc l) w x gone h =
        let s = serve-Stepped o writes w.sends w.stream w.written w.lost n w.buffer w.stage x in
        serves n l (serve o w) s.roomy (s.same ∙ gone) (omega (arith, h, s.sooner))

    finishes :
        (n k l : ℕ) (w : Wire E)
        → Roomy n w
        → n ≤ o.capacity
        → length w.sends ≤ k
        → 2 * n + 2 ≤ l
        → (w' : Wire E) × (run_wire o (finish k l) w ≡ some w') × Finished w'
    unfolding run_wire wire_act pick
    finishes n zero l w x few h turns =
        serves n l w x (is_empty_of w.sends (omega (arith, h)))
          (omega (arith, turns, due_turns-le n w x))
    finishes n (suc k) l w x few h turns =
        let (w', e, y, less) = first_try n w x few in
        rw (e, run_wire) (finishes n k l w' y few (omega (arith, h, less)) turns)

  told_all :
      (o : Outlet E) (acts : List (WireAct E)) (k l : ℕ) (w : Wire E)
      → run_wire o (acts ++ finish k l) new_wire ≡ some w
      → Finished w
      → (w.stream ≡ o.greeting ++ write_events o.event_type o.marshal o.frame w.written)
        × ((p : E → Bool) → tally p w.written ≡ tally p (dispatched_of acts))
  unfolding write_events
  told_all o acts k l w is f =
      let all = acts ++ finish k l in
      let sent : (p : E → Bool) → Sent o p (dispatched_of all) new_wire w = λ p.
        subst (After (Sent o p (dispatched_of all) new_wire)) is (run_wire-Sent o p all new_wire) in
      let t = (sent (λ e. true)).told (record { text = refl; fine = tt; first = λ same. refl }) in
      let events = write_events o.event_type o.marshal o.frame w.written in
      (
        t.text ∙ ap (λ s. greeted o s ++ events) f.is_parked,
        λ p. omega (
          arith,
          (sent p).count,
          nothing_new p acts k l,
          ap (tally p) f.no_sends,
          ap (tally p) f.no_buffer,
          ap (tally p) f.none_lost,
          ap (λ s. tally p (in_hand s)) f.is_parked,
        ),
      )

  -- A connection stays, every event can be marshalled, and no more events are dispatched than the
  -- channel has space for. Then, whatever the goroutines and the handler have done, once each
  -- goroutine has run and the handler has had some turns more, the client has been written the
  -- greeting and behind it each event as many times as it was dispatched, and none is lost: for a
  -- spectator five events and twelve turns.
  pub finish-writes :
      (o : Outlet E) (acts : List (WireAct E)) (tries turns : ℕ)
      → ((e : E) → o.marshal e ≢ none)
      → All (λ a. a ≢ hung_up) acts
      → length (dispatched_of acts) ≤ o.capacity
      → o.capacity ≤ tries
      → 2 * o.capacity + 2 ≤ turns
      → (w : Wire E) × (run_wire o (acts ++ finish tries turns) new_wire ≡ some w)
        × (w.lost ≡ [])
        × (w.stream ≡ o.greeting ++ write_events o.event_type o.marshal o.frame w.written)
        × ((p : E → Bool) → tally p w.written ≡ tally p (dispatched_of acts))
  finish-writes o acts k l writes stays few tries turns =
      let start : Roomy {E = E} 0 new_wire = record {
        here = tt;
        kept = refl;
        fits = omega arith;
        empty = λ no. refl;
      } in
      let (v, e, x) = acts-Roomy o writes 0 acts new_wire start stays (omega (arith, few)) in
      let (w, e', f) =
        finishes o writes (length (dispatched_of acts)) k l v (Roomy-le (omega arith) x) few
          (omega (arith, x.fits, few, tries)) (omega (arith, few, turns)) in
      let is = run_wire-append o writes acts (finish k l) new_wire e ∙ e' in
      let t = told_all o acts k l w is f in (w, is, f.none_lost, t.0, t.1)
