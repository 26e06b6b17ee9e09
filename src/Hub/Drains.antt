-- ===== src/Hub/Drains.antt =====
-- The loop of a room empties the room's channel.
pub mod Buffer
use rogue_learn_code_battle.Base.{
  ℕ, suc, ◌+◌, ◌≤◌, ◌<◌, ◌≡◌, ◌∙◌, ◌⊎◌, refl, sym, ap, ◌-◌, Bool, true, false, Option, none, some,
  List, [], ◌∷◌, ◌++◌, String, Text, arith, length, length-append, ltb, Has, All, inl, inr,
  Bool-cases, Option-cases,
}
use mathlib.Core.Path.{subst}
use rogue_learn_code_battle.Store.Models.{Language, TestCase}
use rogue_learn_code_battle.Events.{
  SolutionSubmitted, SolutionResult, RoomEvent, submitted, judged, joined, departed, deleted,
  other_event,
}
use rogue_learn_code_battle.Executor.Builder.{CodeBuilder, Build, built, rejected, wrong_syntax}
use rogue_learn_code_battle.Executor.Containers.{Docker, Manager}
use rogue_learn_code_battle.Executor.Pool.{Result, Job, run_job}
use rogue_learn_code_battle.Hub.Ensures.{
  Ensures, returned, errored, hung, Ensures-bind, Ensures-weaken,
}
use rogue_learn_code_battle.Hub.Exec.{Hub, Handler, Outcome, ◌>>=◌, send_event, events_capacity}
use rogue_learn_code_battle.Hub.Defs.{generate_solution_result}
use rogue_learn_code_battle.Hub.Submit.{
  Setting, arrive, or_build_failed, execute, process_solution_submitted, process_event, after, step,
  rounds,
}
use rogue_learn_code_battle.Hub.Drains.Buffer.{
  Keeps, then-Keeps, pure-Keeps, run-Keeps, guard-Keeps, process_solution_result-Keeps,
  process_player_joined-Keeps, process_player_left-Keeps, process_room_deleted-Keeps,
}

-- How many rounds the events of a channel can take: a submission leaves a verdict behind.
weight_of : RoomEvent → ℕ
weight_of (submitted _) = 2
weight_of (judged _) = 1
weight_of (joined _) = 1
weight_of (departed _) = 1
weight_of (deleted _) = 1
weight_of other_event = 1

unfoldable pub weight : List RoomEvent → ℕ
unfolding weight_of
weight [] = 0
weight (e ∷ events) = weight_of e + weight events

weight-append : (xs ys : List RoomEvent) → weight (xs ++ ys) ≡ weight xs + weight ys
unfolding weight
weight-append [] ys = omega arith
weight-append (e ∷ xs) ys = omega (arith, weight-append xs ys)

weight-nil : (events : List RoomEvent) → weight events ≤ 0 → events ≡ []
unfolding weight weight_of
weight-nil [] h = refl
weight-nil (submitted _ ∷ events) h = absurd (omega (arith, h))
weight-nil (judged _ ∷ events) h = absurd (omega (arith, h))
weight-nil (joined _ ∷ events) h = absurd (omega (arith, h))
weight-nil (departed _ ∷ events) h = absurd (omega (arith, h))
weight-nil (deleted _ ∷ events) h = absurd (omega (arith, h))
weight-nil (other_event ∷ events) h = absurd (omega (arith, h))

-- The buffer is within its capacity and its weight at most `n`.
abbrev Within : ℕ → List RoomEvent → Type 0
Within n events = (length events ≤ events_capacity) × (weight events ≤ n)

module _ (docker : Docker) (match_string : String → Text → Option Bool)
    (builder : CodeBuilder) where
  open docker use {World}

  -- Some call of ExecuteJob in this setting never returns.
  pub record Stuck (setting : Setting docker) : Type 0 where
    pub job : Job
    pub manager : Manager World
    pub never : run_job docker setting.queue setting.others job manager ≡ none

  or_build_failed-Keeps : {B : Type 0} (b : Build) → Keeps B {W = World} (or_build_failed b)
  or_build_failed-Keeps (built code) = pure-Keeps code
  or_build_failed-Keeps (rejected err) = record { keeps = λ h. errored refl }
  or_build_failed-Keeps wrong_syntax = record { keeps = λ h. errored refl }

  module _ (setting : Setting docker) (quiet : setting.arrivals ≡ []) where
    execute-Keeps :
        (language : Language) (code : Text) (cases : List TestCase)
        → Keeps (Stuck setting) (execute docker match_string builder setting language code cases)
    unfolding execute arrive
    execute-Keeps language code cases = record {
      keeps = λ h.
          let job : Job = record { language = language; code = code; test_cases = cases } in
          elim (Option-cases (run_job docker setting.queue setting.others job h.manager)) [
            | inl never ↦
                rw (never, execute)
                  (hung (record { job = job; manager = h.manager; never = never }))
            | inr (result, reply) ↦ rw (reply, execute) (returned (rw (quiet, arrive) refl))
          ];
    }

    -- From a buffer with space, a block that ends by sending one verdict.
    record Answers (events : List RoomEvent) (m : Handler World (Unit {0})) : Type 0 where
      answers :
          (h : Hub World)
          → h.room.events ≡ events
          → Ensures
              (λ _ h'. (r : SolutionResult) × (h'.room.events ≡ events ++ judged r ∷ []))
              (λ h'. h'.room.events ≡ events)
              (Stuck setting)
              (m h)

    then-Answers :
        {A : Type 0} {m : Handler World A} {f : A → Handler World (Unit {0})}
        (events : List RoomEvent)
        → Keeps (Stuck setting) m
        → ((a : A) → Answers events (f a))
        → Answers events (m >>= f)
    then-Answers events first next = record {
      answers = λ h e.
          Ensures-bind _
            (Ensures-weaken {R = λ _ h'. h'.room.events ≡ events}
              {F = λ h'. h'.room.events ≡ events} (first.keeps h) (λ _ h' same. same ∙ e)
              (λ h' same. same ∙ e))
            (λ a h₁ e₁. (next a).answers h₁ e₁);
    }

    send-Answers :
        (r : SolutionResult) (events : List RoomEvent)
        → length events < events_capacity
        → Answers events (send_event (judged r))
    send-Answers r events space = record {
      answers = λ h e. elim (Bool-cases (ltb (length h.room.events) events_capacity)) [
        | inl room ↦ rw room (returned (r, ap (λ es. es ++ judged r ∷ []) e))
        | inr full ↦ absurd (ground (arith, ap length e, space, full))
      ];
    }

    process_solution_submitted-Answers :
        (event : SolutionSubmitted) (events : List RoomEvent)
        → length events < events_capacity
        → Answers events (process_solution_submitted docker match_string builder setting event)
    unfolding process_solution_submitted
    process_solution_submitted-Answers event events space =
        let sends = λ (r : SolutionResult). send-Answers r events space in
        search (then-Answers, guard-Keeps, run-Keeps, or_build_failed-Keeps, execute-Keeps, sends)
          depth 12

    -- What processing the first event leaves of the rest.
    abbrev Shrinks : ℕ → Outcome World (Unit {0}) → Type 0
    Shrinks n =
        Ensures (λ _ h. Within n h.room.events) (λ h. Within n h.room.events) (Stuck setting)

    kept_Shrinks :
        (m : Handler World (Unit {0})) (h : Hub World) (n : ℕ)
        → Keeps (Stuck setting) m
        → Within n h.room.events
        → Shrinks n (m h)
    kept_Shrinks m h n kept within =
        Ensures-weaken (kept.keeps h) (λ _ h' same. subst (Within n) (sym same) within)
          (λ h' same. subst (Within n) (sym same) within)

    -- One event costs at least one.
    process_event-Shrinks :
        (e : RoomEvent) (h : Hub World)
        → length h.room.events < events_capacity
        → Shrinks
            (weight (e ∷ h.room.events) - 1)
            (process_event docker match_string builder setting e h)
    unfolding process_event weight weight_of
    process_event-Shrinks (submitted event) h space =
        Ensures-weaken
          ((process_solution_submitted-Answers event h.room.events space).answers h refl)
          (λ _ h' (r, sent). subst (Within _) (sym sent) (
            omega (arith, space, length-append h.room.events (judged r ∷ [])),
            omega (arith, weight-append h.room.events (judged r ∷ [])),
          ))
          (λ h' same. subst (Within _) (sym same) (omega (arith, space), omega arith))
    process_event-Shrinks (judged event) h space =
        kept_Shrinks _ h _ (process_solution_result-Keeps event) (omega (arith, space), omega arith)
    process_event-Shrinks (joined event) h space =
        kept_Shrinks _ h _ (process_player_joined-Keeps event) (omega (arith, space), omega arith)
    process_event-Shrinks (departed event) h space =
        kept_Shrinks _ h _ (process_player_left-Keeps event) (omega (arith, space), omega arith)
    process_event-Shrinks (deleted event) h space =
        kept_Shrinks _ h _ (process_room_deleted-Keeps event) (omega (arith, space), omega arith)
    process_event-Shrinks other_event h space =
        kept_Shrinks _ h _ (pure-Keeps tt) (omega (arith, space), omega arith)

    -- A round goes on with a lighter buffer, or never ends.
    data Ends (n : ℕ) : Option (Hub World) → Type 0 where
      goes_on : {h : Hub World} → Within n h.room.events → Ends n (some h)
      sticks : Stuck setting → Ends n none

    after-Ends :
        (n : ℕ) {r : Outcome World (Unit {0})}
        → Shrinks n r
        → Ends n (after docker match_string builder r)
    after-Ends n (returned within) = goes_on within
    after-Ends n (errored within) = goes_on within
    after-Ends n (hung stuck) = sticks stuck

    step-Ends :
        (h : Hub World) (events : List RoomEvent)
        → h.room.events ≡ events
        → length events ≤ events_capacity
        → Ends (weight events - 1) (step docker match_string builder setting h)
    unfolding step weight
    step-Ends h [] none_here le =
        rw (none_here, step) (goes_on (subst (Within 0) (sym none_here) (omega arith, omega arith)))
    step-Ends h (e ∷ rest) here le =
        rw (here, step)
          (after-Ends _ (
            process_event-Shrinks e (record h { room = record h.room { events = rest } })
              (omega (arith, le))))

    -- A round that ends well, or not at all.
    Ends-cases :
        (n : ℕ) (o : Option (Hub World))
        → Ends n o
        → ((h : Hub World) × (o ≡ some h) × Within n h.room.events) ⊎ ((o ≡ none) × Stuck setting)
    Ends-cases n (some h) (goes_on within) = inl (h, refl, within)
    Ends-cases n none (sticks stuck) = inr (refl, stuck)

  -- With a channel within its capacity and nothing else that arrives, the loop of a room empties
  -- the channel and waits: in at most as many rounds as two for each submission in the channel and
  -- one for each other event, since a submission leaves a verdict behind. Whatever the queries do,
  -- the only other way is a call of ExecuteJob that never returns.
  pub rounds-drain :
      (settings : List (Setting docker)) (h : Hub World)
      → All (λ (setting : Setting docker). setting.arrivals ≡ []) settings
      → length h.room.events ≤ events_capacity
      → weight h.room.events ≤ length settings
      → ((h' : Hub World) × (rounds docker match_string builder settings h ≡ some h')
          × (h'.room.events ≡ []))
        ⊎ ((rounds docker match_string builder settings h ≡ none)
            × (setting : Setting docker) × Has setting settings
            × Stuck setting)
  unfolding rounds
  rounds-drain [] h quiet le enough = inl (h, refl, weight-nil h.room.events enough)
  rounds-drain (setting ∷ settings) h quiet le enough =
      elim (Ends-cases setting quiet.0 _ _ (step-Ends setting quiet.0 h h.room.events refl le)) [
        | inl (h₁, stepped, within) ↦
            elim (rounds-drain settings h₁ quiet.1 within.0 (omega (arith, within.1, enough))) [
              | inl (h', end, empty) ↦ inl (h', rw (stepped, rounds) end, empty)
              | inr (never, culprit, has, stuck) ↦
                  inr (rw (stepped, rounds) never, culprit, inr has, stuck)
            ]
        | inr (never, stuck) ↦ inr (rw (never, rounds) refl, setting, inl refl, stuck)
      ]
