-- ===== src/Executor/Pool/Workers/Turns.antt =====
-- What one turn of a worker does in a pool that has a container for it.
use rogue_learn_code_battle.Base.{
  ℕ, zero, suc, ◌+◌, ◌≤◌, ◌≡◌, ◌≢◌, refl, inl, inr, Option, none, some, List, [], ◌∷◌, arith, Text,
  text_key, lookup, Option-cases,
}
use rogue_learn_code_battle.Executor.Containers.{Docker, Containers, idle, busy, claim_idle}
use rogue_learn_code_battle.Executor.Containers.Claim.{
  idle_count, claim_idle-none, claim_idle-Takes, Takes,
}
use rogue_learn_code_battle.Executor.Pool.Defs.{Result, judge}
use rogue_learn_code_battle.Executor.Pool.Workers.{
  Ticket, WorkerPhase, waiting, claiming, marking, running, releasing, Move, move,
}
use rogue_learn_code_battle.Executor.Pool.Workers.Exclusive.{held, IsPool}
use rogue_learn_code_battle.Executor.Pool.Workers.Tickets.{carried}
use rogue_learn_code_battle.Executor.Pool.Workers.Counts.{weight, idle_count-set_state}

-- A worker that can go on: its tries are not used up, and it was given a container.
abbrev pub IsReady : WorkerPhase → Type 0
IsReady (claiming zero t) = ⊥
IsReady (marking [] t) = ⊥
IsReady _ = Unit

-- How many turns a worker with a job has to go.
abbrev pub due : WorkerPhase → ℕ
due (claiming n t) = 3
due (marking id t) = 2
due (running id t) = 1
due _ = 0

-- What a turn does with the jobs, none of which it loses.
pub data Passes (p : WorkerPhase) (jobs : List Ticket)
    : WorkerPhase → List Ticket → Option (Ticket × Result) → Type 0 where
  keeps : {p' : WorkerPhase} → carried p' ≡ carried p → Passes p jobs p' jobs none
  takes :
      {p' : WorkerPhase} {jobs' : List Ticket} (t : Ticket)
      → carried p ≡ none
      → jobs ≡ t ∷ jobs'
      → carried p' ≡ some t
      → Passes p jobs p' jobs' none
  sends :
      {p' : WorkerPhase} (t : Ticket) (r : Result)
      → carried p ≡ some t
      → Passes p jobs p' jobs (some (t, r))

-- What a turn of a worker does when it holds a container that is busy, or one is idle.
pub record Serves (p : WorkerPhase) (jobs : List Ticket) (c : Containers) (m : Move) : Type 0 where
  pub ready : IsReady m.phase
  pub balance : idle_count m.containers + weight m.phase ≡ idle_count c + weight p
  pub passes : Passes p jobs m.phase m.jobs m.sent
  pub sooner : carried p ≢ none → m.sent ≡ none → suc (due m.phase) ≤ due p

Serves-claim :
    (n : ℕ) (t : Ticket) (jobs : List Ticket) (c : Containers) (id : Text) (c' : Containers)
    → IsPool c
    → Takes c id c'
    → Serves
        (claiming (suc n) t)
        jobs
        c
        (record { phase = marking id t; jobs = jobs; containers = c'; sent = none })
Serves-claim n t jobs c [] c' pool taken = cc (pool.nameless, taken.was_idle)
Serves-claim n t jobs c (b ∷ bs) c' pool taken = record {
  ready = tt;
  balance = omega (arith, taken.one_less);
  passes = keeps refl;
  sooner = λ some_job e. omega arith;
}

module _ (docker : Docker) where
  open docker use {World}

  pub move-Serves :
      (w : World) (p : WorkerPhase) (jobs : List Ticket) (c : Containers)
      → IsPool c
      → IsReady p
      → ((id : Text) → held p ≡ some id → lookup id c ≡ some busy)
      → (weight p ≡ 0 → idle_count c ≢ 0)
      → Serves p jobs c (move docker w p jobs c)
  unfolding move
  move-Serves w waiting [] c pool r has some_idle = record {
    ready = tt;
    balance = refl;
    passes = keeps refl;
    sooner = λ some_job e. absurd (some_job refl);
  }
  move-Serves w waiting (t ∷ jobs) c pool r has some_idle = record {
    ready = tt;
    balance = refl;
    passes = takes t refl refl refl;
    sooner = λ some_job e. absurd (some_job refl);
  }
  move-Serves w (claiming zero t) jobs c pool r has some_idle = elim r [ ]
  move-Serves w (claiming (suc n) t) jobs c pool r has some_idle =
      elim (Option-cases (claim_idle c)) [
        | inl stuck ↦ absurd (some_idle refl ((claim_idle-none c).0 stuck))
        | inr (found, e) ↦
            rw (e, move)
              (Serves-claim n t jobs c found.0 found.1 pool (claim_idle-Takes c pool.unique e))
      ]
  move-Serves w (marking [] t) jobs c pool r has some_idle = elim r [ ]
  move-Serves w (marking (b ∷ bs) t) jobs c pool r has some_idle =
      let is_busy = has (b ∷ bs) refl in
      rw (is_busy, move)
        (record {
          ready = tt;
          balance = omega (arith, idle_count-set_state (b ∷ bs) busy busy c is_busy);
          passes = keeps refl;
          sooner = λ some_job e. omega arith;
        })
  move-Serves w (running id t) jobs c pool r has some_idle = record {
    ready = tt;
    balance = refl;
    passes = sends t (judge docker id t.job w).0 refl;
    sooner = λ some_job e. cc;
  }
  move-Serves w (releasing id) jobs c pool r has some_idle = record {
    ready = tt;
    balance = omega (arith, idle_count-set_state id idle busy c (has id refl));
    passes = keeps refl;
    sooner = λ some_job e. absurd (some_job refl);
  }
