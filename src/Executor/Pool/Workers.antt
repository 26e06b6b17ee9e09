-- ===== src/Executor/Pool/Workers.antt =====
-- internal/executor/worker_pool.go: the workers' goroutines over one channel of jobs, with
-- GetAvailableContainer and SetContainerState of container_manager.go, interleaved in any order.
pub mod Exclusive
pub mod Tickets
pub mod Answers
mod Order
mod Counts
mod Turns
pub mod Served
pub mod Progress
pub mod Start
pub mod Filled
use rogue_learn_code_battle.Base.{
  ℕ, zero, suc, ◌+◌, Option, none, some, List, [], ◌∷◌, ◌++◌, Text, text_key, length, ltb, ◌==◌,
  if◌then◌else◌, lookup,
}
use rogue_learn_code_battle.Executor.Containers.{
  Docker, Containers, idle, busy, claim_idle, set_state, max_retries,
}
use rogue_learn_code_battle.Executor.Pool.Defs.{Job, Result, judge, empty_result}

-- The entry at `k` and the one behind it, swapped.
abbrev pub swap_at : ℕ → Containers → Containers
swap_at zero (x ∷ y ∷ c) = y ∷ x ∷ c
swap_at zero c = c
swap_at (suc k) [] = []
swap_at (suc k) (x ∷ c) = x ∷ swap_at k c

-- A job in the pool, under the number of the call of ExecuteJob that waits on its channel.
pub record Ticket : Type 0 where
  pub number : ℕ
  pub job : Job

-- Where a worker's goroutine stands: in the select; in GetAvailableContainer with so many tries
-- left; before the call of SetContainerState; in the container; or before its deferred call.
pub data WorkerPhase : Type 0 where
  waiting : WorkerPhase
  claiming : ℕ → Ticket → WorkerPhase
  marking running : Text → Ticket → WorkerPhase
  releasing : Text → WorkerPhase

-- What a call of ExecuteJob has come to.
pub data Caller : Type 0 where
  unborn : Caller
  awaiting : Job → Caller
  returned : Job → Result → Caller

-- What one turn of a worker leaves, and the result that it sent.
pub record Move : Type 0 where
  pub phase : WorkerPhase
  pub jobs : List Ticket
  pub containers : Containers
  pub sent : Option (Ticket × Result)

-- `f` with another value at `i`.
abbrev pub update {ℓ} : {A : Type ℓ} → ℕ → A → (ℕ → A) → ℕ → A
update i a f j = if i == j then a else f j

module _ (docker : Docker) where
  open docker use {World}

  -- One turn of a worker, up to its next use of what the goroutines share: the channel, the map of
  -- containers, or the channel of a result. `w` is the world as its commands in the container meet
  -- it. The channel of the shutdown is never written nor closed.
  unfoldable pub move : World → WorkerPhase → List Ticket → Containers → Move
  move w waiting [] c = record { phase = waiting; jobs = []; containers = c; sent = none }
  move w waiting (t ∷ jobs) c = record {
    phase = claiming max_retries t;
    jobs = jobs;
    containers = c;
    sent = none;
  }
  move w (claiming zero t) jobs c = record {
    phase = marking [] t;
    jobs = jobs;
    containers = c;
    sent = none;
  }
  move w (claiming (suc tries) t) jobs c = elim (claim_idle c) [
    | none ↦ record { phase = claiming tries t; jobs = jobs; containers = c; sent = none }
    | some (id, c') ↦ record { phase = marking id t; jobs = jobs; containers = c'; sent = none }
  ]
  move w (marking id t) jobs c = elim (lookup id c) [
    | none ↦ record { phase = waiting; jobs = jobs; containers = c; sent = none }
    | some _ ↦ record {
      phase = running id t;
      jobs = jobs;
      containers = set_state id busy c;
      sent = none;
    }
  ]
  move w (running id t) jobs c = record {
    phase = releasing id;
    jobs = jobs;
    containers = c;
    sent = some (t, (judge docker id t.job w).0);
  }
  move w (releasing id) jobs c = record {
    phase = waiting;
    jobs = jobs;
    containers = set_state id idle c;
    sent = none;
  }

  -- The pool: the channel of jobs, the goroutines of its workers, and the calls of ExecuteJob.
  pub record System : Type 0 where
    pub jobs : List Ticket
    pub phases : ℕ → WorkerPhase
    pub containers : Containers
    pub callers : ℕ → Caller
    pub next_number : ℕ

  -- A call of ExecuteJob, one turn of a worker, or a change of the order in which a range over the
  -- map of containers meets two of them: Go's order is another at each range.
  pub data PoolEvent : Type 0 where
    submit : Job → PoolEvent
    turn : ℕ → World → PoolEvent
    reorder : ℕ → PoolEvent

  -- The receive of a result by the call that waits on its channel.
  unfoldable pub deliver : Option (Ticket × Result) → (ℕ → Caller) → ℕ → Caller
  deliver none callers = callers
  deliver (some (t, result)) callers = update t.number (returned t.job result) callers

  -- The select of ExecuteJob, on a channel for `max_job_count` jobs.
  unfoldable pub submit_job : ℕ → Job → System → System
  submit_job max_job_count job s =
      if ltb (length s.jobs) max_job_count
      then record s {
        jobs = s.jobs ++ (record { number = s.next_number; job = job } ∷ []);
        callers = update s.next_number (awaiting job) s.callers;
        next_number = suc s.next_number;
      }
      else record s {
        callers = update s.next_number (returned job empty_result) s.callers;
        next_number = suc s.next_number;
      }

  unfoldable pub take_turn : ℕ → World → System → System
  unfolding move deliver
  take_turn i w s =
      let m = move w (s.phases i) s.jobs s.containers in
      record s {
        jobs = m.jobs;
        phases = update i m.phase s.phases;
        containers = m.containers;
        callers = deliver m.sent s.callers;
      }

  -- One step, with `max_workers` workers.
  unfoldable pub pool_step : ℕ → ℕ → PoolEvent → System → System
  unfolding submit_job take_turn
  pool_step max_workers max_job_count (submit job) s = submit_job max_job_count job s
  pool_step max_workers max_job_count (turn i w) s =
      if ltb i max_workers then take_turn i w s else s
  pool_step max_workers max_job_count (reorder k) s = record s {
    containers = swap_at k s.containers;
  }

  -- NewWorkerPool behind InitializePool.
  abbrev pub new_pool : Containers → System
  new_pool containers = record {
    jobs = [];
    phases = λ i. waiting;
    containers = containers;
    callers = λ n. unborn;
    next_number = 0;
  }

  -- The pool after the events, the last of them in front.
  unfoldable pub after : ℕ → ℕ → Containers → List PoolEvent → System
  unfolding pool_step
  after max_workers max_job_count containers [] = new_pool containers
  after max_workers max_job_count containers (e ∷ es) =
      pool_step max_workers max_job_count e (after max_workers max_job_count containers es)
