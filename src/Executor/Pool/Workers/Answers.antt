-- ===== src/Executor/Pool/Workers/Answers.antt =====
-- The jobs of the pool in any interleaving of its workers.
use mathlib.Core.Path.{subst}
use rogue_learn_code_battle.Base.{
  ℕ, zero, suc, ◌≡◌, ◌≢◌, refl, sym, ◌∙◌, ap, inl, inr, Option, none, some, List, [], ◌∷◌, arith,
  text_key, lookup, Bool-cases, Option-cases, ltb,
}
use rogue_learn_code_battle.Executor.Containers.{Docker, Containers, claim_idle}
use rogue_learn_code_battle.Executor.Pool.Defs.{Result, judge}
use rogue_learn_code_battle.Executor.Pool.Workers.{
  Ticket, WorkerPhase, waiting, claiming, marking, running, releasing, move, System, PoolEvent,
  submit, turn, reorder, swap_at, update, deliver, take_turn, pool_step, after,
}
use rogue_learn_code_battle.Executor.Pool.Workers.Exclusive.{update-cases}
use rogue_learn_code_battle.Executor.Pool.Workers.Tickets.{
  carried, IsAnswer, is_judged, IsTracked, IsTracked-fewer, IsTracked-return, awaiting-lt,
  IsTracked-take, IsTracked-submit,
}

module _ (docker : Docker) where
  open docker use {World}

  -- What a turn of a worker does with the jobs.
  data Works (p : WorkerPhase) (jobs : List Ticket)
      : WorkerPhase → List Ticket → Option (Ticket × Result) → Type 0 where
    keeps :
        {p' : WorkerPhase}
        → ((t : Ticket) → carried p' ≡ some t → carried p ≡ some t)
        → Works p jobs p' jobs none
    takes :
        {p' : WorkerPhase} {jobs' : List Ticket} (t : Ticket)
        → jobs ≡ t ∷ jobs'
        → carried p' ≡ some t
        → Works p jobs p' jobs' none
    sends :
        {p' : WorkerPhase} (t : Ticket) (r : Result)
        → carried p ≡ some t
        → carried p' ≡ none
        → IsAnswer docker t.job r
        → Works p jobs p' jobs (some (t, r))

  move-Works :
      (w : World) (p : WorkerPhase) (jobs : List Ticket) (c : Containers)
      → let r = move docker w p jobs c in Works p jobs r.phase r.jobs r.sent
  unfolding move
  move-Works w waiting [] c = keeps (λ t e. e)
  move-Works w waiting (t ∷ jobs) c = takes t refl refl
  move-Works w (claiming zero t) jobs c = keeps (λ u e. e)
  move-Works w (claiming (suc n) t) jobs c = elim (Option-cases (claim_idle c)) [
    | inl stuck ↦ rw (stuck, move) (keeps (λ u e. e))
    | inr (r, e) ↦ rw (e, move) (keeps (λ u e'. e'))
  ]
  move-Works w (marking id t) jobs c = elim (Option-cases (lookup id c)) [
    | inl missing ↦ rw (missing, move) (keeps (λ u e. cc))
    | inr (s, found) ↦ rw (found, move) (keeps (λ u e. e))
  ]
  move-Works w (running id t) jobs c =
      sends t (judge docker id t.job w).0 refl refl (is_judged id w refl)
  move-Works w (releasing id) jobs c = keeps (λ u e. cc)

  module _ (m : ℕ) where
    turned-IsTracked :
        (s : System docker) (i : ℕ) {p : WorkerPhase} {jobs : List Ticket} (c : Containers)
        {sent : Option (Ticket × Result)}
        → IsTracked docker m s
        → Works (s.phases i) s.jobs p jobs sent
        → IsTracked docker m (record s {
          jobs = jobs;
          phases = update i p s.phases;
          containers = c;
          callers = deliver docker sent s.callers;
        })
    unfolding deliver
    turned-IsTracked s i {p = p} c x (keeps same) =
        IsTracked-fewer docker m s (update i p s.phases) c x (λ j t e.
          elim (update-cases i j p s.phases) [
            | inl (here, at) ↦
                subst (λ k. carried (s.phases k) ≡ some t) here (same t (sym (ap carried at) ∙ e))
            | inr (other, off) ↦ sym (ap carried off) ∙ e
          ])
    turned-IsTracked s i {p = p} {jobs = jobs} c x (takes t first has) =
        IsTracked-take docker m s i p t jobs c x first has
    turned-IsTracked s i {p = p} c x (sends t r had has good) =
        let dropped : (j : ℕ) (u : Ticket)
            → carried (update i p s.phases j) ≡ some u
            → (i ≢ j) × (carried (s.phases j) ≡ some u) =
          λ j u e. elim (update-cases i j p s.phases) [
            | inl (here, at) ↦ cc (at, e, has)
            | inr (other, off) ↦ (other, sym (ap carried off) ∙ e)
          ] in
        IsTracked-return docker m (record s { phases = update i p s.phases; containers = c })
          t.number s.next_number t.job r
          (IsTracked-fewer docker m s (update i p s.phases) c x (λ j u e. (dropped j u e).1))
          (omega arith) (awaiting-lt docker m s t.number x (x.worked i t had)) (x.off_queue i t had)
          (λ j u e same. (dropped j u e).0 (x.apart i j t u had (dropped j u e).1 (sym same))) good

    pool_step-IsTracked :
        (max_workers : ℕ) (e : PoolEvent docker) (s : System docker)
        → IsTracked docker m s
        → IsTracked docker m (pool_step docker max_workers m e s)
    unfolding pool_step take_turn
    pool_step-IsTracked n (submit job) s x = IsTracked-submit docker m s job x
    pool_step-IsTracked n (turn i w) s x = elim (Bool-cases (ltb i n)) [
      | inl here ↦
          rw (here, take_turn)
            (turned-IsTracked s i (move docker w (s.phases i) s.jobs s.containers).containers x
              (move-Works w (s.phases i) s.jobs s.containers))
      | inr beyond ↦ rw beyond x
    ]
    pool_step-IsTracked n (reorder k) s x =
        IsTracked-fewer docker m s s.phases (swap_at k s.containers) x (λ i t e. e)

  -- In every interleaving of the calls of ExecuteJob with the turns of the workers, each job in the
  -- channel or in a worker's hands is that of a call that still waits, no job is in two places, the
  -- channel holds at most its capacity, and a call that has returned has either the empty result of
  -- a full channel or what running its own job in some container gave.
  pub after-IsTracked :
      (max_workers max_job_count : ℕ) (containers : Containers) (events : List (PoolEvent docker))
      → IsTracked docker max_job_count (after docker max_workers max_job_count containers events)
  unfolding after
  after-IsTracked n m c [] = record {
    fits = omega arith;
    queued = tt;
    distinct = tt;
    worked = λ i t e. cc;
    off_queue = λ i t e. cc;
    apart = λ i j t u e f g. cc;
    unborn_after = λ k h. refl;
    answers = λ k j r e. cc;
  }
  after-IsTracked n m c (e ∷ es) =
      pool_step-IsTracked m n e (after docker n m c es) (after-IsTracked n m c es)
