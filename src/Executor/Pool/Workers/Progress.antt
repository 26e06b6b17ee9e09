-- ===== src/Executor/Pool/Workers/Progress.antt =====
-- How many turns a worker with a job takes to answer it.
use rogue_learn_code_battle.Base.{some_injective, lt→ltb}
use rogue_learn_code_battle.Base.{◌==◌, ==_iff, true≢false, ◌<◌}
use mathlib.Core.Path.{subst}
use rogue_learn_code_battle.Base.{
  ℕ, suc, ◌+◌, ◌≤◌, ◌≡◌, ◌≢◌, ◌⊎◌, refl, sym, ◌∙◌, ap, inl, inr, Option, none, some, List, [], ◌∷◌,
  ◌++◌, arith, text_key, Bool-cases, ltb, ltb→lt, length, if◌then◌else◌,
}
use rogue_learn_code_battle.Executor.Containers.{Docker, Containers}
use rogue_learn_code_battle.Executor.Containers.Claim.{idle_count}
use rogue_learn_code_battle.Executor.Pool.Defs.{Job, Result, empty_result}
use rogue_learn_code_battle.Executor.Pool.Workers.{
  Ticket, WorkerPhase, Caller, awaiting, returned, move, System, PoolEvent, submit, turn, reorder,
  update, deliver, submit_job, take_turn, pool_step, after,
}
use rogue_learn_code_battle.Executor.Pool.Workers.Exclusive.{update-cases, IsPool}
use rogue_learn_code_battle.Executor.Pool.Workers.Tickets.{carried, update-at}
use rogue_learn_code_battle.Executor.Pool.Workers.Turns.{due, Passes, keeps, takes, sends}
use rogue_learn_code_battle.Executor.Pool.Workers.Answers.{after-IsTracked}
use rogue_learn_code_battle.Executor.Pool.Workers.Served.{
  IsServed, turn-Serves, submit-same, after-IsServed,
}
use rogue_learn_code_battle.Executor.Pool.Workers.Tickets.{IsTracked}

-- How many turns of worker `i` the events hold.
abbrev turns : {docker : Docker} → ℕ → List (PoolEvent docker) → ℕ
turns i [] = 0
turns i (submit job ∷ es) = turns i es
turns i (reorder k ∷ es) = turns i es
turns i (turn j w ∷ es) = let rest = turns i es in if j == i then suc rest else rest

due-pos : (p : WorkerPhase) {t : Ticket} → carried p ≡ some t → 1 ≤ due p
due-pos p h = ground arith

due-le : (p : WorkerPhase) → due p ≤ 3
due-le p = ground arith

turns-cons :
    {docker : Docker} (i : ℕ) (e : PoolEvent docker) (es : List (PoolEvent docker))
    → turns i (e ∷ es) ≡ turns i (e ∷ []) + turns i es
turns-cons i (submit job) es = omega arith
turns-cons i (reorder k) es = omega arith
turns-cons i (turn j w) es = ground arith

module _ (docker : Docker) where
  open docker use {World}

  -- The call has returned, or worker `i` has its job and has spent so many turns on it.
  data Progress (t : Ticket) (i spent : ℕ) (s : System docker) : Type 0 where
    done : (r : Result) → s.callers t.number ≡ returned t.job r → Progress t i spent s
    under_way : carried (s.phases i) ≡ some t → due (s.phases i) + spent ≤ 3 → Progress t i spent s

  zero-more : {t : Ticket} {i k : ℕ} {s : System docker} → Progress t i k s → Progress t i (0 + k) s
  zero-more {t} {i} {k} {s} q = subst (λ l. Progress t i l s) (omega arith) q

  -- A call that has returned stays so.
  submit-returned :
      (m : ℕ) (job : Job) (s : System docker) (t : Ticket) {r : Result}
      → IsTracked docker m s
      → s.callers t.number ≡ returned t.job r
      → (submit_job docker m job s).callers t.number ≡ returned t.job r
  unfolding submit_job
  submit-returned m job s t {r} x e =
      let other : (a : Caller) → update s.next_number a s.callers t.number ≡ returned t.job r = λ a.
        elim (update-cases s.next_number t.number a s.callers) [
          | inl (same, at) ↦ cc (e, x.unborn_after t.number (omega (arith, same)))
          | inr (ne, off) ↦ off ∙ e
        ] in
      elim (Bool-cases (ltb (length s.jobs) m)) [
        | inl room ↦ rw (room, submit_job) (other (awaiting job))
        | inr full ↦ rw (full, submit_job) (other (returned job empty_result))
      ]

  deliver-returned :
      (m i : ℕ) (s : System docker) (t : Ticket) {p' : WorkerPhase} {jobs' : List Ticket}
      {sent : Option (Ticket × Result)} {r : Result}
      → IsTracked docker m s
      → Passes (s.phases i) s.jobs p' jobs' sent
      → s.callers t.number ≡ returned t.job r
      → deliver docker sent s.callers t.number ≡ returned t.job r
  unfolding deliver
  deliver-returned m i s t x (keeps same) e = e
  deliver-returned m i s t x (takes u empty first has) e = e
  deliver-returned m i s t {r = r} x (sends u q had) e =
      elim (update-cases u.number t.number (returned u.job q) s.callers) [
        | inl (same, at) ↦ cc (e, same, x.worked i u had)
        | inr (ne, off) ↦ off ∙ e
      ]

  -- What a worker's own turn makes of its job.
  advance :
      (t : Ticket) (k : ℕ) {p p' : WorkerPhase} {jobs jobs' : List Ticket}
      {sent : Option (Ticket × Result)} (callers : ℕ → Caller)
      → Passes p jobs p' jobs' sent
      → (carried p ≢ none → sent ≡ none → suc (due p') ≤ due p)
      → carried p ≡ some t
      → due p + k ≤ 3
      → ((r : Result) × (deliver docker sent callers t.number ≡ returned t.job r))
        ⊎ ((carried p' ≡ some t) × (due p' + suc k ≤ 3))
  unfolding deliver
  advance t k callers (keeps same) less has fits =
      inr (same ∙ has, omega (arith, fits, less (λ none. cc (none, has)) refl))
  advance t k callers (takes u empty first has') less has fits = cc (empty, has)
  advance t k callers (sends u r had) less has fits = inl (
      subst
        (λ (v : Ticket).
          (q : Result) × (update u.number (returned u.job r) callers v.number ≡ returned v.job q))
        (some_injective (sym had ∙ has)) (r, update-at u.number (returned u.job r) callers))

  module _ (n m i k : ℕ) (t : Ticket) (s : System docker) (x : IsServed n s)
      (y : IsTracked docker m s) (here : suc i ≤ n) where
    own-Progress : (w : World) → Progress t i k s → Progress t i (1 + k) (take_turn docker i w s)
    unfolding take_turn
    own-Progress w (done r e) =
        done r (deliver-returned m i s t y (turn-Serves docker n i w s x here).passes e)
    own-Progress w (under_way has fits) =
        let v = turn-Serves docker n i w s x here in
        let p' = (move docker w (s.phases i) s.jobs s.containers).phase in
        elim (advance t k s.callers v.passes v.sooner has fits) [
          | inl (r, e) ↦ done r e
          | inr (has', fits') ↦
              under_way (ap carried (update-at i p' s.phases) ∙ has')
                (omega (arith, fits', ap due (update-at i p' s.phases)))
        ]

    other-Progress :
        (j : ℕ) (w : World)
        → j ≢ i
        → suc j ≤ n
        → Progress t i k s
        → Progress t i k (take_turn docker j w s)
    unfolding take_turn
    other-Progress j w ne below (done r e) =
        done r (deliver-returned m j s t y (turn-Serves docker n j w s x below).passes e)
    other-Progress j w ne below (under_way has fits) =
        let p' = (move docker w (s.phases j) s.jobs s.containers).phase in
        elim (update-cases j i p' s.phases) [
          | inl (same, at) ↦ absurd (ne same)
          | inr (other, off) ↦ under_way (ap carried off ∙ has) (omega (arith, fits, ap due off))
        ]

    turn-Progress :
        (j : ℕ) (w : World)
        → Progress t i k s
        → Progress t i
            (turns {docker = docker} i (turn j w ∷ []) + k)
            (pool_step docker n m (turn j w) s)
    unfolding pool_step
    turn-Progress j w q = elim (Bool-cases (j == i)) [
      | inl same ↦
          let e = (==_iff j i).0 same in
          let mine : Progress t i (1 + k) (take_turn docker j w s) =
            subst (λ l. Progress t i (1 + k) (take_turn docker l w s)) (sym e) (own-Progress w q) in
          rw (same, (lt→ltb j n (omega (arith, here, e)))) mine
      | inr other ↦
          let ne : j ≢ i = λ e. true≢false (sym ((==_iff j i).1 e) ∙ other) in
          elim (Bool-cases (ltb j n)) [
            | inl below ↦ rw (other, below) (zero-more (other-Progress j w ne (ltb→lt j n below) q))
            | inr beyond ↦ rw (other, beyond) (zero-more q)
          ]
    ]

    pool_step-Progress :
        (e : PoolEvent docker)
        → Progress t i k s
        → Progress t i (turns i (e ∷ []) + k) (pool_step docker n m e s)
    unfolding pool_step
    pool_step-Progress (submit job) (done r e) = done r (submit-returned m job s t y e)
    pool_step-Progress (submit job) (under_way has fits) =
        let same = ap (λ f. f i) (submit-same docker m job s).0 in
        under_way (ap carried same ∙ has) (omega (arith, fits, ap due same))
    pool_step-Progress (turn j w) q = turn-Progress j w q
    pool_step-Progress (reorder at) (done r e) = done r e
    pool_step-Progress (reorder at) (under_way has fits) = under_way has (omega (arith, fits))

  module _ (n m : ℕ) (c : Containers) (pool : IsPool c) (enough : n ≤ idle_count c) where
    after-Progress :
        (es later : List (PoolEvent docker)) (i : ℕ) (t : Ticket)
        → suc i ≤ n
        → carried ((after docker n m c es).phases i) ≡ some t
        → Progress t i (turns i later) (after docker n m c (later ++ es))
    unfolding after
    after-Progress es [] i t here has =
        under_way has (omega (arith, due-le ((after docker n m c es).phases i)))
    after-Progress es (e ∷ later) i t here has =
        let s = after docker n m c (later ++ es) in
        subst (λ k. Progress t i k (pool_step docker n m e s)) (sym (turns-cons i e later))
          (pool_step-Progress n m i (turns i later) t s
            (after-IsServed docker n m c (later ++ es) pool enough)
            (after-IsTracked docker n m c (later ++ es)) here e
            (after-Progress es later i t here has))

  -- When the pool starts with at least as many idle containers as it has workers, a job that a worker
  -- has taken is answered by the time that worker has had three more turns, whatever calls and turns
  -- of other workers come between.
  pub three_turns-answer :
      (max_workers max_job_count : ℕ) (containers : Containers)
      (events later : List (PoolEvent docker)) (i : ℕ) (t : Ticket)
      → IsPool containers
      → max_workers ≤ idle_count containers
      → i < max_workers
      → carried ((after docker max_workers max_job_count containers events).phases i) ≡ some t
      → 3 ≤ turns i later
      → (r : Result) × ((after docker max_workers max_job_count containers
              (later ++ events)).callers
            t.number
          ≡ returned t.job r)
  three_turns-answer n m c es later i t pool enough here has three =
      elim (after-Progress n m c pool enough es later i t (omega (arith, here)) has) [
        | done r e ↦ (r, e)
        | under_way still fits ↦ absurd (omega (arith, fits, three, due-pos _ still))
      ]
