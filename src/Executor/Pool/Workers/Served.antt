-- ===== src/Executor/Pool/Workers/Served.antt =====
-- The pool with a container for each worker: no job is lost.
use mathlib.Core.Path.{subst}
use rogue_learn_code_battle.Base.{some_injective}
use rogue_learn_code_battle.Base.{
  ℕ, suc, ◌+◌, ◌≤◌, ◌≡◌, ◌⊎◌, refl, sym, ◌∙◌, ap, inl, inr, Option, some, List, [], ◌∷◌, ◌++◌,
  arith, text_key, Bool-cases, ltb, ltb→lt, length, Has,
}
use rogue_learn_code_battle.Executor.Containers.{Docker, Containers}
use rogue_learn_code_battle.Executor.Containers.Claim.{idle_count}
use rogue_learn_code_battle.Executor.Pool.Defs.{Job, Result, empty_result}
use rogue_learn_code_battle.Executor.Pool.Workers.{
  Ticket, WorkerPhase, Caller, awaiting, returned, move, System, PoolEvent, submit, turn, reorder,
  update, deliver, submit_job, take_turn, pool_step, after,
}
use rogue_learn_code_battle.Executor.Pool.Workers.Exclusive.{
  update-cases, IsPool, IsExclusive, pool_step-IsExclusive, take_turn-IsExclusive,
  after-IsExclusive,
}
use rogue_learn_code_battle.Executor.Pool.Workers.Order.{idle_count-swap_at}
use rogue_learn_code_battle.Executor.Pool.Workers.Tickets.{carried, update-at}
use rogue_learn_code_battle.Executor.Pool.Workers.Turns.{
  Passes, keeps, takes, sends, Serves, IsReady, move-Serves,
}
use rogue_learn_code_battle.Executor.Pool.Workers.Counts.{holders, holders-lt, holders-update}

Has-append : {A : Type 0} (a : A) (xs ys : List A) → Has a xs → Has a (xs ++ ys)
Has-append a [] ys h = elim h [ ]
Has-append a (x ∷ xs) ys (inl e) = inl e
Has-append a (x ∷ xs) ys (inr h) = inr (Has-append a xs ys h)

Has-last : {A : Type 0} (a : A) (xs : List A) (x : A) → a ≡ x → Has a (xs ++ (x ∷ []))
Has-last a [] x e = inl e
Has-last a (y ∷ xs) x e = inr (Has-last a xs x e)

same_as :
    {n : ℕ} {job : Job} (t : Ticket)
    → n ≡ t.number
    → job ≡ t.job
    → t ≡ record { number = n; job = job }
same_as t e f = λ k. record { number = sym e k; job = sym f k }

awaiting_injective : {j l : Job} → awaiting j ≡ awaiting l → j ≡ l
awaiting_injective e = cc (e)

-- The ticket is in the channel, or one of the first `n` workers has it.
abbrev pub IsPlaced : ℕ → Ticket → List Ticket → (ℕ → WorkerPhase) → Type 0
IsPlaced n t jobs phases = Has t jobs ⊎ ((i : ℕ) × (suc i ≤ n) × (carried (phases i) ≡ some t))

carried-update :
    (i j : ℕ) (p' : WorkerPhase) (phases : ℕ → WorkerPhase) {t : Ticket}
    → (carried (phases i) ≡ some t → carried p' ≡ some t)
    → carried (phases j) ≡ some t
    → carried (update i p' phases j) ≡ some t
carried-update i j p' phases {t} f e = elim (update-cases i j p' phases) [
  | inl (same, at) ↦ ap carried at ∙ f (ap (λ k. carried (phases k)) same ∙ e)
  | inr (other, off) ↦ ap carried off ∙ e
]

IsPlaced-turn :
    (docker : Docker) (n i : ℕ) (t : Ticket) {p' : WorkerPhase} {jobs jobs' : List Ticket}
    {sent : Option (Ticket × Result)} (phases : ℕ → WorkerPhase) (callers : ℕ → Caller)
    → suc i ≤ n
    → Passes (phases i) jobs p' jobs' sent
    → deliver docker sent callers t.number ≡ awaiting t.job
    → (callers t.number ≡ awaiting t.job → IsPlaced n t jobs phases)
    → IsPlaced n t jobs' (update i p' phases)
unfolding deliver
IsPlaced-turn docker n i t {p'} phases callers here (keeps same) e old = elim (old e) [
  | inl queued ↦ inl queued
  | inr (j, below, has) ↦ inr (j, below, carried-update i j p' phases (λ e. same ∙ e) has)
]
IsPlaced-turn docker n i t {p'} phases callers here (takes u empty first has) e old =
    elim (subst (λ l. IsPlaced n t l phases) first (old e)) [
      | inl (inl same) ↦
          inr (i, here, ap carried (update-at i p' phases) ∙ (has ∙ ap some (sym same)))
      | inl (inr later) ↦ inl later
      | inr (j, below, has') ↦
          inr (j, below, carried-update i j p' phases (λ e. cc (empty, e)) has')
    ]
IsPlaced-turn docker n i t {p'} phases callers here (sends u r had) e old =
    elim (update-cases u.number t.number (returned u.job r) callers) [
      | inl (same, at) ↦ cc (at, e)
      | inr (other, off) ↦ elim (old (sym off ∙ e)) [
        | inl queued ↦ inl queued
        | inr (j, below, has) ↦ inr (
          j,
          below,
          carried-update i j p' phases
              (λ e. absurd (other (ap (λ (v : Ticket). v.number) (some_injective (sym had ∙ e)))))
              has,
        )
      ]
    ]

-- Each worker can go on, a container is idle for each worker that has none, and each call that waits
-- has its job in the channel or in the hands of a worker.
pub record IsServed (n : ℕ) {docker : Docker} (s : System docker) : Type 0 where
  pub exclusive : IsExclusive s
  pub ready : (i : ℕ) → IsReady (s.phases i)
  pub spare : n ≤ idle_count s.containers + holders n s.phases
  pub placed : (t : Ticket) → s.callers t.number ≡ awaiting t.job → IsPlaced n t s.jobs s.phases

module _ (docker : Docker) where
  open docker use {World}

  pub turn-Serves :
      (n i : ℕ) (w : World) (s : System docker)
      → IsServed n s
      → suc i ≤ n
      → Serves (s.phases i) s.jobs s.containers (move docker w (s.phases i) s.jobs s.containers)
  turn-Serves n i w s x here =
      move-Serves docker w (s.phases i) s.jobs s.containers x.exclusive.pool (x.ready i)
        (x.exclusive.is_busy i)
        (λ free none. omega (arith, x.spare, none, holders-lt n i s.phases here free))

  IsServed-turn :
      (n i : ℕ) (w : World) (s : System docker)
      → IsServed n s
      → suc i ≤ n
      → IsExclusive (take_turn docker i w s)
      → IsServed n (take_turn docker i w s)
  unfolding take_turn
  IsServed-turn n i w s x here still =
      let v = turn-Serves n i w s x here in
      let p' = (move docker w (s.phases i) s.jobs s.containers).phase in
      record {
        exclusive = still;
        ready = λ j. elim (update-cases i j p' s.phases) [
          | inl (same, at) ↦ subst IsReady (sym at) v.ready
          | inr (other, off) ↦ subst IsReady (sym off) (x.ready j)
        ];
        spare = omega (arith, x.spare, v.balance, holders-update n i p' s.phases here);
        placed = λ t e. IsPlaced-turn docker n i t s.phases s.callers here v.passes e (x.placed t);
      }

  placed-submit :
      (n m : ℕ) (job : Job) (s : System docker)
      → IsServed n s
      → (t : Ticket) → (submit_job docker m job s).callers t.number ≡ awaiting t.job
      → IsPlaced n t (submit_job docker m job s).jobs (submit_job docker m job s).phases
  unfolding submit_job
  placed-submit n m job s x t e = elim (Bool-cases (ltb (length s.jobs) m)) [
    | inl room ↦
        let e' : update s.next_number (awaiting job) s.callers t.number ≡ awaiting t.job =
          rw (room, submit_job) at e in
        rw (room, submit_job)
          (elim (update-cases s.next_number t.number (awaiting job) s.callers) [
            | inl (same, at) ↦
                inl (Has-last t s.jobs _ (same_as t same (awaiting_injective (sym at ∙ e'))))
            | inr (other, off) ↦ elim (x.placed t (sym off ∙ e')) [
              | inl queued ↦ inl (Has-append t s.jobs _ queued)
              | inr hands ↦ inr hands
            ]
          ])
    | inr full ↦
        let e' : update s.next_number (returned job empty_result) s.callers t.number
            ≡ awaiting t.job =
          rw (full, submit_job) at e in
        rw (full, submit_job)
          (elim (update-cases s.next_number t.number (returned job empty_result) s.callers) [
            | inl (same, at) ↦ cc (at, e')
            | inr (other, off) ↦ x.placed t (sym off ∙ e')
          ])
  ]

  pub submit-same :
      (m : ℕ) (job : Job) (s : System docker)
      → ((submit_job docker m job s).phases ≡ s.phases)
        × ((submit_job docker m job s).containers ≡ s.containers)
  unfolding submit_job
  submit-same m job s = elim (Bool-cases (ltb (length s.jobs) m)) [
    | inl room ↦ rw (room, submit_job) (refl, refl)
    | inr full ↦ rw (full, submit_job) (refl, refl)
  ]

  pub pool_step-IsServed :
      (n m : ℕ) (e : PoolEvent docker) (s : System docker)
      → IsServed n s
      → IsServed n (pool_step docker n m e s)
  unfolding pool_step submit_job
  pool_step-IsServed n m (submit job) s x =
      let (phases, containers) = submit-same m job s in
      record {
        exclusive = pool_step-IsExclusive docker n m (submit job) s x.exclusive;
        ready = λ i. subst IsReady (sym (ap (λ f. f i) phases)) (x.ready i);
        spare = omega (arith, x.spare, ap idle_count containers, ap (holders n) phases);
        placed = placed-submit n m job s x;
      }
  pool_step-IsServed n m (turn i w) s x = elim (Bool-cases (ltb i n)) [
    | inl here ↦
        rw here (
          IsServed-turn n i w s x (ltb→lt i n here)
            (take_turn-IsExclusive docker i w s x.exclusive))
    | inr beyond ↦ rw beyond x
  ]
  pool_step-IsServed n m (reorder k) s x = record {
    exclusive = pool_step-IsExclusive docker n m (reorder k) s x.exclusive;
    ready = x.ready;
    spare = omega (arith, x.spare, idle_count-swap_at k s.containers);
    placed = x.placed;
  }

  -- When the pool starts with at least as many idle containers as it has workers, then in every
  -- interleaving no job is lost: each call of ExecuteJob that waits has its job in the channel or in
  -- the hands of one of the workers, each of which can go on.
  pub after-IsServed :
      (max_workers max_job_count : ℕ) (containers : Containers) (events : List (PoolEvent docker))
      → IsPool containers
      → max_workers ≤ idle_count containers
      → IsServed max_workers (after docker max_workers max_job_count containers events)
  unfolding after
  after-IsServed n m c [] pool enough = record {
    exclusive = after-IsExclusive docker n m c [] pool;
    ready = λ i. tt;
    spare = omega (arith, enough);
    placed = λ t e. cc;
  }
  after-IsServed n m c (e ∷ es) pool enough =
      pool_step-IsServed n m e (after docker n m c es) (after-IsServed n m c es pool enough)
