-- ===== src/Executor/Pool/Workers/Tickets.antt =====
-- The jobs in the pool and the calls of ExecuteJob that wait for them.
use mathlib.Core.Path.{subst, subst₂}
use rogue_learn_code_battle.Base.{All-snoc}
use rogue_learn_code_battle.Base.{some_injective}
use rogue_learn_code_battle.Base.{
  ℕ, suc, ◌≤◌, ◌≡◌, ◌≢◌, refl, sym, ◌∙◌, ap, inl, inr, Option, none, some, List, [], ◌∷◌, ◌++◌,
  arith, Text, text_key, Bool-cases, ltb, ltb→lt, ltb→le, length, length-append, All,
}
use rogue_learn_code_battle.Executor.Containers.{Docker, Containers}
use rogue_learn_code_battle.Executor.Pool.Defs.{Job, Result, judge, empty_result}
use rogue_learn_code_battle.Executor.Pool.Workers.{
  Ticket, WorkerPhase, claiming, marking, running, unborn, awaiting, returned, System, update,
  submit_job,
}
use rogue_learn_code_battle.Executor.Pool.Workers.Exclusive.{update-cases}

-- The job in a worker's hands that it has not answered.
abbrev pub carried : WorkerPhase → Option Ticket
carried (claiming n t) = some t
carried (marking id t) = some t
carried (running id t) = some t
carried _ = none

-- No ticket of the list has the number.
abbrev pub Lacks : ℕ → List Ticket → Type 0
Lacks n = All (λ u. u.number ≢ n)

abbrev pub Distinct : List Ticket → Type 0
Distinct [] = Unit
Distinct (t ∷ ts) = Lacks t.number ts × Distinct ts

All-zip :
    {P Q R : Ticket → Type 0} (ts : List Ticket)
    → ((t : Ticket) → P t → Q t → R t)
    → All P ts
    → All Q ts
    → All R ts
All-zip [] f p q = tt
All-zip (t ∷ ts) f p q = (f t p.0 q.0, All-zip ts f p.1 q.1)

Distinct-snoc :
    (ts : List Ticket) (t : Ticket) → Distinct ts → Lacks t.number ts → Distinct (ts ++ (t ∷ []))
Distinct-snoc [] t d l = (tt, tt)
Distinct-snoc (u ∷ ts) t d l =
    (All-snoc (λ v. v.number ≢ u.number) ts t d.0 (λ e. l.0 (sym e)), Distinct-snoc ts t d.1 l.1)

pub update-at : {A : Type 0} (i : ℕ) (a : A) (f : ℕ → A) → update i a f i ≡ a
update-at i a f = elim (update-cases i i a f) [
  | inl (same, at) ↦ at
  | inr (other, off) ↦ absurd (other refl)
]

same_ticket :
    {p q : WorkerPhase} {t u : Ticket} → carried p ≡ some t → q ≡ p → carried q ≡ some u → t ≡ u
same_ticket has at f = some_injective (sym has ∙ (sym (ap carried at) ∙ f))

module _ (docker : Docker) where
  open docker use {World}

  -- What ExecuteJob may return: the result of a full channel, or what a worker made of the job.
  pub data IsAnswer (job : Job) (r : Result) : Type 0 where
    is_full : r ≡ empty_result → IsAnswer job r
    is_judged : (id : Text) (w : World) → r ≡ (judge docker id job w).0 → IsAnswer job r

  -- Each job in the channel or in a worker's hands is the job of a call that waits; no job is in two
  -- places; the channel keeps to its capacity; and what a call returned is an answer to its job.
  pub record IsTracked (max_job_count : ℕ) (s : System docker) : Type 0 where
    pub fits : length s.jobs ≤ max_job_count
    pub queued : All (λ t. s.callers t.number ≡ awaiting t.job) s.jobs
    pub distinct : Distinct s.jobs
    pub worked :
        (i : ℕ) (t : Ticket) → carried (s.phases i) ≡ some t → s.callers t.number ≡ awaiting t.job
    pub off_queue : (i : ℕ) (t : Ticket) → carried (s.phases i) ≡ some t → Lacks t.number s.jobs
    pub apart :
        (i j : ℕ) (t u : Ticket)
        → carried (s.phases i) ≡ some t
        → carried (s.phases j) ≡ some u
        → t.number ≡ u.number
        → i ≡ j
    pub unborn_after : (n : ℕ) → s.next_number ≤ n → s.callers n ≡ unborn
    pub answers : (n : ℕ) (job : Job) (r : Result) → s.callers n ≡ returned job r → IsAnswer job r

  module _ (m : ℕ) where
    -- Fewer jobs in the workers' hands.
    pub IsTracked-fewer :
        (s : System docker) (phases : ℕ → WorkerPhase) (c : Containers)
        → IsTracked m s
        → ((i : ℕ) (t : Ticket) → carried (phases i) ≡ some t → carried (s.phases i) ≡ some t)
        → IsTracked m (record s { phases = phases; containers = c })
    IsTracked-fewer s phases c x f = record {
      fits = x.fits;
      queued = x.queued;
      distinct = x.distinct;
      worked = λ i t e. x.worked i t (f i t e);
      off_queue = λ i t e. x.off_queue i t (f i t e);
      apart = λ i j t u e g. x.apart i j t u (f i t e) (f j u g);
      unborn_after = x.unborn_after;
      answers = x.answers;
    }

    -- A call whose job is in no place returns.
    pub IsTracked-return :
        (s : System docker) (n next : ℕ) (job : Job) (r : Result)
        → IsTracked m s
        → s.next_number ≤ next
        → suc n ≤ next
        → Lacks n s.jobs
        → ((i : ℕ) (t : Ticket) → carried (s.phases i) ≡ some t → t.number ≢ n)
        → IsAnswer job r
        → IsTracked m
            (record s { callers = update n (returned job r) s.callers; next_number = next })
    IsTracked-return s n next job r x later below lacks idle good = record {
      fits = x.fits;
      queued =
          All-zip s.jobs
            (λ t e ne. elim (update-cases n t.number (returned job r) s.callers) [
              | inl (same, at) ↦ absurd (ne (sym same))
              | inr (other, off) ↦ off ∙ e
            ])
            x.queued lacks;
      distinct = x.distinct;
      worked = λ i t e. elim (update-cases n t.number (returned job r) s.callers) [
        | inl (same, at) ↦ absurd (idle i t e (sym same))
        | inr (other, off) ↦ off ∙ x.worked i t e
      ];
      off_queue = x.off_queue;
      apart = x.apart;
      unborn_after = λ k h. elim (update-cases n k (returned job r) s.callers) [
        | inl (same, at) ↦ absurd (omega (arith, same, h, below))
        | inr (other, off) ↦ off ∙ x.unborn_after k (omega (arith, h, later))
      ];
      answers = λ k j q e. elim (update-cases n k (returned job r) s.callers) [
        | inl (same, at) ↦
            let same_answer : returned job r ≡ returned j q = sym at ∙ e in
            subst₂ IsAnswer (cc same_answer) (cc same_answer) good
        | inr (other, off) ↦ x.answers k j q (sym off ∙ e)
      ];
    }

    -- A number that a call waits under was given out.
    pub awaiting-lt :
        (s : System docker) (n : ℕ) {job : Job}
        → IsTracked m s
        → s.callers n ≡ awaiting job
        → suc n ≤ s.next_number
    awaiting-lt s n x e = elim (Bool-cases (ltb n s.next_number)) [
      | inl below ↦ omega (arith, ltb→lt n s.next_number below)
      | inr above ↦ absurd (cc (e, x.unborn_after n (ltb→le n s.next_number above)))
    ]

    -- A worker receives the first job of the channel.
    pub IsTracked-take :
        (s : System docker) (i : ℕ) (p : WorkerPhase) (t : Ticket) (jobs : List Ticket)
        (c : Containers)
        → IsTracked m s
        → s.jobs ≡ t ∷ jobs
        → carried p ≡ some t
        → IsTracked m (record s { jobs = jobs; phases = update i p s.phases; containers = c })
    IsTracked-take s i p t jobs c x e has =
        let queued : All (λ (u : Ticket). s.callers u.number ≡ awaiting u.job) (t ∷ jobs) =
          subst (All (λ u. s.callers u.number ≡ awaiting u.job)) e x.queued in
        let distinct : Distinct (t ∷ jobs) = subst Distinct e x.distinct in
        let lacks : (u : Ticket) → Lacks u.number s.jobs → Lacks u.number (t ∷ jobs) =
          λ u. subst (Lacks u.number) e in
        record {
          fits = omega (arith, ap length e, x.fits);
          queued = queued.1;
          distinct = distinct.1;
          worked = λ j u f. elim (update-cases i j p s.phases) [
            | inl (same, at) ↦
                subst (λ (v : Ticket). s.callers v.number ≡ awaiting v.job) (same_ticket has at f)
                  queued.0
            | inr (other, off) ↦ x.worked j u (sym (ap carried off) ∙ f)
          ];
          off_queue = λ j u f. elim (update-cases i j p s.phases) [
            | inl (same, at) ↦
                subst (λ (v : Ticket). Lacks v.number jobs) (same_ticket has at f) distinct.0
            | inr (other, off) ↦ (lacks u (x.off_queue j u (sym (ap carried off) ∙ f))).1
          ];
          apart = λ j l u v f g h. elim (update-cases i j p s.phases) [
            | inl (same, at) ↦ elim (update-cases i l p s.phases) [
              | inl (same', at') ↦ sym same ∙ same'
              | inr (other, off) ↦ absurd (
                  (lacks v (x.off_queue l v (sym (ap carried off) ∙ g))).0
                    (ap (λ (y : Ticket). y.number) (same_ticket has at f) ∙ h))
            ]
            | inr (other, off) ↦ elim (update-cases i l p s.phases) [
              | inl (same, at) ↦ absurd (
                  (lacks u (x.off_queue j u (sym (ap carried off) ∙ f))).0
                    (ap (λ (y : Ticket). y.number) (same_ticket has at g) ∙ sym h))
              | inr (other', off') ↦
                  x.apart j l u v (sym (ap carried off) ∙ f) (sym (ap carried off') ∙ g) h
            ]
          ];
          unborn_after = x.unborn_after;
          answers = x.answers;
        }

    -- The next number is that of no ticket.
    next-ne :
        (s : System docker) (t : Ticket)
        → IsTracked m s
        → s.callers t.number ≡ awaiting t.job
        → t.number ≢ s.next_number
    next-ne s t x e same = omega (arith, awaiting-lt s t.number x e, same)

    Lacks-next : (s : System docker) → IsTracked m s → Lacks s.next_number s.jobs
    Lacks-next s x = All-zip s.jobs (λ t e e'. next-ne s t x e) x.queued x.queued

    IsTracked-accept :
        (s : System docker) (job : Job)
        → IsTracked m s
        → suc (length s.jobs) ≤ m
        → IsTracked m (record s {
          jobs = s.jobs ++ (record { number = s.next_number; job = job } ∷ []);
          callers = update s.next_number (awaiting job) s.callers;
          next_number = suc s.next_number;
        })
    IsTracked-accept s job x room =
        let t : Ticket = record { number = s.next_number; job = job } in
        let still : (u : Ticket)
            → s.callers u.number ≡ awaiting u.job
            → update s.next_number (awaiting job) s.callers u.number ≡ awaiting u.job =
          λ u e. elim (update-cases s.next_number u.number (awaiting job) s.callers) [
            | inl (same, at) ↦ absurd (next-ne s u x e (sym same))
            | inr (other, off) ↦ off ∙ e
          ] in
        record {
          fits = omega (arith, room, length-append s.jobs (t ∷ []));
          queued =
              All-snoc
                (λ u. update s.next_number (awaiting job) s.callers u.number ≡ awaiting u.job)
                s.jobs t (All-zip s.jobs (λ u e e'. still u e) x.queued x.queued)
                (update-at s.next_number (awaiting job) s.callers);
          distinct = Distinct-snoc s.jobs t x.distinct (Lacks-next s x);
          worked = λ i u e. still u (x.worked i u e);
          off_queue = λ i u e.
              All-snoc (λ v. v.number ≢ u.number) s.jobs t (x.off_queue i u e)
                (λ same. next-ne s u x (x.worked i u e) (sym same));
          apart = x.apart;
          unborn_after = λ k h. elim (update-cases s.next_number k (awaiting job) s.callers) [
            | inl (same, at) ↦ absurd (omega (arith, same, h))
            | inr (other, off) ↦ off ∙ x.unborn_after k (omega (arith, h))
          ];
          answers = λ k j q e. elim (update-cases s.next_number k (awaiting job) s.callers) [
            | inl (same, at) ↦ cc (at, e)
            | inr (other, off) ↦ x.answers k j q (sym off ∙ e)
          ];
        }

    pub IsTracked-submit :
        (s : System docker) (job : Job) → IsTracked m s → IsTracked m (submit_job docker m job s)
    unfolding submit_job
    IsTracked-submit s job x = elim (Bool-cases (ltb (length s.jobs) m)) [
      | inl room ↦ rw (room, submit_job) (IsTracked-accept s job x (ltb→lt (length s.jobs) m room))
      | inr full ↦
          rw (full, submit_job)
            (IsTracked-return s s.next_number (suc s.next_number) job empty_result x (omega arith)
              (omega arith) (Lacks-next s x) (λ i t e. next-ne s t x (x.worked i t e))
              (is_full refl))
    ]
