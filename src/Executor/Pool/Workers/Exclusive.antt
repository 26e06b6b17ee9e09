-- ===== src/Executor/Pool/Workers/Exclusive.antt =====
-- Which container each worker has, in any interleaving of the workers.
use rogue_learn_code_battle.Base.{
  ℕ, zero, suc, ◌≡◌, ◌≢◌, ◌⊎◌, refl, sym, ◌∙◌, inl, inr, Option, none, some, List, [], ◌∷◌, arith,
  Text, text_key, text_eq_iff, lookup, lookup-insert, UniqueKeys, UniqueKeys-insert, Bool-cases,
  Option-cases, ◌==◌, ==_iff, ltb, length, ap, true≢false,
}
use rogue_learn_code_battle.Executor.Containers.{
  Docker, Containers, ContainerState, idle, busy, set_state, claim_idle, max_retries,
}
use rogue_learn_code_battle.Executor.Containers.Claim.{Takes, claim_idle-Takes}
use rogue_learn_code_battle.Executor.Pool.Workers.{
  Ticket, WorkerPhase, waiting, claiming, marking, running, releasing, move, System, PoolEvent,
  submit, turn, reorder, swap_at, update, submit_job, take_turn, pool_step, after,
}
use rogue_learn_code_battle.Executor.Pool.Workers.Order.{lookup-swap_at, UniqueKeys-swap_at}

-- The container that a worker was given and has not released; "" is none.
abbrev pub held : WorkerPhase → Option Text
held (marking [] t) = none
held (marking (b ∷ bs) t) = some (b ∷ bs)
held (running id t) = some id
held (releasing id) = some id
held _ = none

pub set_state-lookup :
    (id : Text) (s : ContainerState) (c : Containers) {old : ContainerState}
    → lookup id c ≡ some old
    → lookup id (set_state id s c) ≡ some s
unfolding set_state
set_state-lookup id s c h =
    rw (h, set_state) (ground (arith, text_eq_iff id id, lookup-insert id id s c))

pub set_state-other :
    (id j : Text) (s : ContainerState) (c : Containers)
    → j ≢ id
    → lookup j (set_state id s c) ≡ lookup j c
unfolding set_state
set_state-other id j s c ne = elim (Option-cases (lookup id c)) [
  | inl missing ↦ rw (missing, set_state) refl
  | inr (old, found) ↦
      rw (found, set_state) (ground (arith, text_eq_iff id j, lookup-insert id j s c))
]

pub set_state-none :
    (id j : Text) (s : ContainerState) (c : Containers)
    → lookup j c ≡ none
    → lookup j (set_state id s c) ≡ none
unfolding set_state
set_state-none id j s c h = elim (Option-cases (lookup id c)) [
  | inl missing ↦ rw (missing, set_state) h
  | inr (old, found) ↦
      rw (found, set_state) (ground (arith, text_eq_iff id j, lookup-insert id j s c))
]

pub UniqueKeys-set_state :
    (id : Text) (s : ContainerState) (c : Containers) → UniqueKeys c → UniqueKeys (set_state id s c)
unfolding set_state
UniqueKeys-set_state id s c u = elim (Option-cases (lookup id c)) [
  | inl missing ↦ rw (missing, set_state) u
  | inr (old, found) ↦ rw (found, set_state) (UniqueKeys-insert id s c u)
]

-- The map of a pool: each id once, and none that is empty.
pub record IsPool (c : Containers) : Type 0 where
  pub unique : UniqueKeys c
  pub nameless : lookup [] c ≡ none

-- What a worker in phase `p` leaves of the containers `c`.
record Keeps (p : WorkerPhase) (c : Containers) (p' : WorkerPhase) (c' : Containers) : Type 0 where
  pool : IsPool c'
  mine : (id : Text) → held p' ≡ some id → lookup id c' ≡ some busy
  fresh : (id : Text) → held p' ≡ some id → (held p ≡ some id) ⊎ (lookup id c ≡ some idle)
  others : (id : Text) → lookup id c ≡ some busy → held p ≢ some id → lookup id c' ≡ some busy

-- A worker that has no container after its turn, and touches none.
Keeps-none : (p p' : WorkerPhase) (c : Containers) → IsPool c → held p' ≡ none → Keeps p c p' c
Keeps-none p p' c pool h' = record {
  pool = pool;
  mine = λ id e. cc;
  fresh = λ id e. cc;
  others = λ id e ne. e;
}

Keeps-claim :
    (p : WorkerPhase) (t : Ticket) (c : Containers) {id : Text} {c' : Containers}
    → IsPool c
    → Takes c id c'
    → Keeps p c (marking id t) c'
Keeps-claim p t c {id = []} {c'} pool taken = cc (pool.nameless, taken.was_idle)
Keeps-claim p t c {id = b ∷ bs} {c'} pool taken = record {
  pool = record { unique = taken.unique; nameless = taken.others [] (λ e. cc) ∙ pool.nameless };
  mine = λ id e. cc (taken.is_busy);
  fresh = λ id e. inr (cc (taken.was_idle));
  others = λ id e ne. taken.others id (λ same. cc (taken.was_idle)) ∙ e;
}

IsPool-set_state :
    (id : Text) (s : ContainerState) (c : Containers) → IsPool c → IsPool (set_state id s c)
IsPool-set_state id s c pool = record {
  unique = UniqueKeys-set_state id s c pool.unique;
  nameless = set_state-none id [] s c pool.nameless;
}

Keeps-mark :
    (id : Text) (t : Ticket) (c : Containers) {s : ContainerState}
    → IsPool c
    → lookup id c ≡ some s
    → Keeps (marking id t) c (running id t) (set_state id busy c)
Keeps-mark [] t c pool found = cc (pool.nameless)
Keeps-mark (b ∷ bs) t c pool found = record {
  pool = IsPool-set_state (b ∷ bs) busy c pool;
  mine = λ id e. cc (set_state-lookup (b ∷ bs) busy c found);
  fresh = λ id e. inl e;
  others = λ id e ne. set_state-other (b ∷ bs) id busy c (λ same. ne (cc)) ∙ e;
}

Keeps-release :
    (id : Text) (c : Containers) → IsPool c → Keeps (releasing id) c waiting (set_state id idle c)
Keeps-release id c pool = record {
  pool = IsPool-set_state id idle c pool;
  mine = λ j e. cc;
  fresh = λ j e. cc;
  others = λ j e ne. set_state-other id j idle c (λ same. ne (cc)) ∙ e;
}

module _ (docker : Docker) (w : docker.World) where
  move-Keeps :
      (p : WorkerPhase) (jobs : List Ticket) (c : Containers)
      → IsPool c
      → ((id : Text) → held p ≡ some id → lookup id c ≡ some busy)
      → let m = move docker w p jobs c in Keeps p c m.phase m.containers
  unfolding move
  move-Keeps waiting [] c pool has = Keeps-none waiting waiting c pool refl
  move-Keeps waiting (t ∷ jobs) c pool has = Keeps-none waiting (claiming max_retries t) c pool refl
  move-Keeps (claiming zero t) jobs c pool has =
      Keeps-none (claiming zero t) (marking [] t) c pool refl
  move-Keeps (claiming (suc n) t) jobs c pool has = elim (Option-cases (claim_idle c)) [
    | inl stuck ↦ rw (stuck, move) (Keeps-none (claiming (suc n) t) (claiming n t) c pool refl)
    | inr (r, e) ↦
        rw (e, move) (Keeps-claim (claiming (suc n) t) t c pool (claim_idle-Takes c pool.unique e))
  ]
  move-Keeps (marking id t) jobs c pool has = elim (Option-cases (lookup id c)) [
    | inl missing ↦ rw (missing, move) (Keeps-none (marking id t) waiting c pool refl)
    | inr (s, found) ↦ rw (found, move) (Keeps-mark id t c pool found)
  ]
  move-Keeps (running id t) jobs c pool has = record {
    pool = pool;
    mine = has;
    fresh = λ j e. inl e;
    others = λ j e ne. e;
  }
  move-Keeps (releasing id) jobs c pool has = Keeps-release id c pool

-- Each worker's container is marked busy, and no two workers have the same one.
pub record IsExclusive {docker : Docker} (s : System docker) : Type 0 where
  pub pool : IsPool s.containers
  pub is_busy :
      (i : ℕ) (id : Text) → held (s.phases i) ≡ some id → lookup id s.containers ≡ some busy
  pub apart :
      (i j : ℕ) (id : Text) → held (s.phases i) ≡ some id → held (s.phases j) ≡ some id → i ≡ j

pub update-cases {ℓ} :
    {A : Type ℓ} (i j : ℕ) (a : A) (f : ℕ → A)
    → ((i ≡ j) × (update i a f j ≡ a)) ⊎ ((i ≢ j) × (update i a f j ≡ f j))
update-cases i j a f = elim (Bool-cases (i == j)) [
  | inl same ↦ inl ((==_iff i j).0 same, rw same refl)
  | inr other ↦ inr (λ e. true≢false (sym ((==_iff i j).1 e) ∙ other), rw other refl)
]

module _ (docker : Docker) where
  -- What a worker was just given is no other worker's.
  clash :
      {i l : ℕ} {p : WorkerPhase} {c' : Containers} (s : System docker) {id : Text}
      → IsExclusive s
      → Keeps (s.phases i) s.containers p c'
      → i ≢ l
      → held p ≡ some id
      → held (s.phases l) ≡ some id
      → ⊥
  clash {i} {l} s {id} x k ne mine yours = elim (k.fresh id mine) [
    | inl before ↦ ne (x.apart i l id before yours)
    | inr was ↦ cc (was, x.is_busy l id yours)
  ]

  pub take_turn-IsExclusive :
      (i : ℕ) (w : docker.World) (s : System docker)
      → IsExclusive s
      → IsExclusive (take_turn docker i w s)
  unfolding take_turn
  take_turn-IsExclusive i w s x =
      let k = move-Keeps docker w (s.phases i) s.jobs s.containers x.pool (x.is_busy i) in
      let p' = (move docker w (s.phases i) s.jobs s.containers).phase in
      record {
        pool = k.pool;
        is_busy = λ j id e. elim (update-cases i j p' s.phases) [
          | inl (same, at) ↦ k.mine id (sym (ap held at) ∙ e)
          | inr (ne, off) ↦
              let before = sym (ap held off) ∙ e in
              k.others id (x.is_busy j id before) (λ h. ne (x.apart i j id h before))
        ];
        apart = λ j l id e f. elim (update-cases i j p' s.phases) [
          | inl (same, at) ↦ elim (update-cases i l p' s.phases) [
            | inl (same', at') ↦ sym same ∙ same'
            | inr (ne, off) ↦ absurd (clash s x k ne (sym (ap held at) ∙ e) (sym (ap held off) ∙ f))
          ]
          | inr (ne, off) ↦ elim (update-cases i l p' s.phases) [
            | inl (same, at) ↦
                absurd (clash s x k ne (sym (ap held at) ∙ f) (sym (ap held off) ∙ e))
            | inr (ne', off') ↦ x.apart j l id (sym (ap held off) ∙ e) (sym (ap held off') ∙ f)
          ]
        ];
      }

  pub pool_step-IsExclusive :
      (max_workers max_job_count : ℕ) (e : PoolEvent docker) (s : System docker)
      → IsExclusive s
      → IsExclusive (pool_step docker max_workers max_job_count e s)
  unfolding pool_step submit_job
  pool_step-IsExclusive n m (submit job) s x = elim (Bool-cases (ltb (length s.jobs) m)) [
    | inl room ↦
        rw (room, submit_job) (record { pool = x.pool; is_busy = x.is_busy; apart = x.apart })
    | inr full ↦
        rw (full, submit_job) (record { pool = x.pool; is_busy = x.is_busy; apart = x.apart })
  ]
  pool_step-IsExclusive n m (turn i w) s x = elim (Bool-cases (ltb i n)) [
    | inl here ↦ rw here (take_turn-IsExclusive i w s x)
    | inr beyond ↦ rw beyond x
  ]
  pool_step-IsExclusive n m (reorder k) s x =
      let same : (id : Text) → lookup id (swap_at k s.containers) ≡ lookup id s.containers =
        λ id. lookup-swap_at k id s.containers x.pool.unique in
      record {
        pool = record {
          unique = UniqueKeys-swap_at k s.containers x.pool.unique;
          nameless = same [] ∙ x.pool.nameless;
        };
        is_busy = λ i id e. same id ∙ x.is_busy i id e;
        apart = x.apart;
      }

  -- In every interleaving of the calls of ExecuteJob with the turns of the workers, whatever order the
  -- ranges over the map of containers take, a container that a worker was given and has not released
  -- is marked busy, and no other worker has it. The pool starts with each id once and none that is
  -- empty.
  pub after-IsExclusive :
      (max_workers max_job_count : ℕ) (containers : Containers) (events : List (PoolEvent docker))
      → IsPool containers
      → IsExclusive (after docker max_workers max_job_count containers events)
  unfolding after
  after-IsExclusive n m c [] pool = record {
    pool = pool;
    is_busy = λ i id e. cc;
    apart = λ i j id e f. cc;
  }
  after-IsExclusive n m c (e ∷ es) pool =
      pool_step-IsExclusive n m e (after docker n m c es) (after-IsExclusive n m c es pool)
