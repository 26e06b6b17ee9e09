-- ===== src/Executor/Pool/Workers/Filled.antt =====
-- What NewWorkerPool makes: a container for each worker, and then no job is lost.
use mathlib.Core.Path.{subst}
use rogue_learn_code_battle.Base.{
  ℕ, zero, suc, ◌+◌, ◌-◌, ◌*◌, ◌≤◌, ◌≡◌, ◌≢◌, refl, ap, ◌∙◌, inl, inr, true, false, Option, none,
  some, List, [], ◌∷◌, Text, codes, text_eq, text_eq_iff, text_key, lookup, insert, lookup-insert,
  length-insert, UniqueKeys-insert, length, tally, All, Bool-cases, Option-cases, ltb, ltb→lt,
  ltb→le, arith,
}
use rogue_learn_code_battle.Executor.Containers.{
  Docker, Summary, HostConfig, ManagerError, Manager, Op, Containers, ContainerState, idle, is_idle,
  is_running, mb, create, pure, launch, start_container, start_needed, balance_worker,
  register_workers, initialize_pool,
}
use rogue_learn_code_battle.Executor.Containers.Returns.{
  Returns, Returns-some, Returns-weaken, Returns-bind,
}
use rogue_learn_code_battle.Executor.Containers.Claim.{idle_count}
use rogue_learn_code_battle.Executor.Pool.Workers.{PoolEvent, new_pool, after}
use rogue_learn_code_battle.Executor.Pool.Workers.Exclusive.{IsPool}
use rogue_learn_code_battle.Executor.Pool.Workers.Served.{IsServed, after-IsServed}
use rogue_learn_code_battle.Executor.Pool.Workers.Start.{
  WorkerPoolOptions, started, Starts, is_worker, new_docker_container_manager, new_worker_pool,
  new_worker_pool-started,
}

All-insert_idle :
    (id : Text) (c : Containers)
    → All (λ entry. is_idle entry.1 ≡ true) c
    → All (λ entry. is_idle entry.1 ≡ true) (insert id idle c)
All-insert_idle id [] a = (refl, tt)
All-insert_idle id ((j, s) ∷ c) a = elim (Bool-cases (text_eq j id)) [
  | inl same ↦ rw same (refl, a.1)
  | inr other ↦ rw other (a.0, All-insert_idle id c a.1)
]

insert-other :
    (id j : Text) (c : Containers) → text_eq id j ≡ false → lookup j c ≡ lookup j (insert id idle c)
insert-other id j c other = ground (arith, lookup-insert id j idle c)

-- A new id makes the map one longer.
length-insert_new :
    (id : Text) (c : Containers) → lookup id c ≡ none → length (insert id idle c) ≡ suc (length c)
length-insert_new id [] h = refl
length-insert_new id ((j, s) ∷ c) h = ground (arith, length-insert_new id c)

idle_count-All :
    (c : Containers) → All (λ entry. is_idle entry.1 ≡ true) c → idle_count c ≡ length c
idle_count-All [] a = refl
idle_count-All ((j, s) ∷ c) a = ground (arith, a.0, idle_count-All c a.1)

module _ (docker : Docker) where
  open docker use {World, container_list, container_create, container_start}

  module _ (Known : World → Text → Type 0) where
    -- A container of the program that Docker lists: it runs, and its id is known.
    pub record IsListed (w : World) (c : Summary) : Type 0 where
      pub runs : is_running c.state ≡ true
      pub named : c.id ≢ []
      pub known : Known w c.id

    -- All containers of the manager are idle and known.
    record IsFresh (d : Manager World) : Type 0 where
      free : d.locked ≡ false
      pool : IsPool d.containers
      all_idle : All (λ entry. is_idle entry.1 ≡ true) d.containers
      known : (id : Text) (s : ContainerState) → lookup id d.containers ≡ some s → Known d.world id

    record Grew (n : ℕ) (d d' : Manager World) : Type 0 where
      fresh : IsFresh d'
      limit : d'.max_workers ≡ d.max_workers
      same_world : d'.world ≡ d.world
      size : length d'.containers ≤ length d.containers + n

    IsFresh-insert :
        (d : Manager World) (id : Text) (w : World)
        → IsFresh d
        → id ≢ []
        → Known w id
        → ((j : Text) → Known d.world j → Known w j)
        → IsFresh (record d { containers = insert id idle d.containers; world = w })
    IsFresh-insert d id w f named known more = record {
      free = f.free;
      pool = record {
        unique = UniqueKeys-insert id idle d.containers f.pool.unique;
        nameless =
            ground
              (arith, text_eq_iff id [], lookup-insert id [] idle d.containers, f.pool.nameless);
      };
      all_idle = All-insert_idle id d.containers f.all_idle;
      known = λ j s e. elim (Bool-cases (text_eq id j)) [
        | inl same ↦ subst (Known w) ((text_eq_iff id j).0 same) known
        | inr other ↦ more j (f.known j s (insert-other id j d.containers other ∙ e))
      ];
    }

    register_workers-Grew :
        (cs : List Summary) (d : Manager World)
        → IsFresh d
        → All (λ c. is_worker c ≡ true → IsListed d.world c) cs
        → Returns (λ _ d'. Grew (tally is_worker cs) d d') (register_workers docker cs d)
    unfolding register_workers
    register_workers-Grew [] d f listed =
        Returns-some tt d
          (record { fresh = f; limit = refl; same_world = refl; size = omega arith })
    register_workers-Grew (c ∷ cs) d f (here, rest) = elim (Bool-cases (is_worker c)) [
      | inr other ↦ rw (other, register_workers) (register_workers-Grew cs d f rest)
      | inl hit ↦
          let l = here hit in
          let g = IsFresh-insert d c.id d.world f l.named l.known (λ j k. k) in
          let d' : Manager World = record d {
            locked = false;
            containers = insert c.id idle d.containers;
          } in
          let f' : IsFresh d' = record {
            free = refl;
            pool = g.pool;
            all_idle = g.all_idle;
            known = g.known;
          } in
          rw (hit, f.free, l.runs, register_workers)
            (Returns-weaken (register_workers-Grew cs d' f' rest) (λ a d'' r. record {
              fresh = r.fresh;
              limit = r.limit;
              same_world = r.same_world;
              size = omega (arith, r.size, length-insert c.id idle d.containers);
            }))
    ]

    -- A start of a container: no error, and one container more.
    record Added (n : ℕ) (d d' : Manager World) (err : Option ManagerError) : Type 0 where
      fine : err ≡ none
      fresh : IsFresh d'
      limit : d'.max_workers ≡ d.max_workers
      size : length d'.containers ≡ length d.containers + n

    module _ (starts : Starts docker Known) where
      start_container-Added :
          (d : Manager World)
          → IsFresh d
          → Returns (λ err d'. Added 1 d d' err) (start_container docker d)
      unfolding start_container create launch
      start_container-Added d f =
          let config : HostConfig = record {
            image = codes "worker";
            memory = d.memory_limit_bytes * mb;
            nano_cpus = d.cpu_nano_limit * 1000000;
            network_mode = codes "none";
            maximum_retry_count = 3;
          } in
          let (id, w, made, named, new, known, more) = starts.makes config d.world in
          let (w', ok, more') = starts.starts id w in
          let g = IsFresh-insert d id w' f named (more' id known) (λ j k. more' j (more j k)) in
          let absent : lookup id d.containers ≡ none =
            elim (Option-cases (lookup id d.containers)) [
              | inl e ↦ e
              | inr (s, e) ↦ absurd (new (f.known id s e))
            ] in
          rw (f.free, made, ok, start_container, create, launch)
            (Returns-some none _ (record {
              fine = refl;
              fresh = record { free = refl; pool = g.pool; all_idle = g.all_idle; known = g.known };
              limit = refl;
              size = omega (arith, length-insert_new id d.containers absent);
            }))

      next-Added :
          (n : ℕ) (d d₁ : Manager World) (err : Option ManagerError)
          → Added 1 d d₁ err
          → Returns (λ err' d'. Added n d₁ d' err') (start_needed docker n d₁)
          → Returns
              (λ err' d'. Added (suc n) d d' err')
              ((elim err as (λ _. Op World (Option ManagerError)) [
                | some e ↦ pure (some e)
                | none ↦ start_needed docker n
              ])
                d₁)
      next-Added n d d₁ (some e) g r = cc (g.fine)
      next-Added n d d₁ none g r = Returns-weaken r (λ err' d' h. record {
        fine = h.fine;
        fresh = h.fresh;
        limit = h.limit ∙ g.limit;
        size = omega (arith, h.size, g.size);
      })

      start_needed-Added :
          (n : ℕ) (d : Manager World)
          → IsFresh d
          → Returns (λ err d'. Added n d d' err) (start_needed docker n d)
      unfolding start_needed
      start_needed-Added zero d f =
          Returns-some none d (record { fine = refl; fresh = f; limit = refl; size = omega arith })
      start_needed-Added (suc n) d f =
          Returns-bind (start_container docker) _ d (start_container-Added d f)
            (λ err d₁ g. next-Added n d d₁ err g (start_needed-Added n d₁ g.fresh))

      balance_worker-fills :
          (d : Manager World)
          → IsFresh d
          → length d.containers ≤ d.max_workers
          → Returns
              (λ err d'. IsFresh d' × (d.max_workers ≤ length d'.containers))
              (balance_worker docker d)
      unfolding balance_worker
      balance_worker-fills d f fits = elim (Bool-cases (ltb (length d.containers) d.max_workers)) [
        | inl few ↦
            rw (few, balance_worker)
              (Returns-weaken (start_needed-Added (d.max_workers - length d.containers) d f)
                (λ err d' g. (g.fresh, omega (arith, g.size, fits))))
        | inr enough ↦
            let full = ltb→le (length d.containers) d.max_workers enough in
            elim (Bool-cases (ltb d.max_workers (length d.containers))) [
              | inl many ↦ absurd (omega (arith, fits, ltb→lt _ _ many))
              | inr exact ↦ rw (enough, exact, balance_worker) (Returns-some none d (f, full))
            ]
      ]

      initialize_pool-fills :
          (d : Manager World) (cs : List Summary)
          → IsFresh d
          → d.containers ≡ []
          → container_list d.world ≡ some cs
          → All (λ c. is_worker c ≡ true → IsListed d.world c) cs
          → tally is_worker cs ≤ d.max_workers
          → Returns
              (λ err d'. (err ≡ none) × IsFresh d' × (d.max_workers ≤ length d'.containers))
              (initialize_pool docker d)
      unfolding initialize_pool
      initialize_pool-fills d cs f empty lists listed few =
          rw (lists, initialize_pool)
            (Returns-bind (register_workers docker cs) _ d (register_workers-Grew cs d f listed)
              (λ a d₁ g.
                Returns-bind (balance_worker docker) _ d₁
                  (balance_worker-fills d₁ g.fresh
                    (omega (arith, g.size, ap length empty, few, g.limit)))
                  (λ err d₂ h. Returns-some none d₂ (refl, h.0, omega (arith, h.1, g.limit)))))

      -- With a Docker that makes and starts every container under an id of its own, and that lists
      -- at most `max_workers` containers of the program, all of them running, NewWorkerPool starts,
      -- and in every interleaving of calls and turns that follows no job is lost: each call that
      -- waits has its job in the channel or in the hands of a worker that can go on.
      pub new_worker_pool-IsServed :
          (opts : WorkerPoolOptions) (w : World) (cs : List Summary)
          (events : List (PoolEvent docker))
          → container_list w ≡ some cs
          → All (λ c. is_worker c ≡ true → IsListed w c) cs
          → tally is_worker cs ≤ opts.max_workers
          → (d : Manager World) × (new_worker_pool docker opts (some w) true
              ≡ some (started d (new_pool docker d.containers)))
            × IsServed opts.max_workers
                (after docker opts.max_workers opts.max_job_count d.containers events)
      unfolding new_worker_pool new_docker_container_manager
      new_worker_pool-IsServed opts w cs events lists listed few =
          let d₀ = new_docker_container_manager docker opts w in
          let r =
            initialize_pool-fills d₀ cs
              (record {
                free = refl;
                pool = record { unique = tt; nameless = refl };
                all_idle = tt;
                known = λ id s e. cc;
              })
              refl lists listed few in
          (
            r.state,
            new_worker_pool-started docker opts w
                (r.is ∙ ap (λ err. some (err, r.state)) r.holds.0),
            after-IsServed docker opts.max_workers opts.max_job_count r.state.containers events
                r.holds.1.pool
                (omega (arith, r.holds.2, idle_count-All r.state.containers r.holds.1.all_idle)),
          )
