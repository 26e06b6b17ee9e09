-- ===== src/Startup/Ends.antt =====
-- When main returns.
use rogue_learn_code_battle.Base.{
  ◌≡◌, ◌≢◌, ◌↔◌, refl, inl, inr, Bool, true, Option, none, some, [], ◌∷◌, Text, codes,
  if◌then◌else◌, Bool-cases, Option-cases, is_empty,
}
use rogue_learn_code_battle.Executor.Containers.{Docker, Manager}
use rogue_learn_code_battle.Executor.Pool.Workers.{System}
use rogue_learn_code_battle.Executor.Pool.Workers.Start.{
  Started, start_panicked, start_failed, started, main_options, new_worker_pool,
}
use rogue_learn_code_battle.Support.Env.{conn_str, sec_key, get_string}
use rogue_learn_code_battle.Startup.{
  ListenEnd, server_closed, listen_failed, ShutdownEnd, run_server, Boot, panicked, fatal, booted,
  MainEnd, returned_from_main, boot_handlers, boot_started, boot, exit_of, main_behind, run_main,
}
use rogue_learn_code_battle.Startup.Serving.{HasValue, boot-started}

nonempty_value :
    (r : Option Text) (value : Text)
    → (let v : Text = elim r [ none ↦ [] | some v ↦ v ] in if is_empty v then none else some v)
      ≡ some value
    → (r ≡ some value) × (value ≢ [])
nonempty_value none value h = cc
nonempty_value (some []) value h = cc
nonempty_value (some (b ∷ bs)) value h = (h, λ e. cc (h, e))

-- Run returns no error only in one way.
run_server-none :
    (listen : ListenEnd) (shutdown : ShutdownEnd)
    → run_server listen shutdown ≡ some none
    → (listen ≡ server_closed) × (shutdown ≡ some none)
unfolding run_server
run_server-none server_closed shutdown h = (refl, h)
run_server-none (listen_failed err) shutdown h = cc

module _ (lookup_env : Text → Option Text) where
  conn_str-HasValue :
      (value : Text)
      → conn_str lookup_env ≡ some value
      → HasValue lookup_env (codes "SUPABASE_DB_CONNECTION_STRING") value
  unfolding conn_str get_string
  conn_str-HasValue value h =
      nonempty_value (lookup_env (codes "SUPABASE_DB_CONNECTION_STRING")) value h

  sec_key-HasValue :
      (value : Text)
      → sec_key lookup_env ≡ some value
      → HasValue lookup_env (codes "JWT_SECRET_KEY") value
  unfolding sec_key get_string
  sec_key-HasValue value h = nonempty_value (lookup_env (codes "JWT_SECRET_KEY")) value h

module _ (docker : Docker) (lookup_env : Text → Option Text) (connects : Text → Bool)
    (client : Option docker.World) (log_file grpc_port : Bool) (listen : ListenEnd)
    (shutdown : ShutdownEnd) where
  -- All that main needs to return.
  pub record MainReturns : Type 0 where
    pub text : Text
    pub connection : HasValue lookup_env (codes "SUPABASE_DB_CONNECTION_STRING") text
    pub connected : connects text ≡ true
    pub manager : Manager docker.World
    pub pool : System docker
    pub workers : new_worker_pool docker main_options client log_file ≡ some (started manager pool)
    pub key : Text
    pub secret : HasValue lookup_env (codes "JWT_SECRET_KEY") key
    pub port : grpc_port ≡ true
    pub closed : listen ≡ server_closed
    pub shut_down : shutdown ≡ some none

  exit_of-returned :
      (r : Option (Option Text))
      → exit_of docker lookup_env connects client log_file grpc_port r ≡ some returned_from_main
      → r ≡ some none
  exit_of-returned none h = cc
  exit_of-returned (some none) h = refl
  exit_of-returned (some (some err)) h = cc

  abbrev main_of : Option (Boot docker) → Option MainEnd
  main_of b = main_behind docker lookup_env connects client log_file grpc_port listen shutdown b

  ran :
      (b : Boot docker)
      → main_of (some b) ≡ some returned_from_main
      → (d : Manager docker.World) × (pool : System docker) × (b ≡ booted d pool)
        × (listen ≡ server_closed)
        × (shutdown ≡ some none)
  ran panicked h = cc
  ran fatal h = cc
  ran (booted d pool) h =
      let (closed, down) = run_server-none listen shutdown (exit_of-returned _ h) in
      (d, pool, refl, closed, down)

  handlers-booted :
      (d d' : Manager docker.World) (pool pool' : System docker)
      → boot_handlers docker lookup_env connects client log_file grpc_port d pool ≡ booted d' pool'
      → (key : Text) × HasValue lookup_env (codes "JWT_SECRET_KEY") key × (grpc_port ≡ true)
  unfolding boot_handlers
  handlers-booted d d' pool pool' h = elim (Option-cases (sec_key lookup_env)) [
    | inl e ↦ cc (rw (e, boot_handlers) at h)
    | inr (key, e) ↦ elim (Bool-cases grpc_port) [
      | inl free ↦ (key, sec_key-HasValue lookup_env key e, free)
      | inr taken ↦ cc (rw (e, taken, boot_handlers) at h)
    ]
  ]

  started-MainReturns :
      (text : Text) (r : Option (Started docker))
      → HasValue lookup_env (codes "SUPABASE_DB_CONNECTION_STRING") text
      → connects text ≡ true
      → new_worker_pool docker main_options client log_file ≡ r
      → main_of (boot_started docker lookup_env connects client log_file grpc_port r)
        ≡ some returned_from_main
      → MainReturns
  started-MainReturns text none set_text up e h = cc
  started-MainReturns text (some start_panicked) set_text up e h = cc
  started-MainReturns text (some start_failed) set_text up e h = cc
  started-MainReturns text (some (started d pool)) set_text up e h =
      let (d', pool', b, closed, down) = ran _ h in
      let (key, secret, port) = handlers-booted d d' pool pool' b in
      record {
        text = text;
        connection = set_text;
        connected = up;
        manager = d;
        pool = pool;
        workers = e;
        key = key;
        secret = secret;
        port = port;
        closed = closed;
        shut_down = down;
      }

  returned-MainReturns :
      run_main docker lookup_env connects client log_file grpc_port listen shutdown
        ≡ some returned_from_main
      → MainReturns
  unfolding run_main boot
  returned-MainReturns h = elim (Option-cases (conn_str lookup_env)) [
    | inl e ↦ cc (rw (e, boot) at h)
    | inr (text, e) ↦ elim (Bool-cases (connects text)) [
      | inr down ↦ cc (rw (e, down, boot) at h)
      | inl up ↦
          started-MainReturns text _ (conn_str-HasValue lookup_env text e) up refl
            (rw (e, up, boot) at h)
    ]
  ]

  -- main returns exactly when both variables are set and not empty, the database connects, the pool
  -- of workers starts, the port of the gRPC server is free, ListenAndServe ends because the server
  -- was shut down, and Shutdown has no error. In all other cases it panics, exits with 1, or waits
  -- for ever.
  pub run_main-returned :
      (run_main docker lookup_env connects client log_file grpc_port listen shutdown
        ≡ some returned_from_main)
      ↔ MainReturns
  unfolding run_main run_server
  run_main-returned = (
    returned-MainReturns,
    λ x.
        rw
          (
            x.port,
            x.closed,
            x.shut_down,
            boot-started docker lookup_env connects client log_file x.text x.key x.manager
                x.connection x.secret x.connected x.workers,
          )
          refl,
  )
