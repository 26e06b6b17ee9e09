-- ===== src/Startup/Serving.antt =====
-- When the program gets to serve, and with what pool.
use rogue_learn_code_battle.Base.{
  ◌≡◌, ◌≢◌, refl, Bool, true, false, Option, some, List, [], ◌∷◌, Text, codes, tally, All, ◌≤◌,
  is_empty, ap,
}
use rogue_learn_code_battle.Executor.Containers.{Docker, Summary, Manager}
use rogue_learn_code_battle.Executor.Pool.Workers.{System, PoolEvent, after, new_pool}
use rogue_learn_code_battle.Executor.Pool.Workers.Start.{
  Starts, started, main_options, new_worker_pool, is_worker,
}
use rogue_learn_code_battle.Executor.Pool.Workers.Filled.{IsListed, new_worker_pool-IsServed}
use rogue_learn_code_battle.Executor.Pool.Workers.Served.{IsServed}
use rogue_learn_code_battle.Support.Env.{conn_str, sec_key, get_string}
use rogue_learn_code_battle.Startup.{booted, boot_handlers, boot}

-- The variable is set and is not empty.
abbrev pub HasValue : (Text → Option Text) → Text → Text → Type 0
HasValue lookup_env key value = (lookup_env key ≡ some value) × (value ≢ [])

module _ (lookup_env : Text → Option Text) where
  nonempty : (value : Text) → value ≢ [] → is_empty value ≡ false
  nonempty [] h = absurd (h refl)
  nonempty (b ∷ bs) h = refl

  get_string-set :
      (key value : Text) → lookup_env key ≡ some value → get_string lookup_env key [] ≡ value
  unfolding get_string
  get_string-set key value e = rw (e, get_string) refl

  conn_str-set :
      (value : Text)
      → HasValue lookup_env (codes "SUPABASE_DB_CONNECTION_STRING") value
      → conn_str lookup_env ≡ some value
  unfolding conn_str
  conn_str-set value (e, some_text) =
      rw (get_string-set (codes "SUPABASE_DB_CONNECTION_STRING") value e, nonempty value some_text)
        refl

  sec_key-set :
      (value : Text)
      → HasValue lookup_env (codes "JWT_SECRET_KEY") value
      → sec_key lookup_env ≡ some value
  unfolding sec_key
  sec_key-set value (e, some_text) =
      rw (get_string-set (codes "JWT_SECRET_KEY") value e, nonempty value some_text) refl

pub boot_handlers-set :
    (docker : Docker) (lookup_env : Text → Option Text) (connects : Text → Bool)
    (client : Option docker.World) (log_file : Bool) (key : Text) (d : Manager docker.World)
    {pool : System docker}
    → HasValue lookup_env (codes "JWT_SECRET_KEY") key
    → boot_handlers docker lookup_env connects client log_file true d pool ≡ booted d pool
unfolding boot_handlers
boot_handlers-set docker lookup_env connects client log_file key d h =
    rw (sec_key-set lookup_env key h, boot_handlers) refl

pub boot-started :
    (docker : Docker) (lookup_env : Text → Option Text) (connects : Text → Bool)
    (client : Option docker.World) (log_file : Bool) (text key : Text) (d : Manager docker.World)
    {pool : System docker}
    → HasValue lookup_env (codes "SUPABASE_DB_CONNECTION_STRING") text
    → HasValue lookup_env (codes "JWT_SECRET_KEY") key
    → connects text ≡ true
    → new_worker_pool docker main_options client log_file ≡ some (started d pool)
    → boot docker lookup_env connects client log_file true ≡ some (booted d pool)
unfolding boot boot_handlers
boot-started docker lookup_env connects client log_file text key d set_text set_key up e =
    rw (conn_str-set lookup_env text set_text, boot)
      (rw up (
        rw e
          (ap some (boot_handlers-set docker lookup_env connects client log_file key d set_key))))

module _ (docker : Docker) where
  open docker use {World, container_list}

  module _ (Known : World → Text → Type 0) (starts : Starts docker Known) where
    -- Both variables are set, the database connects, the port of the gRPC server is free, and Docker
    -- makes and starts every container and lists at most five of the program, all of them running.
    -- Then main gets to serve, and in every interleaving of the calls of ExecuteJob and the turns of
    -- the workers that follows no job is lost.
    pub boot-IsServed :
        (lookup_env : Text → Option Text) (connects : Text → Bool) (text key : Text) (w : World)
        (cs : List Summary) (events : List (PoolEvent docker))
        → HasValue lookup_env (codes "SUPABASE_DB_CONNECTION_STRING") text
        → HasValue lookup_env (codes "JWT_SECRET_KEY") key
        → connects text ≡ true
        → container_list w ≡ some cs
        → All (λ c. is_worker c ≡ true → IsListed docker Known w c) cs
        → tally is_worker cs ≤ 5
        → (d : Manager World) × (boot docker lookup_env connects (some w) true true
            ≡ some (booted d (new_pool docker d.containers)))
          × IsServed 5 (after docker 5 3 d.containers events)
    boot-IsServed lookup_env connects text key w cs events set_text set_key up lists listed few =
        let (d, e, served) =
          new_worker_pool-IsServed docker Known starts main_options w cs events lists listed few in
        (
          d,
          boot-started docker lookup_env connects (some w) true text key d set_text set_key up e,
          served,
        )
