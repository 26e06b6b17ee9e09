-- ===== src/Startup.antt =====
-- main of cmd/main/main.go with NewPool of database/db.go and NewHandlerRepo of
-- internal/handlers/handler.go, and Application.Run of cmd/api/server.go.
pub mod Serving
pub mod Ends
use rogue_learn_code_battle.Base.{
  ◌≡◌, Bool, true, false, Option, none, some, List, [], ◌∷◌, Text, if◌then◌else◌,
}
use rogue_learn_code_battle.Executor.Containers.{Docker, Manager}
use rogue_learn_code_battle.Executor.Pool.Workers.{System}
use rogue_learn_code_battle.Executor.Pool.Workers.Start.{
  Started, start_panicked, start_failed, started, main_options, new_worker_pool,
}
use rogue_learn_code_battle.Support.Env.{conn_str, sec_key}

-- How ListenAndServe ends: with ErrServerClosed, or with another error.
pub data ListenEnd : Type 0 where
  server_closed : ListenEnd
  listen_failed : Text → ListenEnd

-- What the goroutine of Run sends when a signal has come: the error of Shutdown, if it has one.
-- Without a signal it sends nothing.
abbrev pub ShutdownEnd : Type 0
ShutdownEnd = Option (Option Text)

-- Application.Run: the inner option is its error; with the outer `none` it waits for ever. Nothing
-- is added to the wait group.
unfoldable pub run_server : ListenEnd → ShutdownEnd → Option (Option Text)
run_server (listen_failed err) shutdown = some (some err)
run_server server_closed shutdown = shutdown

-- How main gets to Run: it panics, or log.Fatalf ends it, or all is set up.
pub data Boot (docker : Docker) : Type 0 where
  panicked fatal : Boot docker
  booted : Manager docker.World → System docker → Boot docker

-- How the program ends.
pub data MainEnd : Type 0 where
  main_panicked exited_with_one returned_from_main : MainEnd

-- `connects` says that pgxpool.New makes a pool for a text, `client` is what NewDockerClient
-- returns, `log_file` says that the file of the log opens, `grpc_port` that the port of the gRPC
-- server is free.
module _ (docker : Docker) (lookup_env : Text → Option Text) (connects : Text → Bool)
    (client : Option docker.World) (log_file grpc_port : Bool) where
  -- NewHandlerRepo and the listener of the gRPC server.
  unfoldable pub boot_handlers : Manager docker.World → System docker → Boot docker
  boot_handlers d pool = elim (sec_key lookup_env) [
    | none ↦ panicked
    | some key ↦ if grpc_port then booted d pool else fatal
  ]

  abbrev pub boot_started : Option (Started docker) → Option (Boot docker)
  boot_started none = none
  boot_started (some start_panicked) = some panicked
  boot_started (some start_failed) = some panicked
  boot_started (some (started d pool)) = some (boot_handlers d pool)

  -- main up to Run; the outer `none` blocks on the mutex of the containers.
  unfoldable pub boot : Option (Boot docker)
  unfolding boot_handlers
  boot = elim (conn_str lookup_env) [
    | none ↦ some panicked
    | some text ↦
        if connects text
        then boot_started (new_worker_pool docker main_options client log_file)
        else some panicked
  ]

  abbrev pub exit_of : Option (Option Text) → Option MainEnd
  exit_of none = none
  exit_of (some none) = some returned_from_main
  exit_of (some (some err)) = some exited_with_one

  abbrev pub main_behind : ListenEnd → ShutdownEnd → Option (Boot docker) → Option MainEnd
  main_behind listen shutdown none = none
  main_behind listen shutdown (some panicked) = some main_panicked
  main_behind listen shutdown (some fatal) = some exited_with_one
  main_behind listen shutdown (some (booted d pool)) = exit_of (run_server listen shutdown)

  unfoldable pub run_main : ListenEnd → ShutdownEnd → Option MainEnd
  unfolding boot run_server
  run_main listen shutdown = main_behind listen shutdown boot
