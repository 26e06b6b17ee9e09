-- ===== src/Executor/Pool/Workers/Start.antt =====
-- NewWorkerPool of internal/executor/worker_pool.go, with NewDockerContainerManager of
-- container_manager.go: from the containers that Docker lists to a pool with its workers.
use rogue_learn_code_battle.Base.{
  ℕ, ◌≡◌, ◌≢◌, refl, Bool, true, false, Option, none, some, [], Text, codes, text_eq, text_key,
  if◌then◌else◌,
}
use rogue_learn_code_battle.Executor.Containers.{
  Docker, Summary, HostConfig, Manager, initialize_pool,
}
use rogue_learn_code_battle.Executor.Pool.Workers.{System, new_pool}

-- WorkerPoolOptions
pub record WorkerPoolOptions : Type 0 where
  pub max_workers : ℕ
  pub memory_limit_bytes : ℕ
  pub max_job_count : ℕ
  pub cpu_nano_limit : ℕ

-- The options of main.
abbrev pub main_options : WorkerPoolOptions
main_options = record {
  max_workers = 5;
  memory_limit_bytes = 512;
  max_job_count = 3;
  cpu_nano_limit = 1000;
}

-- How the start of a pool ends: the log file cannot be opened, an error is returned, or the pool
-- has its manager and its workers.
pub data Started (docker : Docker) : Type 0 where
  start_panicked start_failed : Started docker
  started : Manager docker.World → System docker → Started docker

-- The images of the program.
abbrev pub is_worker : Summary → Bool
is_worker c = text_eq c.image (codes "worker")

module _ (docker : Docker) where
  open docker use {World, container_list, container_create, container_start}

  -- NewDockerContainerManager behind the client and the log file.
  unfoldable pub new_docker_container_manager : WorkerPoolOptions → World → Manager World
  new_docker_container_manager opts w = record {
    locked = false;
    containers = [];
    max_workers = opts.max_workers;
    memory_limit_bytes = opts.memory_limit_bytes;
    cpu_nano_limit = opts.cpu_nano_limit;
    world = w;
  }

  -- NewWorkerPool; `client` is what NewDockerClient returns, `log_file` says that the file of the
  -- log opens, and the outer `none` blocks on the mutex.
  unfoldable pub new_worker_pool : WorkerPoolOptions → Option World → Bool → Option (Started docker)
  unfolding new_docker_container_manager
  new_worker_pool opts none log_file = some start_failed
  new_worker_pool opts (some w) log_file =
      if log_file
      then (elim (initialize_pool docker (new_docker_container_manager opts w)) [
        | none ↦ none
        | some (some err, d) ↦ some start_failed
        | some (none, d) ↦ some (started d (new_pool docker d.containers))
      ])
      else some start_panicked

  pub new_worker_pool-started :
      (opts : WorkerPoolOptions) (w : World) {d : Manager World}
      → initialize_pool docker (new_docker_container_manager opts w) ≡ some (none, d)
      → new_worker_pool opts (some w) true ≡ some (started d (new_pool docker d.containers))
  unfolding new_worker_pool
  new_worker_pool-started opts w e = rw (e, new_worker_pool) refl

  -- A Docker that makes and starts every container: each new one has an id of its own, where `Known`
  -- are the ids that were given out.
  pub record Starts (Known : World → Text → Type 0) : Type 0 where
    pub makes :
        (config : HostConfig) (w : World)
        → (id : Text) × (w' : World) × (container_create config w ≡ (some id, w'))
          × (id ≢ [])
          × (Known w id → ⊥)
          × Known w' id
          × ((j : Text) → Known w j → Known w' j)
    pub starts :
        (id : Text) (w : World)
        → (w' : World) × (container_start id w ≡ (true, w')) × ((j : Text) → Known w j → Known w' j)
