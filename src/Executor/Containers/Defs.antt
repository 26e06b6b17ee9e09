-- ===== src/Executor/Containers/Defs.antt =====
-- The state and the operations of DockerContainerManager.
use rogue_learn_code_battle.Base.{
  ℕ, zero, suc, ◌-◌, ◌*◌, Bool, true, false, not, ◌&&◌, Option, none, some, List, [], ◌∷◌, Text,
  codes, text_eq, text_key, lookup, insert, delete, length, ltb, if◌then◌else◌,
}

-- container.ContainerState, with the four values that the program names.
pub data ContainerState : Type 0 where
  idle busy error running : ContainerState
  other_state : Text → ContainerState

abbrev pub is_idle : ContainerState → Bool
is_idle idle = true
is_idle _ = false

abbrev pub is_running : ContainerState → Bool
is_running running = true
is_running _ = false

abbrev pub is_error : ContainerState → Bool
is_error error = true
is_error _ = false

-- The fields of container.Summary that the program reads.
pub record Summary : Type 0 where
  pub id : Text
  pub image : Text
  pub state : ContainerState

-- The configuration that StartContainer sends.
pub record HostConfig : Type 0 where
  pub image : Text
  pub memory : ℕ
  pub nano_cpus : ℕ
  pub network_mode : Text
  pub maximum_retry_count : ℕ

-- executor.ExecuteCommandResult; `failed` says that Err is not nil.
pub record ExecuteCommandResult : Type 0 where
  pub stdout : Text
  pub stderr : Text
  pub failed : Bool
  pub duration_ms : ℕ

-- The Docker client and the `docker exec` command; `true` is a call without an error.
pub record Docker : Type 1 where
  pub World : Type 0
  pub container_list : World → Option (List Summary)
  pub container_create : HostConfig → World → Option Text × World
  pub container_start : Text → World → Bool × World
  pub container_remove : Text → World → Bool × World
  pub copy_to_container : Text → Text → Text → Text → World → Bool × World
  pub exec : Text → Text → Text → World → ExecuteCommandResult × World

pub data ManagerError : Type 0 where
  err_container_not_found docker_error : ManagerError

abbrev pub Containers : Type 0
Containers = List (Text × ContainerState)

-- DockerContainerManager, with the state of its client; the logger is left out.
pub record Manager (W : Type 0) : Type 0 where
  pub locked : Bool
  pub containers : Containers
  pub max_workers : ℕ
  pub memory_limit_bytes : ℕ
  pub cpu_nano_limit : ℕ
  pub world : W

-- An operation: `none` blocks on the mutex for ever.
abbrev pub Op : Type 0 → Type 0 → Type 0
Op W A = Manager W → Option (A × Manager W)

infixl 5 ◌>>=◌ ◌>>◌
abbrev pub ◌>>=◌ : {W A B : Type 0} → Op W A → (A → Op W B) → Op W B
◌>>=◌ m f d = elim (m d) [ none ↦ none | some (a, d') ↦ f a d' ]

abbrev pub ◌>>◌ : {W B : Type 0} → Op W (Unit {0}) → Op W B → Op W B
m >> k = m >>= λ _. k

abbrev pub pure : {W A : Type 0} → A → Op W A
pure a d = some (a, d)

-- mu.Lock() and mu.Unlock()
abbrev pub lock : {W : Type 0} → Op W (Unit {0})
lock d = if d.locked then none else some (tt, record d { locked = true })

abbrev pub unlock : {W : Type 0} → Op W (Unit {0})
unlock d = some (tt, record d { locked = false })

abbrev pub mb : ℕ
mb = 1024 * 1024

abbrev pub max_retries : ℕ
max_retries = 10

-- The body of the loop of GetAvailableContainer: the first idle container becomes busy.
unfoldable pub claim_idle : Containers → Option (Text × Containers)
claim_idle [] = none
claim_idle ((id, state) ∷ rest) =
    if is_idle state then some (id, (id, busy) ∷ rest) else elim (claim_idle rest) [
      | none ↦ none
      | some (found, rest') ↦ some (found, (id, state) ∷ rest')
    ]

-- The write `c.State = state` through the pointer that the map holds.
unfoldable pub set_state : Text → ContainerState → Containers → Containers
set_state id state containers = elim (lookup id containers) [
  | none ↦ containers
  | some _ ↦ insert id state containers
]

-- The ids that removeExcessContainer collects.
unfoldable pub first_ids : ℕ → Containers → List Text
first_ids zero containers = []
first_ids (suc amount) [] = []
first_ids (suc amount) ((id, _) ∷ rest) = id ∷ first_ids amount rest

-- isRunningContainer
abbrev pub is_running_container : Containers → Summary → Bool
is_running_container containers c =
    text_eq c.image (codes "worker")
    && (elim (lookup c.id containers) [ some _ ↦ true | none ↦ false ] && not (is_error c.state))

-- The map runningWorkers of checkHealth.
unfoldable pub running_workers : Containers → List Summary → List (Text × Bool)
running_workers containers [] = []
running_workers containers (c ∷ cs) =
    let rest = running_workers containers cs in
    if is_running_container containers c then insert c.id true rest else rest

module _ (docker : Docker) where
  open docker use {World, container_list, container_create, container_start, container_remove}

  -- RemoveContainer
  unfoldable pub remove_container : Text → Op World (Option ManagerError)
  remove_container id d =
      let (removed, world) = container_remove id d.world in
      if removed
      then some (none, record d { containers = delete id d.containers; world = world })
      else some (some docker_error, record d { world = world })

  -- The call of ContainerCreate, and that of ContainerStart, in StartContainer.
  unfoldable pub create : Op World (Option Text)
  create d =
      let (made, world) =
        container_create
          (record {
            image = codes "worker";
            memory = d.memory_limit_bytes * mb;
            nano_cpus = d.cpu_nano_limit * 1000000;
            network_mode = codes "none";
            maximum_retry_count = 3;
          })
          d.world in
      some (made, record d { world = world })

  pub start : Text → Op World Bool
  start id d = let (ok, world) = container_start id d.world in some (ok, record d { world = world })

  pub add_idle : Text → Op World (Unit {0})
  add_idle id d = some (tt, record d { containers = insert id idle d.containers })

  -- StartContainer behind the call of ContainerCreate.
  unfoldable pub launch : Option Text → Op World (Option ManagerError)
  unfolding start add_idle
  launch none = pure (some docker_error)
  launch (some id) = do
    started ← start id
    if started then (do lock; add_idle id; unlock; pure none) else pure (some docker_error)

  -- StartContainer. Above the limit it only logs a warning.
  unfoldable pub start_container : Op World (Option ManagerError)
  unfolding create
  start_container = do lock; unlock; made ← create; launch made

  -- The loop of removeExcessContainer, up to its first error.
  unfoldable pub remove_all : List Text → Op World (Option ManagerError)
  remove_all [] = pure none
  remove_all (id ∷ ids) = do
    err ← remove_container id
    elim err [ some e ↦ pure (some e) | none ↦ remove_all ids ]

  -- removeExcessContainer
  unfoldable pub remove_excess_container : ℕ → Op World (Option ManagerError)
  unfolding first_ids
  remove_excess_container amount = do
    lock
    removes ← λ d. some (first_ids amount d.containers, d)
    err ← remove_all removes
    unlock
    pure err

  -- The loop of balanceWorker that starts containers.
  unfoldable pub start_needed : ℕ → Op World (Option ManagerError)
  start_needed zero = pure none
  start_needed (suc needed) = do
    err ← start_container
    elim err [ some e ↦ pure (some e) | none ↦ start_needed needed ]

  -- balanceWorker
  unfoldable pub balance_worker : Op World (Option ManagerError)
  balance_worker d =
      let current_count = length d.containers in
      if ltb current_count d.max_workers
      then start_needed (d.max_workers - current_count) d
      else if ltb d.max_workers current_count
      then remove_excess_container (current_count - d.max_workers) d
      else some (none, d)

  -- The loop of InitializePool that registers the containers that it finds.
  unfoldable pub register_workers : List Summary → Op World (Unit {0})
  register_workers [] = pure tt
  register_workers (c ∷ cs) =
      if text_eq c.image (codes "worker")
      then (do
        lock
        (λ d. some (
          tt,
          record d {
            containers = insert c.id (if is_running c.state then idle else error) d.containers;
          },
        ))
        unlock
        register_workers cs)
      else register_workers cs

  -- InitializePool; what balanceWorker returns is dropped.
  unfoldable pub initialize_pool : Op World (Option ManagerError)
  initialize_pool d = elim (container_list d.world) [
    | none ↦ some (some docker_error, d)
    | some containers ↦ (do register_workers containers; _ ← balance_worker; pure none) d
  ]

  -- The loop of checkHealth over the ids of the pool: those not in the map are removed, and a
  -- failure to remove one is only logged.
  unfoldable pub sweep : List (Text × Bool) → Containers → Op World (Unit {0})
  sweep alive [] = pure tt
  sweep alive ((id, _) ∷ rest) = elim (lookup id alive) [
    | some _ ↦ sweep alive rest
    | none ↦ do _ ← remove_container id; sweep alive rest
  ]

  -- checkHealth: it locks the mutex, and no path of it unlocks.
  unfoldable pub check_health : Op World (Unit {0})
  unfolding running_workers
  check_health d = elim (container_list d.world) [
    | none ↦ some (tt, d)
    | some containers ↦
        let alive = running_workers d.containers containers in (do lock; sweep alive d.containers) d
  ]

  -- GetAvailableContainer. `meanwhile` is what the other goroutines do to the manager while this
  -- one sleeps between two tries; the result is "" when every try found no idle container.
  unfoldable pub get_available_from : (ℕ → Manager World → Manager World) → ℕ → Op World Text
  get_available_from meanwhile zero d = some ([], d)
  get_available_from meanwhile (suc tries) d =
      if d.locked then none else elim (claim_idle d.containers) [
        | some (id, containers) ↦ some (id, record d { containers = containers })
        | none ↦ get_available_from meanwhile tries (meanwhile tries d)
      ]

  unfoldable pub get_available_container : (ℕ → Manager World → Manager World) → Op World Text
  unfolding get_available_from
  get_available_container meanwhile = get_available_from meanwhile max_retries

  -- SetContainerState, which does not lock.
  unfoldable pub set_container_state : Text → ContainerState → Op World (Option ManagerError)
  unfolding set_state
  set_container_state id state d = elim (lookup id d.containers) [
    | none ↦ some (some err_container_not_found, d)
    | some _ ↦ some (none, record d { containers = set_state id state d.containers })
  ]

  -- The loop of ShutDown; errors are dropped.
  unfoldable pub remove_each : Containers → Op World (Unit {0})
  remove_each [] = pure tt
  remove_each ((id, _) ∷ rest) = do _ ← remove_container id; remove_each rest

  -- ShutDown
  unfoldable pub shut_down : Op World (Unit {0})
  unfolding remove_each
  shut_down = do lock; all ← λ d. some (d.containers, d); remove_each all; unlock
