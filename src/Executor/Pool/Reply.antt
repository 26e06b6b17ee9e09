-- ===== src/Executor/Pool/Reply.antt =====
-- When a job gets a reply, and when its caller waits for ever.
use mathlib.Core.Path.{◌∙◌}
use rogue_learn_code_battle.Base.{
  ℕ, ◌≡◌, ◌≢◌, ap, true, false, none, some, [], Text, text_eq_refl, text_key, lookup, insert,
  lookup-insert, UniqueKeys, UniqueKeys-insert,
}
use rogue_learn_code_battle.Executor.Containers.{
  Docker, Manager, err_container_not_found, ContainerState, idle, busy, get_available_container,
  set_container_state, set_state,
}
use rogue_learn_code_battle.Executor.Containers.Returns.{bind-some}
use rogue_learn_code_battle.Executor.Containers.Claim.{
  Held, idle_count, get_available_container-Takes, get_available_container-IsExhausted, IsExhausted,
}
use rogue_learn_code_battle.Executor.Pool.Defs.{
  Job, Others, Queue, has_room, judge, execute_job, await, run_job,
}

module _ (docker : Docker) where
  open docker use {World}

  set_container_state-some :
      (id : Text) (state : ContainerState) (d : Manager World) {s : ContainerState}
      → lookup id d.containers ≡ some s
      → (set_container_state docker id state d
          ≡ some (none, record d { containers = insert id state d.containers }))
  unfolding set_container_state set_state
  set_container_state-some id state d here = rw (here, set_container_state) (rw (here, set_state))

  set_container_state-none :
      (id : Text) (state : ContainerState) (d : Manager World)
      → lookup id d.containers ≡ none
      → set_container_state docker id state d ≡ some (some err_container_not_found, d)
  unfolding set_container_state
  set_container_state-none id state d gone = rw (gone, set_container_state)

  -- The manager when the job is done, before its container is made idle.
  abbrev finished : Others docker → Text → Job → Manager World → Manager World
  finished others id job d = others.during (record d {
    containers = insert id busy d.containers;
    world = (judge docker id job d.world).1;
  })

  execute_job-runs :
      (others : Others docker) (job : Job) (d d₁ : Manager World) (id : Text) {s : ContainerState}
      → get_available_container docker others.meanwhile d ≡ some (id, d₁)
      → lookup id d₁.containers ≡ some busy
      → lookup id (finished others id job d₁).containers ≡ some s
      → execute_job docker others job d
        ≡ some (
          some (judge docker id job d₁.world).0,
          record (finished others id job d₁) {
            containers = insert id idle (finished others id job d₁).containers;
          },
        )
  unfolding execute_job
  execute_job-runs others job d d₁ id got here still =
      bind-some (get_available_container docker others.meanwhile) _ got
      ∙ bind-some (set_container_state docker id busy) _ (set_container_state-some id busy d₁ here)
      ∙ bind-some (set_container_state docker id idle) _
          (set_container_state-some id idle (finished others id job d₁) still)

  -- The job runs in a container that was idle: the caller gets the verdict of that run, and the
  -- container is idle again. The mutex is free and the other goroutines do not take back a
  -- container that is handed out.
  pub run_job-replies :
      (q : Queue) (others : Others docker) (job : Job) (d : Manager World)
      → has_room q ≡ true
      → d.locked ≡ false
      → UniqueKeys d.containers
      → idle_count d.containers ≢ 0
      → ((id : Text) (e : Manager World) → Held id e → Held id (others.during e))
      → (id : Text) × (d' : Manager World) × (run_job docker q others job d
          ≡ some ((judge docker id job d.world).0, d'))
        × (lookup id d.containers ≡ some idle)
        × (lookup id d'.containers ≡ some idle)
  unfolding run_job execute_job
  run_job-replies q others job d room free unique some_idle keep =
      let (id, c', got, takes) =
        get_available_container-Takes docker others.meanwhile d free unique some_idle in
      let d₁ : Manager World = record d { containers = c' } in
      let held : Held id
          (record d { containers = insert id busy c'; world = (judge docker id job d.world).1 }) =
        record {
          unique = UniqueKeys-insert id busy c' takes.unique;
          is_busy = rw (lookup-insert id id busy c', text_eq_refl id);
        } in
      let still = (keep id _ held).is_busy in
      (
        id,
        record (finished others id job d₁) {
          containers = insert id idle (finished others id job d₁).containers;
        },
        rw (room, execute_job-runs others job d d₁ id got takes.is_busy still, run_job),
        takes.was_idle,
        rw (lookup-insert id id idle (finished others id job d₁).containers, text_eq_refl id),
      )

  -- With the mutex free, no container idle, and none made idle while the worker tries, the job is
  -- dropped without a reply: ExecuteJob never returns. The worker has by then asked for the
  -- container with the empty id, which the map does not hold.
  pub run_job-hangs :
      (q : Queue) (others : Others docker) (job : Job) (d : Manager World)
      → has_room q ≡ true
      → IsExhausted d
      → ((n : ℕ) (e : Manager World) → IsExhausted e → IsExhausted (others.meanwhile n e))
      → run_job docker q others job d ≡ none
  unfolding run_job execute_job
  run_job-hangs q others job d room x keep =
      let (d', got, x') = get_available_container-IsExhausted docker others.meanwhile keep d x in
      let dropped =
        bind-some (get_available_container docker others.meanwhile) _ got
        ∙ bind-some (set_container_state docker [] busy) _
            (set_container_state-none [] busy d' x'.nameless) in
      rw (room, run_job) (ap (await docker) dropped)
