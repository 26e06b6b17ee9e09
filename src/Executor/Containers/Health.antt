-- ===== src/Executor/Containers/Health.antt =====
-- checkHealth: what it removes, and what becomes of the mutex.
use rogue_learn_code_battle.Base.{
  ℕ, ◌≡◌, ◌≢◌, ◌⊎◌, refl, ◌∙◌, inl, inr, Bool, true, false, Option, none, some, List, [], ◌∷◌,
  arith, Text, text_eq_iff, text_key, lookup, delete, lookup-delete, Bool-cases, Option-cases,
}
use rogue_learn_code_battle.Executor.Containers.Returns.{
  Returns, Returns-some, Returns-weaken, Returns-bind,
}
use rogue_learn_code_battle.Executor.Containers.Defs.{
  ManagerError, docker_error, Containers, Manager, Docker, Summary, remove_container,
  start_container, remove_excess_container, shut_down, sweep, check_health, running_workers,
  get_available_container,
}

-- What a call of RemoveContainer leaves: the mutex as it was, and the map with the container
-- deleted or, after an error, as it was.
abbrev pub Removed : {W : Type 0} → Text → Manager W → Option ManagerError → Manager W → Type 0
Removed id d err d' =
    (d'.locked ≡ d.locked)
    × (d'.max_workers ≡ d.max_workers)
    × (((err ≡ none) × (d'.containers ≡ delete id d.containers))
        ⊎ ((err ≡ some docker_error) × (d'.containers ≡ d.containers)))

pub remove_container-Removed :
    (docker : Docker) (id : Text) (d : Manager docker.World)
    → Returns (Removed id d) (remove_container docker id d)
unfolding remove_container
remove_container-Removed docker id d = elim (Bool-cases (docker.container_remove id d.world).0) [
  | inl ok ↦ rw (ok, remove_container) (Returns-some none _ (refl, refl, inl (refl, refl)))
  | inr failed ↦
      rw (failed, remove_container)
        (Returns-some (some docker_error) _ (refl, refl, inr (refl, refl)))
]

-- Between the two managers no container came, and none of those in `alive` went.
abbrev Swept : {W : Type 0} → List (Text × Bool) → Manager W → Unit {0} → Manager W → Type 0
Swept alive d _ d' =
    (d'.locked ≡ d.locked)
    × ((j : Text)
        → (lookup j d'.containers ≡ lookup j d.containers)
          ⊎ ((lookup j d'.containers ≡ none) × (lookup j alive ≡ none)))

module _ (docker : Docker) where
  open docker use {World, container_list, container_remove}

  Swept-step :
      (alive : List (Text × Bool)) (id : Text) (d d₁ d₂ : Manager World) (err : Option ManagerError)
      → lookup id alive ≡ none
      → Removed id d err d₁
      → Swept alive d₁ tt d₂
      → Swept alive d tt d₂
  Swept-step alive id d d₁ d₂ err dead (same, _, what) (same₂, more) = (
    same₂ ∙ same,
    λ j. ground (arith, more j, what, lookup-delete id j d.containers, text_eq_iff id j),
  )

  sweep-Swept :
      (alive : List (Text × Bool)) (rest : Containers) (d : Manager World)
      → Returns (Swept alive d) (sweep docker alive rest d)
  unfolding sweep
  sweep-Swept alive [] d = Returns-some tt d (refl, λ j. inl refl)
  sweep-Swept alive ((id, s) ∷ rest) d = elim (Option-cases (lookup id alive)) [
    | inr (x, e) ↦ rw (e, sweep) (sweep-Swept alive rest d)
    | inl dead ↦
        rw (dead, sweep)
          (Returns-bind (remove_container docker id) (λ _. sweep docker alive rest) d
            (remove_container-Removed docker id d)
            (λ err d₁ removed.
              Returns-weaken (sweep-Swept alive rest d₁)
                (λ _ d₂ swept. Swept-step alive id d d₁ d₂ err dead removed swept)))
  ]

  -- Every operation that locks the mutex blocks for ever; so does the next checkHealth whose
  -- listing succeeds.
  pub record IsWedged (d : Manager World) : Type 0 where
    pub starting : start_container docker d ≡ none
    pub removing : (amount : ℕ) → remove_excess_container docker amount d ≡ none
    pub stopping : shut_down docker d ≡ none
    pub claiming :
        (meanwhile : ℕ → Manager World → Manager World)
        → get_available_container docker meanwhile d ≡ none
    pub checking :
        (listed : List Summary)
        → container_list d.world ≡ some listed
        → check_health docker d ≡ none

  locked-IsWedged : (d : Manager World) → d.locked ≡ true → IsWedged d
  unfolding start_container remove_excess_container shut_down get_available_container check_health
  locked-IsWedged d wedged = record {
    starting = rw (wedged, start_container);
    removing = λ amount. rw (wedged, remove_excess_container);
    stopping = rw (wedged, shut_down);
    claiming = λ meanwhile. rw (wedged, get_available_container);
    checking = λ listed ok. rw (ok, wedged, check_health);
  }

  -- A checkHealth that has listed the containers returns with the mutex still locked, and from
  -- then on every operation that takes the mutex blocks for ever.
  pub check_health-IsWedged :
      (d : Manager World) (listed : List Summary)
      → d.locked ≡ false
      → container_list d.world ≡ some listed
      → Returns (λ _ d'. IsWedged d') (check_health docker d)
  unfolding check_health
  check_health-IsWedged d listed free ok =
      rw (ok, free, check_health)
        (Returns-weaken
          (sweep-Swept (running_workers d.containers listed) d.containers
            (record d { locked = true }))
          (λ _ d' swept. locked-IsWedged d' swept.0))

  -- With the mutex free, a checkHealth that has listed the containers returns, and a container of
  -- the pool that is listed as a worker in a state other than "error" has the entry that it had.
  check_health_spares :
      (d : Manager World) (listed : List Summary) (j : Text)
      → d.locked ≡ false
      → container_list d.world ≡ some listed
      → lookup j (running_workers d.containers listed) ≢ none
      → Returns (λ _ d'. lookup j d'.containers ≡ lookup j d.containers) (check_health docker d)
  unfolding check_health
  check_health_spares d listed j free ok alive =
      rw (ok, free, check_health)
        (Returns-weaken
          (sweep-Swept (running_workers d.containers listed) d.containers
            (record d { locked = true }))
          (λ _ d' swept. elim (swept.1 j) [
            | inl kept ↦ kept
            | inr (_, dead) ↦ absurd (alive dead)
          ]))
