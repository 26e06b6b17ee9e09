-- ===== src/Executor/Containers/Balance.antt =====
-- balanceWorker keeps the pool within its limit.
use rogue_learn_code_battle.Base.{
  ℕ, zero, suc, ◌+◌, ◌-◌, ◌≤◌, ◌≡◌, refl, ap, ◌∙◌, inl, inr, true, false, Option, none, some, List,
  [], ◌∷◌, arith, Text, text_key, text_eq_iff, text_eq_refl, lookup, delete, length, length-insert,
  length-delete_present, delete_absent, UniqueKeys, UniqueKeys-insert, ltb, ltb→lt, ltb→le,
  Bool-cases,
}
use rogue_learn_code_battle.Executor.Containers.Returns.{
  Returns, Returns-some, Returns-weaken, Returns-bind,
}
use rogue_learn_code_battle.Executor.Containers.Defs.{
  ManagerError, docker_error, Op, pure, Containers, ContainerState, idle, Manager, Docker, launch,
  start_container, start_needed, first_ids, remove_container, remove_all, remove_excess_container,
  balance_worker,
}
use rogue_learn_code_battle.Executor.Containers.Health.{Removed, remove_container-Removed}

-- At most `n` containers more, with the mutex free and the limit as it was.
record Grown {W : Type 0} (n : ℕ) (d d' : Manager W) : Type 0 where
  free : d'.locked ≡ false
  limit : d'.max_workers ≡ d.max_workers
  unique : UniqueKeys d'.containers
  size : length d'.containers ≤ length d.containers + n

-- A container may be deleted at its turn.
abbrev Picks : List Text → Containers → Type 0
Picks [] c = Unit
Picks (id ∷ ids) c = ((s : ContainerState) × (lookup id c ≡ some s)) × Picks ids (delete id c)

first_ids-Picks : (n : ℕ) (c : Containers) → UniqueKeys c → Picks (first_ids n c) c
unfolding first_ids
first_ids-Picks zero c u = tt
first_ids-Picks (suc n) [] u = tt
first_ids-Picks (suc n) ((i, s) ∷ c) u = (
  (s, ground (arith, text_eq_iff i i)),
  rw (text_eq_refl i) (rw (delete_absent i c u.0) (first_ids-Picks n c u.1)),
)

length-first_ids : (n : ℕ) (c : Containers) → n ≤ length c → length (first_ids n c) ≡ n
unfolding first_ids
length-first_ids zero c h = refl
length-first_ids (suc n) [] h = absurd (omega arith)
length-first_ids (suc n) ((i, s) ∷ c) h = omega (arith, length-first_ids n c)

-- The mutex and the limit as they were and, without an error, `n` containers fewer.
abbrev Shrunk : {W : Type 0} → ℕ → Manager W → Option ManagerError → Manager W → Type 0
Shrunk n d err d' =
    (d'.locked ≡ d.locked)
    × (d'.max_workers ≡ d.max_workers)
    × (err ≡ none → length d'.containers + n ≤ length d.containers)

module _ (docker : Docker) where
  open docker use {World}

  launch-Grown :
      (made : Option Text) (d : Manager World)
      → d.locked ≡ false
      → UniqueKeys d.containers
      → Returns (λ _ d'. Grown 1 d d') (launch docker made d)
  unfolding launch
  launch-Grown none d free u =
      Returns-some (some docker_error) d
        (record { free = free; limit = refl; unique = u; size = omega arith })
  launch-Grown (some id) d free u = elim (Bool-cases (docker.container_start id d.world).0) [
    | inl ok ↦
        rw (ok, free, launch)
          (Returns-some none _ (record {
            free = refl;
            limit = refl;
            unique = UniqueKeys-insert id idle d.containers u;
            size = length-insert id idle d.containers;
          }))
    | inr failed ↦
        rw (failed, launch)
          (Returns-some (some docker_error) _
            (record { free = free; limit = refl; unique = u; size = omega arith }))
  ]

  start_container-Grown :
      (d : Manager World)
      → d.locked ≡ false
      → UniqueKeys d.containers
      → Returns (λ _ d'. Grown 1 d d') (start_container docker d)
  unfolding start_container
  start_container-Grown d free u =
      rw (free, start_container)
        (Returns-weaken (launch-Grown _ _ refl u)
          (λ _ d' g. record { free = g.free; limit = g.limit; unique = g.unique; size = g.size }))

  start_needed-next :
      (n : ℕ) (d d₁ : Manager World) (err : Option ManagerError)
      → Grown 1 d d₁
      → Returns (λ _ d'. Grown n d₁ d') (start_needed docker n d₁)
      → Returns
          (λ _ d'. Grown (suc n) d d')
          ((elim err as (λ _. Op World (Option ManagerError)) [
            | some e ↦ pure (some e)
            | none ↦ start_needed docker n
          ])
            d₁)
  start_needed-next n d d₁ none g r = Returns-weaken r (λ _ d' h. record {
    free = h.free;
    limit = h.limit ∙ g.limit;
    unique = h.unique;
    size = omega (arith, h.size, g.size);
  })
  start_needed-next n d d₁ (some e) g r =
      Returns-some (some e) d₁
        (record { free = g.free; limit = g.limit; unique = g.unique; size = omega (arith, g.size) })

  start_needed-Grown :
      (n : ℕ) (d : Manager World)
      → d.locked ≡ false
      → UniqueKeys d.containers
      → Returns (λ _ d'. Grown n d d') (start_needed docker n d)
  unfolding start_needed
  start_needed-Grown zero d free u =
      Returns-some none d (record { free = free; limit = refl; unique = u; size = omega arith })
  start_needed-Grown (suc n) d free u =
      Returns-bind (start_container docker) _ d (start_container-Grown d free u)
        (λ err d₁ g. start_needed-next n d d₁ err g (start_needed-Grown n d₁ g.free g.unique))

  remove_all-next :
      (id : Text) (ids : List Text) (s : ContainerState) (d d₁ : Manager World)
      (err : Option ManagerError)
      → lookup id d.containers ≡ some s
      → Removed id d err d₁
      → (d₁.containers ≡ delete id d.containers
          → Returns (Shrunk (length ids) d₁) (remove_all docker ids d₁))
      → Returns (Shrunk (suc (length ids)) d) (
          (elim err as (λ _. Op World (Option ManagerError)) [
            | some e ↦ pure (some e)
            | none ↦ remove_all docker ids
          ])
            d₁)
  remove_all-next id ids s d d₁ (some e) here (same, limit, what) go =
      Returns-some (some e) d₁ (same, limit, λ no. cc)
  remove_all-next id ids s d d₁ none here (same, limit, inr (odd, _)) go = cc
  remove_all-next id ids s d d₁ none here (same, limit, inl (_, gone)) go =
      Returns-weaken (go gone) (λ err d' h. (
        h.0 ∙ same,
        h.1 ∙ limit,
        λ e. omega (arith, h.2 e, ap length gone, length-delete_present id d.containers here),
      ))

  -- A removal that succeeds throughout shrinks the map by as many containers.
  remove_all-Shrunk :
      (ids : List Text) (d : Manager World)
      → Picks ids d.containers
      → Returns (Shrunk (length ids) d) (remove_all docker ids d)
  unfolding remove_all
  remove_all-Shrunk [] d p = Returns-some none d (refl, refl, λ _. omega arith)
  remove_all-Shrunk (id ∷ ids) d ((s, here), p) =
      Returns-bind (remove_container docker id) _ d (remove_container-Removed docker id d)
        (λ err d₁ removed.
          remove_all-next id ids s d d₁ err here removed
            (λ gone. remove_all-Shrunk ids d₁ (rw gone p)))

  remove_excess_container-length :
      (amount : ℕ) (d : Manager World)
      → d.locked ≡ false
      → UniqueKeys d.containers
      → amount ≤ length d.containers
      → Returns
          (λ err d'.
            (d'.locked ≡ false)
            × (d'.max_workers ≡ d.max_workers)
            × (err ≡ none → length d'.containers + amount ≤ length d.containers))
          (remove_excess_container docker amount d)
  unfolding remove_excess_container
  remove_excess_container-length amount d free u fits =
      rw (free, remove_excess_container)
        (Returns-bind (remove_all docker (first_ids amount d.containers)) _
          (record d { locked = true })
          (remove_all-Shrunk (first_ids amount d.containers) (record d { locked = true })
            (first_ids-Picks amount d.containers u))
          (λ err d₁ h.
            Returns-some err _
              (refl, h.1, λ e. omega (arith, h.2 e, length-first_ids amount d.containers fits))))

  -- When balanceWorker returns without an error the pool has at most max_workers containers, the
  -- mutex is free again, and the limit is as it was.
  pub balance_worker-bounded :
      (d : Manager World)
      → d.locked ≡ false
      → UniqueKeys d.containers
      → Returns
          (λ err d'.
            (d'.locked ≡ false)
            × (d'.max_workers ≡ d.max_workers)
            × (err ≡ none → length d'.containers ≤ d.max_workers))
          (balance_worker docker d)
  unfolding balance_worker
  balance_worker-bounded d free u = elim (Bool-cases (ltb (length d.containers) d.max_workers)) [
    | inl few ↦
        rw (few, balance_worker)
          (Returns-weaken (start_needed-Grown (d.max_workers - length d.containers) d free u)
            (λ err d' g. (g.free, g.limit, λ _. omega (arith, g.size, ltb→lt _ _ few))))
    | inr enough ↦ elim (Bool-cases (ltb d.max_workers (length d.containers))) [
      | inr exact ↦
          rw (enough, exact, balance_worker)
            (Returns-some none d (free, refl, λ _. ltb→le _ _ exact))
      | inl many ↦
          rw (enough, many, balance_worker)
            (Returns-weaken
              (remove_excess_container-length (length d.containers - d.max_workers) d free u
                (omega arith))
              (λ err d' h. (h.0, h.1, λ e. omega (arith, h.2 e, ltb→lt _ _ many))))
    ]
  ]
