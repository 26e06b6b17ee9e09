-- ===== src/Executor/Containers/Claim.antt =====
-- GetAvailableContainer: whom it gives a container, and when it gives none.
use mathlib.Core.Path.{subst, subst₂, ◌∙◌}
use rogue_learn_code_battle.Base.{
  ℕ, zero, suc, ◌≡◌, ◌≢◌, ◌↔◌, refl, sym, inl, inr, true, false, Option, none, some, [], ◌∷◌, arith,
  Text, text_eq_iff, text_key, lookup, tally, UniqueKeys, Bool-cases, Option-cases,
}
use rogue_learn_code_battle.Executor.Containers.Defs.{
  ContainerState, idle, busy, is_idle, Containers, Manager, Docker, claim_idle, get_available_from,
  get_available_container, max_retries,
}

-- How many containers are idle.
abbrev pub idle_count : Containers → ℕ
idle_count = tally (λ entry. is_idle entry.1)

pub idle_of_is_idle : (s : ContainerState) → is_idle s ≡ true → s ≡ idle
idle_of_is_idle s h = ground arith

pub claim_idle-none : (c : Containers) → (claim_idle c ≡ none) ↔ (idle_count c ≡ 0)
unfolding claim_idle
claim_idle-none [] = ground arith
claim_idle-none ((i, s) ∷ c) = ground (arith, claim_idle-none c)

-- `id` was idle in `c`; in `c'` it is busy, and all else is as it was.
pub record Takes (c : Containers) (id : Text) (c' : Containers) : Type 0 where
  pub was_idle : lookup id c ≡ some idle
  pub is_busy : lookup id c' ≡ some busy
  pub others : (j : Text) → j ≢ id → lookup j c' ≡ lookup j c
  pub unique : UniqueKeys c'
  pub one_less : idle_count c ≡ suc (idle_count c')

Takes-head :
    (i : Text) (s : ContainerState) (c : Containers)
    → is_idle s ≡ true
    → UniqueKeys ((i, s) ∷ c)
    → Takes ((i, s) ∷ c) i ((i, busy) ∷ c)
Takes-head i s c h u = record {
  was_idle = ground (arith, text_eq_iff i i, idle_of_is_idle s h);
  is_busy = ground (arith, text_eq_iff i i);
  others = λ j ne. ground (arith, text_eq_iff i j);
  unique = u;
  one_less = ground arith;
}

Takes-tail :
    (i : Text) (s : ContainerState) {c : Containers} {id : Text} {c' : Containers}
    → is_idle s ≡ false
    → lookup i c ≡ none
    → Takes c id c'
    → Takes ((i, s) ∷ c) id ((i, s) ∷ c')
Takes-tail i s {c} {id} {c'} h fresh t = record {
  was_idle = ground (arith, text_eq_iff i id, t.was_idle);
  is_busy = ground (arith, text_eq_iff i id, t.was_idle, t.is_busy);
  others = λ j ne. ground (arith, t.others j ne);
  unique = (ground (arith, text_eq_iff i id, t.was_idle, t.others i), t.unique);
  one_less = ground (arith, t.one_less);
}

-- A claim takes one container that was idle, marks it busy, and changes nothing else.
pub claim_idle-Takes :
    (c : Containers) {id : Text} {c' : Containers}
    → UniqueKeys c
    → claim_idle c ≡ some (id, c')
    → Takes c id c'
unfolding claim_idle
claim_idle-Takes [] u h = cc
claim_idle-Takes ((i, s) ∷ c) {id} {c'} u h = elim (Bool-cases (is_idle s)) [
  | inl hit ↦
      let taken : ◌≡◌ {A = Option (Text × Containers)} (some (i, (i, busy) ∷ c)) (some (id, c')) =
        rw hit at h in
      subst₂ (Takes ((i, s) ∷ c)) (cc) (cc) (Takes-head i s c hit u)
  | inr miss ↦ elim (Option-cases (claim_idle c)) [
    | inl stuck ↦ cc (rw (miss, stuck) at h)
    | inr (r, e) ↦
        let taken : ◌≡◌ {A = Option (Text × Containers)} (some (r.0, (i, s) ∷ r.1))
            (some (id, c')) =
          rw (miss, e) at h in
        subst₂ (Takes ((i, s) ∷ c)) (cc) (cc) (Takes-tail i s miss u.0 (claim_idle-Takes c u.1 e))
  ]
]

-- The container is handed out: it is in the map, under one key, and busy.
pub record Held {W : Type 0} (id : Text) (d : Manager W) : Type 0 where
  pub unique : UniqueKeys d.containers
  pub is_busy : lookup id d.containers ≡ some busy

-- The mutex is free, no container is idle, and none has the empty id.
pub record IsExhausted {W : Type 0} (d : Manager W) : Type 0 where
  pub free : d.locked ≡ false
  pub none_idle : idle_count d.containers ≡ 0
  pub nameless : lookup [] d.containers ≡ none

-- What a call leaves of a container that was handed out before: it is not given again.
abbrev Spares : {W : Type 0} → Text → Option (Text × Manager W) → Type 0
Spares id none = Unit
Spares id (some (id', d')) = (id' ≢ id) × Held id d'

claim-Held :
    {W : Type 0} {id : Text} (d : Manager W) {id' : Text} {c' : Containers}
    → Held id d
    → claim_idle d.containers ≡ some (id', c')
    → (id' ≢ id) × Held id (record d { containers = c' })
claim-Held {id = id} d {id' = id'} h e =
    let t = claim_idle-Takes d.containers h.unique e in
    let apart : id' ≢ id = λ same. cc (same, t.was_idle, h.is_busy) in
    (
      apart,
      record { unique = t.unique; is_busy = t.others id (λ same. apart (sym same)) ∙ h.is_busy },
    )

module _ (docker : Docker) (meanwhile : ℕ → Manager docker.World → Manager docker.World) where
  module _ (id : Text)
      (keep : (n : ℕ) (d : Manager docker.World) → Held id d → Held id (meanwhile n d)) where
    get_available_from-Spares :
        (tries : ℕ) (d : Manager docker.World)
        → id ≢ []
        → Held id d
        → Spares id (get_available_from docker meanwhile tries d)
    unfolding get_available_from
    get_available_from-Spares zero d named h = (λ e. named (sym e), h)
    get_available_from-Spares (suc tries) d named h = elim (Bool-cases d.locked) [
      | inl wedged ↦ rw wedged tt
      | inr free ↦ elim (Option-cases (claim_idle d.containers)) [
        | inl stuck ↦
            rw (free, stuck, get_available_from)
              (get_available_from-Spares tries (meanwhile tries d) named (keep tries d h))
        | inr (r, e) ↦ rw (free, e, get_available_from) (claim-Held d h e)
      ]
    ]

  -- While a container is handed out, no call of GetAvailableContainer gives it to another worker,
  -- whatever else happens between the tries, as long as nobody releases it.
  get_available_container-ne :
      (id : Text)
      → ((n : ℕ) (d : Manager docker.World) → Held id d → Held id (meanwhile n d))
      → (d : Manager docker.World) {id' : Text} {d' : Manager docker.World} → id ≢ []
      → Held id d
      → get_available_container docker meanwhile d ≡ some (id', d')
      → (id' ≢ id) × Held id d'
  unfolding get_available_container
  get_available_container-ne id keep d named h e =
      subst (Spares id) e (get_available_from-Spares id keep max_retries d named h)

  get_available_from-IsExhausted :
      ((n : ℕ) (d : Manager docker.World) → IsExhausted d → IsExhausted (meanwhile n d))
      → (tries : ℕ) (d : Manager docker.World) → IsExhausted d
      → (d' : Manager docker.World) × (get_available_from docker meanwhile tries d ≡ some ([], d'))
        × IsExhausted d'
  unfolding get_available_from
  get_available_from-IsExhausted keep zero d x = (d, refl, x)
  get_available_from-IsExhausted keep (suc tries) d x =
      let (d', result, still) =
        get_available_from-IsExhausted keep tries (meanwhile tries d) (keep tries d x) in
      (
        d',
        rw (x.free, (claim_idle-none d.containers).1 x.none_idle, get_available_from) result,
        still,
      )

  -- With no container idle, and none released while the call sleeps, it returns the empty id: there
  -- is no error value by which the caller could tell.
  pub get_available_container-IsExhausted :
      ((n : ℕ) (d : Manager docker.World) → IsExhausted d → IsExhausted (meanwhile n d))
      → (d : Manager docker.World) → IsExhausted d
      → (d' : Manager docker.World) × (get_available_container docker meanwhile d ≡ some ([], d'))
        × IsExhausted d'
  unfolding get_available_container
  get_available_container-IsExhausted keep d x = get_available_from-IsExhausted keep max_retries d x

  -- With the mutex free and some container idle, the first try hands one out, and the manager
  -- changes in the state of that container alone.
  pub get_available_container-Takes :
      (d : Manager docker.World)
      → d.locked ≡ false
      → UniqueKeys d.containers
      → idle_count d.containers ≢ 0
      → (id : Text) × (c' : Containers) × (get_available_container docker meanwhile d
          ≡ some (id, record d { containers = c' }))
        × Takes d.containers id c'
  unfolding get_available_container get_available_from
  get_available_container-Takes d free unique some_idle =
      elim (Option-cases (claim_idle d.containers)) [
        | inl stuck ↦ absurd (some_idle ((claim_idle-none d.containers).0 stuck))
        | inr (r, e) ↦ (
          r.0,
          r.1,
          rw (e, get_available_container, get_available_from) (ground arith),
          claim_idle-Takes d.containers unique e,
        )
      ]
