-- ===== src/Executor/Pool/Workers/Counts.antt =====
-- How many workers have a container, and how many containers are idle.
use rogue_learn_code_battle.Base.{
  ℕ, zero, suc, ◌+◌, ◌≤◌, ◌≡◌, ◌≢◌, refl, sym, ◌∙◌, ap, inl, inr, some, [], ◌∷◌, arith, Text,
  text_key, text_eq_iff, lookup, insert, Bool-cases, ltb, ltb→lt, ltb→le, if◌then◌else◌,
}
use rogue_learn_code_battle.Executor.Containers.{Containers, ContainerState, is_idle, set_state}
use rogue_learn_code_battle.Executor.Containers.Claim.{idle_count}
use rogue_learn_code_battle.Executor.Pool.Workers.{
  WorkerPhase, waiting, claiming, marking, running, releasing, update,
}
use rogue_learn_code_battle.Executor.Pool.Workers.Exclusive.{update-cases}

-- One for a worker that has a container.
abbrev pub weight : WorkerPhase → ℕ
weight (marking (b ∷ bs) t) = 1
weight (running id t) = 1
weight (releasing id) = 1
weight _ = 0

-- How many of the first `n` workers have a container.
abbrev pub holders : ℕ → (ℕ → WorkerPhase) → ℕ
holders zero phases = 0
holders (suc n) phases = weight (phases n) + holders n phases

abbrev pub one_if_idle : ContainerState → ℕ
one_if_idle s = if is_idle s then 1 else 0

weight-le : (p : WorkerPhase) → weight p ≤ 1
weight-le (marking [] t) = omega arith
weight-le (marking (b ∷ bs) t) = omega arith
weight-le waiting = omega arith
weight-le (claiming n t) = omega arith
weight-le (running id t) = omega arith
weight-le (releasing id) = omega arith

holders-le : (n : ℕ) (phases : ℕ → WorkerPhase) → holders n phases ≤ n
holders-le zero phases = omega arith
holders-le (suc n) phases = omega (arith, weight-le (phases n), holders-le n phases)

pub holders-lt :
    (n i : ℕ) (phases : ℕ → WorkerPhase)
    → suc i ≤ n
    → weight (phases i) ≡ 0
    → suc (holders n phases) ≤ n
holders-lt zero i phases h e = absurd (omega (arith, h))
holders-lt (suc n) i phases h e = elim (Bool-cases (ltb i n)) [
  | inl below ↦ omega (arith, weight-le (phases n), holders-lt n i phases (ltb→lt i n below) e)
  | inr above ↦
      let same : i ≡ n = omega (arith, h, ltb→le i n above) in
      omega (arith, holders-le n phases, sym (ap (λ k. weight (phases k)) same) ∙ e)
]

holders-update_above :
    (n i : ℕ) (p : WorkerPhase) (phases : ℕ → WorkerPhase)
    → n ≤ i
    → holders n (update i p phases) ≡ holders n phases
holders-update_above zero i p phases h = refl
holders-update_above (suc n) i p phases h = elim (update-cases i n p phases) [
  | inl (same, at) ↦ absurd (omega (arith, h, same))
  | inr (other, off) ↦
      omega (arith, ap weight off, holders-update_above n i p phases (omega (arith, h)))
]

ne-lt : (i n : ℕ) → i ≢ n → suc i ≤ suc n → suc i ≤ n
ne-lt i n ne h = omega (arith, ne, h)

pub holders-update :
    (n i : ℕ) (p : WorkerPhase) (phases : ℕ → WorkerPhase)
    → suc i ≤ n
    → holders n (update i p phases) + weight (phases i) ≡ holders n phases + weight p
holders-update zero i p phases h = absurd (omega (arith, h))
holders-update (suc n) i p phases h = elim (update-cases i n p phases) [
  | inl (same, at) ↦ omega (
    arith,
    ap weight at,
    ap (λ k. weight (phases k)) same,
    holders-update_above n i p phases (omega (arith, same)),
  )
  | inr (other, off) ↦ omega (arith, ap weight off, holders-update n i p phases (ne-lt i n other h))
]

-- A written state counts in the place of the old one.
idle_count-insert :
    (id : Text) (s old : ContainerState) (c : Containers)
    → lookup id c ≡ some old
    → idle_count (insert id s c) + one_if_idle old ≡ idle_count c + one_if_idle s
idle_count-insert id s old [] h = cc
idle_count-insert id s old ((j, r) ∷ c) h =
    ground (arith, text_eq_iff j id, idle_count-insert id s old c)

pub idle_count-set_state :
    (id : Text) (s old : ContainerState) (c : Containers)
    → lookup id c ≡ some old
    → idle_count (set_state id s c) + one_if_idle old ≡ idle_count c + one_if_idle s
unfolding set_state
idle_count-set_state id s old c h = rw (h, set_state) (idle_count-insert id s old c h)
