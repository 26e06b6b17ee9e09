-- ===== src/Executor/Pool/Workers/Order.antt =====
-- The order of the containers in the map, which a range over it does not keep.
use rogue_learn_code_battle.Base.{
  ℕ, zero, suc, ◌≡◌, refl, ◌∙◌, false, [], ◌∷◌, Text, text_key, text_eq, text_eq_iff, lookup,
  UniqueKeys, arith,
}
use rogue_learn_code_battle.Executor.Containers.{Containers}
use rogue_learn_code_battle.Executor.Containers.Claim.{idle_count}
use rogue_learn_code_battle.Executor.Pool.Workers.{swap_at}

pub lookup-swap_at :
    (k : ℕ) (id : Text) (c : Containers) → UniqueKeys c → lookup id (swap_at k c) ≡ lookup id c
lookup-swap_at zero id [] u = refl
lookup-swap_at zero id (x ∷ []) u = refl
lookup-swap_at zero id ((i, s) ∷ (j, r) ∷ c) u =
    ground (arith, text_eq_iff i id, text_eq_iff j id, text_eq_iff j i, u.0)
lookup-swap_at (suc k) id [] u = refl
lookup-swap_at (suc k) id ((i, s) ∷ c) u = ground (arith, lookup-swap_at k id c u.1)

pub UniqueKeys-swap_at : (k : ℕ) (c : Containers) → UniqueKeys c → UniqueKeys (swap_at k c)
UniqueKeys-swap_at zero [] u = u
UniqueKeys-swap_at zero (x ∷ []) u = u
UniqueKeys-swap_at zero ((i, s) ∷ (j, r) ∷ c) u =
    let apart : text_eq j i ≡ false = ground (arith, u.0) in
    (ground (arith, text_eq_iff j i, text_eq_iff i j, apart, u.1.0), (ground (arith, u.0), u.1.1))
UniqueKeys-swap_at (suc k) [] u = u
UniqueKeys-swap_at (suc k) ((i, s) ∷ c) u =
    (lookup-swap_at k i c u.1 ∙ u.0, UniqueKeys-swap_at k c u.1)

pub idle_count-swap_at : (k : ℕ) (c : Containers) → idle_count (swap_at k c) ≡ idle_count c
idle_count-swap_at zero [] = refl
idle_count-swap_at zero (x ∷ []) = refl
idle_count-swap_at zero (x ∷ y ∷ c) = ground arith
idle_count-swap_at (suc k) [] = refl
idle_count-swap_at (suc k) (x ∷ c) = ground (arith, idle_count-swap_at k c)
