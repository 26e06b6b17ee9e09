-- ===== src/Base/Maps.antt =====
-- Go maps as association lists. The order of the list stands for the order in which a `range` over
-- the map meets the keys, which Go leaves open.
use Prim.Native.Nat.{ℕ, ◌+◌, ◌≤◌}
use mathlib.Core.Path.{◌≡◌, refl, subst}
use mathlib.Core.Logic.{◌↔◌, inl, inr}
use mathlib.Core.Bool.{Bool, true}
use mathlib.Core.Option.{Option, none, some}
use mathlib.Core.List.{List, [], ◌∷◌}
use native.Mathlib.Omega.{arith}
use rogue_learn_code_battle.Base.Tests.{◌==◌, ==_iff, if◌then◌else◌, Bool-cases}
use rogue_learn_code_battle.Base.Lists.{All, length}
use rogue_learn_code_battle.Base.Bytes.{Text, text_eq, text_eq_iff}

-- A key type with its equality test.
pub record Eq {ℓ} (K : Type ℓ) : Type ℓ where
  pub beq : K → K → Bool
  pub beq_iff : (a b : K) → (beq a b ≡ true) ↔ (a ≡ b)

instance abbrev pub nat_eq : Eq ℕ
nat_eq = record { beq = ◌==◌; beq_iff = ==_iff }

instance abbrev pub text_key : Eq Text
text_key = record { beq = text_eq; beq_iff = text_eq_iff }

module _ {ℓ} {K V : Type ℓ} ⦃e : Eq K⦄ where
  -- m[k] with its second result.
  abbrev pub lookup : K → List (K × V) → Option V
  lookup k [] = none
  lookup k ((j, v) ∷ m) = if e.beq j k then some v else lookup k m

  -- m[k] = v
  abbrev pub insert : K → V → List (K × V) → List (K × V)
  insert k v [] = (k, v) ∷ []
  insert k v ((j, w) ∷ m) = if e.beq j k then (j, v) ∷ m else (j, w) ∷ insert k v m

  -- delete(m, k)
  abbrev pub delete : K → List (K × V) → List (K × V)
  delete k [] = []
  delete k ((j, w) ∷ m) = let rest = delete k m in if e.beq j k then rest else (j, w) ∷ rest

  pub lookup-insert :
      (k j : K) (v : V) (m : List (K × V))
      → lookup j (insert k v m) ≡ (if e.beq k j then some v else lookup j m)
  lookup-insert k j v [] = refl
  lookup-insert k j v ((i, w) ∷ m) =
      ground (arith, e.beq_iff k j, e.beq_iff i k, e.beq_iff i j, lookup-insert k j v m)

  pub lookup-delete :
      (k j : K) (m : List (K × V))
      → lookup j (delete k m) ≡ (if e.beq k j then none else lookup j m)
  lookup-delete k j [] = ground arith
  lookup-delete k j ((i, w) ∷ m) =
      ground (arith, e.beq_iff k j, e.beq_iff i k, e.beq_iff i j, lookup-delete k j m)

  -- What every entry satisfies, a found value satisfies.
  pub lookup-All {κ} :
      (P : V → Type κ) (k : K) (m : List (K × V)) {v : V}
      → All (λ entry. P entry.1) m
      → lookup k m ≡ some v
      → P v
  lookup-All P k [] h f = cc
  lookup-All P k ((j, w) ∷ m) {v} h f = elim (Bool-cases (e.beq j k)) [
    | inl same ↦ subst P (ground arith) h.0
    | inr other ↦ lookup-All P k m h.1 (rw other at f)
  ]

  -- A Go map holds a key once.
  abbrev pub UniqueKeys : List (K × V) → Type ℓ
  UniqueKeys [] = Unit
  UniqueKeys ((k, v) ∷ m) = (lookup k m ≡ none) × UniqueKeys m

  pub UniqueKeys-insert :
      (k : K) (v : V) (m : List (K × V)) → UniqueKeys m → UniqueKeys (insert k v m)
  UniqueKeys-insert k v [] u = (refl, tt)
  UniqueKeys-insert k v ((j, w) ∷ m) u = elim (Bool-cases (e.beq j k)) [
    | inl same ↦ rw same u
    | inr other ↦ rw other (
      (ground (arith, lookup-insert k j v m, e.beq_iff k j, e.beq_iff j k)),
      UniqueKeys-insert k v m u.1,
    )
  ]

  pub UniqueKeys-delete : (k : K) (m : List (K × V)) → UniqueKeys m → UniqueKeys (delete k m)
  UniqueKeys-delete k [] u = tt
  UniqueKeys-delete k ((j, w) ∷ m) u = elim (Bool-cases (e.beq j k)) [
    | inl same ↦ rw same (UniqueKeys-delete k m u.1)
    | inr other ↦ rw other (ground (arith, lookup-delete k j m), UniqueKeys-delete k m u.1)
  ]

  pub length-insert : (k : K) (v : V) (m : List (K × V)) → length (insert k v m) ≤ length m + 1
  length-insert k v [] = omega arith
  length-insert k v ((j, w) ∷ m) = ground (arith, length-insert k v m)

  pub length-delete : (k : K) (m : List (K × V)) → length (delete k m) ≤ length m
  length-delete k [] = omega arith
  length-delete k ((j, w) ∷ m) = ground (arith, length-delete k m)

  -- Deleting a key that is there makes the map smaller.
  pub length-delete_present :
      (k : K) (m : List (K × V)) {v : V} → lookup k m ≡ some v → length (delete k m) + 1 ≤ length m
  length-delete_present k [] h = cc
  length-delete_present k ((j, w) ∷ m) {v} h =
      ground (arith, length-delete k m, length-delete_present k m {v = v})

  pub delete_absent : (k : K) (m : List (K × V)) → lookup k m ≡ none → delete k m ≡ m
  delete_absent k [] h = refl
  delete_absent k ((j, w) ∷ m) h = ground (arith, delete_absent k m)
