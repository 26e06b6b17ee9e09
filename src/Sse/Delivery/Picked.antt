-- ===== src/Sse/Delivery/Picked.antt =====
-- What is left when one goroutine of those that wait is picked.
use mathlib.Core.Path.{subst}
use rogue_learn_code_battle.Base.{
  ℕ, zero, suc, ◌+◌, ◌≡◌, refl, ap, inl, inr, Bool, Option, none, some, some_injective, List, [],
  ◌∷◌, length, tally, Option-cases, arith,
}
use rogue_learn_code_battle.Sse.Delivery.{pick}

cut :
    {E : Type 0} (n : ℕ) {ys fs : List E} {x e f : E}
    → n ≡ suc (length fs)
    → ◌≡◌ {A = Option (E × List E)} (some (f, x ∷ fs)) (some (e, ys))
    → suc n ≡ suc (length ys)
cut {E} n h same = omega (arith, h, ap (λ (r : E × List E). length r.1) (some_injective same))

pub length-pick :
    {E : Type 0} (k : ℕ) (xs : List E) {e : E} {ys : List E}
    → pick k xs ≡ some (e, ys)
    → length xs ≡ suc (length ys)
unfolding pick
length-pick k [] h = cc
length-pick zero (x ∷ xs) h = ap (λ (r : _ × List _). suc (length r.1)) (some_injective h)
length-pick (suc k) (x ∷ xs) h = elim (Option-cases (pick k xs)) [
  | inl stuck ↦ cc (rw (stuck, pick) at h)
  | inr ((f, fs), e) ↦ cut (length xs) (length-pick k xs e) (rw (e, pick) at h)
]

module _ {E : Type 0} where
  pub tally-pick :
      (p : E → Bool) (k : ℕ) (xs : List E) {e : E} {ys : List E}
      → pick k xs ≡ some (e, ys)
      → tally p xs ≡ tally p ys + tally p (e ∷ [])
  unfolding pick
  tally-pick p k [] h = cc
  tally-pick p zero (x ∷ xs) {e} {ys} h =
      subst (λ (r : E × List E). tally p (x ∷ xs) ≡ tally p r.1 + tally p (r.0 ∷ []))
        (some_injective h) (ground arith)
  tally-pick p (suc k) (x ∷ xs) h = elim (Option-cases (pick k xs)) [
    | inl stuck ↦ cc (rw (stuck, pick) at h)
    | inr ((f, fs), e) ↦
        let same : some (f, x ∷ fs) ≡ some (_, _) = rw (e, pick) at h in
        subst (λ (r : E × List E). tally p (x ∷ xs) ≡ tally p r.1 + tally p (r.0 ∷ []))
          (some_injective same) (ground (arith, tally-pick p k xs e))
  ]

  pub pick_first-none : (xs : List E) → pick 0 xs ≡ none → length xs ≡ 0
  unfolding pick
  pick_first-none [] h = refl
  pick_first-none (x ∷ xs) h = cc
