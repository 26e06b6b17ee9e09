-- ===== src/Base/Lists.antt =====
-- Lists over the native numbers, and predicates on lists by recursion.
use Prim.Native.Nat.{ℕ, zero, suc, ◌+◌, ◌≤◌}
use mathlib.Core.Path.{◌≡◌, refl, ap}
use mathlib.Core.Bool.{Bool, true, false, ◌||◌, ◌&&◌}
use mathlib.Core.Logic.{◌⊎◌, inl, inr}
use mathlib.Core.Option.{Option, none, some}
use mathlib.Core.List.{List, [], ◌∷◌, ◌++◌, map}
use native.Mathlib.Omega.{arith}
use rogue_learn_code_battle.Base.Tests.{if◌then◌else◌, if_either, Bool-cases}

module _ {ℓ} {A : Type ℓ} where
  abbrev pub length : List A → ℕ
  length [] = 0
  length (x ∷ xs) = suc (length xs)

  pub length-append : (xs ys : List A) → length (xs ++ ys) ≡ length xs + length ys
  length-append [] ys = omega arith
  length-append (x ∷ xs) ys = omega (arith, length-append xs ys)

  -- The first element that passes the test.
  abbrev pub find : (A → Bool) → List A → Option A
  find p [] = none
  find p (x ∷ xs) = if p x then some x else find p xs

  -- Some element passes the test.
  abbrev pub any : (A → Bool) → List A → Bool
  any p [] = false
  any p (x ∷ xs) = p x || any p xs

  -- The elements that pass the test.
  abbrev pub keep : (A → Bool) → List A → List A
  keep p [] = []
  keep p (x ∷ xs) = let rest = keep p xs in if p x then x ∷ rest else rest

  -- How many elements pass the test.
  abbrev pub tally : (A → Bool) → List A → ℕ
  tally p [] = 0
  tally p (x ∷ xs) = let rest = tally p xs in if p x then suc rest else rest

-- Every element has the property; some element has it.
abbrev pub All {ℓ κ} : {A : Type ℓ} → (A → Type κ) → List A → Type κ
All P [] = Unit
All P (x ∷ xs) = P x × All P xs

abbrev pub Has : {A : Type 0} → A → List A → Type 0
Has a [] = ⊥
Has a (x ∷ xs) = (a ≡ x) ⊎ Has a xs

module _ {A : Type 0} (f g : A → Bool) (weaker : (x : A) → f x ≡ true → g x ≡ true) where
  pub tally_mono : (xs : List A) → tally f xs ≤ tally g xs
  tally_mono [] = omega arith
  tally_mono (x ∷ xs) = ground (arith, weaker x, tally_mono xs)

  -- An element that only the weaker test passes makes the count grow.
  pub tally-lt :
      (a : A) (xs : List A) → Has a xs → f a ≡ false → g a ≡ true → tally f xs + 1 ≤ tally g xs
  tally-lt a [] h fa ga = elim h [ ]
  tally-lt a (x ∷ xs) (inl e) fa ga = ground (arith, ap f e, ap g e, tally_mono xs)
  tally-lt a (x ∷ xs) (inr h) fa ga = ground (arith, weaker x, tally-lt a xs h fa ga)

pub tally-snoc {ℓ} :
    {A : Type ℓ} (p : A → Bool) (xs : List A) (x : A)
    → tally p (xs ++ x ∷ []) ≡ tally p xs + tally p (x ∷ [])
tally-snoc p [] x = omega arith
tally-snoc p (y ∷ xs) x = ground (arith, tally-snoc p xs x)

pub All-snoc {ℓ κ} :
    {A : Type ℓ} (P : A → Type κ) (xs : List A) (x : A) → All P xs → P x → All P (xs ++ x ∷ [])
All-snoc P [] x a h = (h, tt)
All-snoc P (y ∷ xs) x a h = (a.0, All-snoc P xs x a.1 h)

pub tally_ext :
    {A : Type 0} (f g : A → Bool) → ((x : A) → f x ≡ g x) → (xs : List A) → tally f xs ≡ tally g xs
tally_ext f g same [] = refl
tally_ext f g same (x ∷ xs) = ground (arith, same x, tally_ext f g same xs)

pub tally-le-length {ℓ} : {A : Type ℓ} (f : A → Bool) (xs : List A) → tally f xs ≤ length xs
tally-le-length f [] = omega arith
tally-le-length f (x ∷ xs) = ground (arith, tally-le-length f xs)

pub tally-map {ℓ κ} :
    {A : Type ℓ} {B : Type κ} (f : B → Bool) (h : A → B) (xs : List A)
    → tally f (map h xs) ≡ tally (λ x. f (h x)) xs
tally-map f h [] = refl
tally-map f h (x ∷ xs) = ground (arith, tally-map f h xs)

module _ {A : Type 0} where
  -- xs[:n], with fewer elements if there are fewer.
  unfoldable pub take : ℕ → List A → List A
  take n [] = []
  take zero (x ∷ xs) = []
  take (suc n) (x ∷ xs) = x ∷ take n xs

  -- ORDER BY: `before x y` puts x in front of y. Which of two equal rows comes first is left open
  -- by the database; here it is the first.
  unfoldable pub insert_by : (A → A → Bool) → A → List A → List A
  insert_by before x [] = x ∷ []
  insert_by before x (y ∷ ys) =
      let rest = insert_by before x ys in if before x y then x ∷ y ∷ ys else y ∷ rest

  unfoldable pub sort_by : (A → A → Bool) → List A → List A
  unfolding insert_by
  sort_by before [] = []
  sort_by before (x ∷ xs) = insert_by before x (sort_by before xs)

  tally-insert_by :
      (f : A → Bool) (before : A → A → Bool) (x : A) (ys : List A)
      → tally f (insert_by before x ys) ≡ tally f (x ∷ ys)
  unfolding insert_by
  tally-insert_by f before x [] = refl
  tally-insert_by f before x (y ∷ ys) = elim (Bool-cases (before x y)) [
    | inl first ↦ rw first refl
    | inr later ↦ rw later (ground (arith, tally-insert_by f before x ys))
  ]

  pub tally-sort_by :
      (f : A → Bool) (before : A → A → Bool) (xs : List A)
      → tally f (sort_by before xs) ≡ tally f xs
  unfolding sort_by
  tally-sort_by f before [] = refl
  tally-sort_by f before (x ∷ xs) =
      ground (arith, tally-insert_by f before x (sort_by before xs), tally-sort_by f before xs)

  pub tally-keep : (f g : A → Bool) (xs : List A) → tally f (keep g xs) ≡ tally (λ x. g x && f x) xs
  tally-keep f g [] = refl
  tally-keep f g (x ∷ xs) = ground (arith, tally-keep f g xs)

  -- An element that goes in front of all others is the first.
  pub insert_by-first :
      (before : A → A → Bool) (x : A) (ys : List A)
      → All (λ (y : A). before x y ≡ true) ys
      → insert_by before x ys ≡ x ∷ ys
  unfolding insert_by
  insert_by-first before x [] h = refl
  insert_by-first before x (y ∷ ys) h = rw h.0 refl

  pub All-insert_by :
      (P : A → Type 0) (before : A → A → Bool) (x : A) (ys : List A)
      → P x
      → All P ys
      → All P (insert_by before x ys)
  unfolding insert_by
  All-insert_by P before x [] p h = (p, tt)
  All-insert_by P before x (y ∷ ys) p h =
      if_either (All P) (before x y) (λ _. (p, h)) (λ _. (h.0, All-insert_by P before x ys p h.1))

  pub All-sort_by :
      (P : A → Type 0) (before : A → A → Bool) (xs : List A) → All P xs → All P (sort_by before xs)
  unfolding sort_by
  All-sort_by P before [] h = tt
  All-sort_by P before (x ∷ xs) h =
      All-insert_by P before x (sort_by before xs) h.0 (All-sort_by P before xs h.1)

  pub All-keep : (P : A → Type 0) (p : A → Bool) (xs : List A) → All P xs → All P (keep p xs)
  All-keep P p [] h = tt
  All-keep P p (x ∷ xs) h =
      if_either (All P) (p x) (λ _. (h.0, All-keep P p xs h.1)) (λ _. All-keep P p xs h.1)
