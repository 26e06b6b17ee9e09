-- ===== src/Base/Bytes.antt =====
-- Go strings as lists of bytes, and the functions of Go's `strings` package that the program calls.
use Prim.Native.Nat.{ℕ, zero, suc, ◌-◌}
use Prim.Native.Char.{code}
use Prim.Native.String.{String}
use mathlib.Core.Path.{◌≡◌, refl, ap}
use mathlib.Core.Logic.{◌↔◌, ◌⊎◌, inl, inr}
use mathlib.Core.Bool.{Bool, true, false, ◌&&◌}
use mathlib.Core.Option.{Option, none, some}
use mathlib.Core.List.{List, [], ◌∷◌, ◌++◌}
use native.Mathlib.Omega.{arith}
use rogue_learn_code_battle.Base.Tests.{◌==◌, if◌then◌else◌, Option-cases}
use rogue_learn_code_battle.Base.Lists.{length}

abbrev pub Text : Type 0
Text = List ℕ

-- The bytes of a literal, which is ASCII throughout the program.
abbrev pub codes : String → Text
codes String.[] = []
codes (String.◌∷◌ c s) = code c ∷ codes s

unfoldable pub text_eq : Text → Text → Bool
text_eq [] [] = true
text_eq [] (b ∷ t) = false
text_eq (a ∷ s) [] = false
text_eq (a ∷ s) (b ∷ t) = a == b && text_eq s t

pub text_eq→≡ : (s t : Text) → text_eq s t ≡ true → s ≡ t
unfolding text_eq
text_eq→≡ [] [] h = refl
text_eq→≡ [] (b ∷ t) h = cc
text_eq→≡ (a ∷ s) [] h = cc
text_eq→≡ (a ∷ s) (b ∷ t) h = ground (arith, text_eq→≡ s t)

pub text_eq_refl : (s : Text) → text_eq s s ≡ true
unfolding text_eq
text_eq_refl [] = refl
text_eq_refl (a ∷ s) = ground (arith, text_eq_refl s)

pub text_eq_iff : (s t : Text) → (text_eq s t ≡ true) ↔ (s ≡ t)
text_eq_iff s t = (text_eq→≡ s t, λ e. cc (text_eq_refl s, ap (text_eq s) e))

abbrev pub is_empty : Text → Bool
is_empty [] = true
is_empty (c ∷ s) = false

-- What is left behind a prefix.
unfoldable pub strip_prefix? : Text → Text → Option Text
strip_prefix? [] s = some s
strip_prefix? (p ∷ ps) [] = none
strip_prefix? (p ∷ ps) (c ∷ s) = if p == c then strip_prefix? ps s else none

pub strip_prefix?-some : (p s : Text) {rest : Text} → strip_prefix? p s ≡ some rest → s ≡ p ++ rest
unfolding strip_prefix?
strip_prefix?-some [] s h = ground arith
strip_prefix?-some (a ∷ p) [] h = cc
strip_prefix?-some (a ∷ p) (c ∷ s) {rest} h = ground (arith, strip_prefix?-some p s {rest = rest})

pub strip_prefix?-append : (p s : Text) → strip_prefix? p (p ++ s) ≡ some s
unfolding strip_prefix?
strip_prefix?-append [] s = refl
strip_prefix?-append (a ∷ p) s = ground (arith, strip_prefix?-append p s)

-- strings.Replace(s, old, new, 1): the first occurrence is replaced; an empty `old` is found at
-- the front.
unfoldable pub replace_first : Text → Text → Text → Text
replace_first [] old new = elim (strip_prefix? old []) [ some rest ↦ new ++ rest | none ↦ [] ]
replace_first (c ∷ s) old new = elim (strip_prefix? old (c ∷ s)) [
  | some rest ↦ new ++ rest
  | none ↦ c ∷ replace_first s old new
]

-- strings.ReplaceAll(s, old, new) for an `old` that is not empty; `skip` counts the bytes of an
-- occurrence that are still to be passed over.
unfoldable pub replace_skip : ℕ → Text → Text → Text → Text
replace_skip skip [] old new = []
replace_skip (suc skip) (c ∷ s) old new = replace_skip skip s old new
replace_skip zero (c ∷ s) old new = elim (strip_prefix? old (c ∷ s)) [
  | some rest ↦ new ++ replace_skip (length old - 1) s old new
  | none ↦ c ∷ replace_skip zero s old new
]

unfoldable pub replace_all : Text → Text → Text → Text
unfolding replace_skip
replace_all s old new = replace_skip 0 s old new

-- The text does not occur in the other, at any position.
unfoldable pub Absent : Text → Text → Type 0
Absent old [] = strip_prefix? old [] ≡ none
Absent old (c ∷ s) = (strip_prefix? old (c ∷ s) ≡ none) × Absent old s

-- `replaced` is `s` with one occurrence of `old` turned into `new`.
pub record Spliced (s old new replaced : Text) : Type 0 where
  pub before : Text
  pub after : Text
  pub was : s ≡ before ++ (old ++ after)
  pub is : replaced ≡ before ++ (new ++ after)

-- strings.Replace with count 1 replaces one occurrence, or there is none and the text stays.
pub replace_first_cases :
    (s old new : Text)
    → Spliced s old new (replace_first s old new) ⊎ (Absent old s × (replace_first s old new ≡ s))
unfolding replace_first Absent
replace_first_cases [] old new = elim (Option-cases (strip_prefix? old [])) [
  | inl e ↦ inr (e, rw (e, replace_first))
  | inr (rest, e) ↦ inl (record {
    before = [];
    after = rest;
    was = strip_prefix?-some old [] e;
    is = rw (e, replace_first);
  })
]
replace_first_cases (c ∷ s) old new = elim (Option-cases (strip_prefix? old (c ∷ s))) [
  | inr (rest, e) ↦ inl (record {
    before = [];
    after = rest;
    was = strip_prefix?-some old (c ∷ s) e;
    is = rw (e, replace_first);
  })
  | inl e ↦ elim (replace_first_cases s old new) [
    | inl r ↦ inl (record {
      before = c ∷ r.before;
      after = r.after;
      was = ap (◌∷◌ c) r.was;
      is = rw (e, replace_first) (ap (◌∷◌ c) r.is);
    })
    | inr (none_left, same) ↦ inr ((e, none_left), rw (e, replace_first) (ap (◌∷◌ c) same))
  ]
]
