-- ===== src/Base/Words.antt =====
-- strings.ToLower, strings.TrimSpace and the decimal print of fmt, on lists of bytes.
use Prim.Native.Nat.{ℕ, zero, suc, ◌+◌, ◌/◌, ◌%◌}
use mathlib.Core.Path.{◌≡◌, refl}
use mathlib.Core.Bool.{◌&&◌}
use mathlib.Core.Option.{Option, none, some}
use mathlib.Core.List.{List, [], ◌∷◌, reverse, map}
use rogue_learn_code_battle.Base.Tests.{leb, ◌==◌, if◌then◌else◌}
use rogue_learn_code_battle.Base.Lists.{length}
use rogue_learn_code_battle.Base.Bytes.{Text, codes, strip_prefix?}

-- The lower case of one ASCII byte; the bytes of other characters stay as they are.
unfoldable pub lower_byte : ℕ → ℕ
lower_byte c = if leb 65 c && leb c 90 then c + 32 else c

-- The two characters outside ASCII whose lower case is an ASCII letter: U+0130 (bytes 196 176) goes
-- to `i` and U+212A (bytes E2 84 AA) to `k`.
lower_from : ℕ → Text → Text
unfolding lower_byte
lower_from skip [] = []
lower_from (suc skip) (c ∷ s) = lower_from skip s
lower_from zero (c ∷ s) = elim (strip_prefix? (196 ∷ 176 ∷ []) (c ∷ s)) [
  | some _ ↦ 105 ∷ lower_from 1 s
  | none ↦ elim (strip_prefix? (226 ∷ 132 ∷ 170 ∷ []) (c ∷ s)) [
    | some _ ↦ 107 ∷ lower_from 2 s
    | none ↦ lower_byte c ∷ lower_from 0 s
  ]
]

-- strings.ToLower. Letters outside ASCII with a lower case outside ASCII keep their bytes.
unfoldable pub to_lower : Text → Text
unfolding lower_from strip_prefix?
to_lower s = lower_from 0 s

-- The white space of Unicode in UTF-8.
abbrev space_runes : List Text
space_runes =
    (9 ∷ [])
    ∷ (10 ∷ [])
    ∷ (11 ∷ [])
    ∷ (12 ∷ [])
    ∷ (13 ∷ [])
    ∷ (32 ∷ [])
    ∷ (194 ∷ 133 ∷ [])
    ∷ (194 ∷ 160 ∷ [])
    ∷ (225 ∷ 154 ∷ 128 ∷ [])
    ∷ (226 ∷ 128 ∷ 128 ∷ [])
    ∷ (226 ∷ 128 ∷ 129 ∷ [])
    ∷ (226 ∷ 128 ∷ 130 ∷ [])
    ∷ (226 ∷ 128 ∷ 131 ∷ [])
    ∷ (226 ∷ 128 ∷ 132 ∷ [])
    ∷ (226 ∷ 128 ∷ 133 ∷ [])
    ∷ (226 ∷ 128 ∷ 134 ∷ [])
    ∷ (226 ∷ 128 ∷ 135 ∷ [])
    ∷ (226 ∷ 128 ∷ 136 ∷ [])
    ∷ (226 ∷ 128 ∷ 137 ∷ [])
    ∷ (226 ∷ 128 ∷ 138 ∷ [])
    ∷ (226 ∷ 128 ∷ 168 ∷ [])
    ∷ (226 ∷ 128 ∷ 169 ∷ [])
    ∷ (226 ∷ 128 ∷ 175 ∷ [])
    ∷ (226 ∷ 129 ∷ 159 ∷ [])
    ∷ (227 ∷ 128 ∷ 128 ∷ [])
    ∷ []

strip_any : List Text → Text → Option Text
strip_any [] s = none
strip_any (p ∷ ps) s = elim (strip_prefix? p s) [ some rest ↦ some rest | none ↦ strip_any ps s ]

-- Drops prefixes of the list while there is one; the fuel is the length of the text.
trim_while : ℕ → List Text → Text → Text
trim_while zero ps s = s
trim_while (suc n) ps s = elim (strip_any ps s) [ some rest ↦ trim_while n ps rest | none ↦ s ]

-- strings.TrimSpace
unfoldable pub trim_space : Text → Text
unfolding trim_while strip_any strip_prefix?
trim_space s =
    let back = reverse (trim_while (length s) space_runes s) in
    reverse (trim_while (length back) (map reverse space_runes) back)

trim_space_test : trim_space (codes "  42 \n") ≡ codes "42"
unfolding trim_space
trim_space_test = refl

-- fmt's %d of a number: `n + 1` rounds are more than its digits.
digits_from : ℕ → ℕ → Text → Text
digits_from zero n out = out
digits_from (suc fuel) n out =
    let digit = 48 + n % 10 in
    let rest = digits_from fuel (n / 10) (digit ∷ out) in if n / 10 == 0 then digit ∷ out else rest

unfoldable pub decimal : ℕ → Text
unfolding digits_from
decimal n = digits_from (suc n) n []

decimal_test : decimal 1205 ≡ codes "1205"
unfolding decimal
decimal_test = refl
