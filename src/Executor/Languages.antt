-- ===== src/Executor/Languages.antt =====
-- internal/executor/languages.go: the names under which a programming language is known.
use rogue_learn_code_battle.Base.{
  ◌≡◌, refl, Bool, true, false, none, some, List, [], ◌∷◌, arith, Text, codes, text_eq, to_lower,
  lookup, lookup-All, All, text_key,
}

abbrev javascript : Text
javascript = codes "Javascript"

abbrev python : Text
python = codes "Python"

abbrev golang : Text
golang = codes "Golang"

-- languageMap
abbrev pub language_map : List (Text × Text)
language_map =
    (codes "js", javascript)
    ∷ (codes "jscript", javascript)
    ∷ (codes "javscript", javascript)
    ∷ (codes "javsscript", javascript)
    ∷ (codes "javascipt", javascript)
    ∷ (codes "javasript", javascript)
    ∷ (codes "javascript", javascript)
    ∷ (codes "java script", javascript)
    ∷ (codes "jscipt", javascript)
    ∷ (codes "python", python)
    ∷ (codes "pyt", python)
    ∷ (codes "pyn", python)
    ∷ (codes "pythn", python)
    ∷ (codes "phyton", python)
    ∷ (codes "py", python)
    ∷ (codes "py thon", python)
    ∷ (codes "pthon", python)
    ∷ (codes "go", golang)
    ∷ (codes "golang", golang)
    ∷ (codes "gol", golang)
    ∷ (codes "goo", golang)
    ∷ (codes "g o", golang)
    ∷ (codes "golangg", golang)
    ∷ []

-- NormalizeLanguage
unfoldable pub normalize_language : Text → Text × Bool
normalize_language lang =
    let lower = to_lower lang in
    elim (lookup lower language_map) [
      | some normalized ↦ (normalized, true)
      | none ↦ (lower, false)
    ]

-- What holds of every name in the table holds of a name that was found.
pub normalize_language_cases {ℓ} :
    (P : Text → Type ℓ) (lang : Text) {name : Text}
    → All (λ entry. P entry.1) language_map
    → normalize_language lang ≡ (name, true)
    → P name
unfolding normalize_language
normalize_language_cases P lang {name} each h =
    lookup-All P (to_lower lang) language_map each (ground arith)

abbrev IsFixed : Text → Type 0
IsFixed name = normalize_language name ≡ (name, true)

javascript-IsFixed : IsFixed javascript
unfolding normalize_language to_lower text_eq
javascript-IsFixed = refl

python-IsFixed : IsFixed python
unfolding normalize_language to_lower text_eq
python-IsFixed = refl

golang-IsFixed : IsFixed golang
unfolding normalize_language to_lower text_eq
golang-IsFixed = refl

-- A name that normalize_language finds is found again under itself: normalising twice changes
-- nothing.
normalize_language_idem :
    (lang : Text) {name : Text}
    → normalize_language lang ≡ (name, true)
    → normalize_language name ≡ (name, true)
normalize_language_idem lang h =
    normalize_language_cases IsFixed lang
      (search (javascript-IsFixed, python-IsFixed, golang-IsFixed) depth 40) h
