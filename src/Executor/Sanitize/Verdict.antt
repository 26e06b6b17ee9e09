-- ===== src/Executor/Sanitize/Verdict.antt =====
-- What a verdict of Sanitize means, for every regular-expression engine.
use rogue_learn_code_battle.Base.{
  ℕ, ◌≤◌, ◌≡◌, refl, ◌≢◌, ◌↔◌, inl, inr, Bool, true, false, Option, none, some, List, [], ◌∷◌,
  arith, String, Text, All, length, Bool-cases, text_eq, true≢false, sym, ◌∙◌, codes,
}
use rogue_learn_code_battle.Executor.Languages.{normalize_language, normalize_language_cases}
use rogue_learn_code_battle.Executor.Sanitize.{
  language_categories, has_matching_pattern, check_categories, sanitize,
}
use rogue_learn_code_battle.Executor.Sanitize.Patterns.{PatternCategory, dangerous_patterns}

module _ (match_string : String → Text → Option Bool) (code : Text) where
  -- No pattern of the category is found in the code.
  abbrev pub IsClear : PatternCategory → Type 0
  IsClear category = All (λ pattern. match_string pattern code ≢ some true) category.patterns

  abbrev NoMatch : List String → Type 0
  NoMatch patterns = All (λ pattern. match_string pattern code ≢ some true) patterns

  has_matching_pattern-false :
      (patterns : List String)
      → (has_matching_pattern match_string patterns code ≡ false) ↔ NoMatch patterns
  unfolding has_matching_pattern
  has_matching_pattern-false [] = (λ h. tt, λ h. refl)
  has_matching_pattern-false (p ∷ ps) = (
    λ h. (ground arith, ground (arith, (has_matching_pattern-false ps).0)),
    λ h. ground (arith, h.0, (has_matching_pattern-false ps).1),
  )

  check_categories-none :
      (language : Text) (categories : List PatternCategory)
      → (check_categories match_string categories code language ≡ none) ↔ All IsClear categories
  unfolding check_categories
  check_categories-none language [] = (λ h. tt, λ h. refl)
  check_categories-none language (c ∷ cs) =
      elim (Bool-cases (has_matching_pattern match_string c.patterns code)) [
        | inl hit ↦ (
          λ h. cc (rw hit at h),
          λ h. absurd (true≢false (sym hit ∙ (has_matching_pattern-false c.patterns).1 h.0)),
        )
        | inr clear ↦ (
          λ h. (
            (has_matching_pattern-false c.patterns).0 clear,
            (check_categories-none language cs).0 (rw clear at h),
          ),
          λ h. rw clear ((check_categories-none language cs).1 h.1),
        )
      ]

  -- Sanitize accepts exactly the code that is within the length and in which no pattern of the
  -- common categories, and no pattern filed under the language's name, is found.
  pub sanitize-accepts :
      (language : Text) (max_code_length : ℕ)
      → (sanitize match_string code language max_code_length ≡ none) ↔ (
          (length code ≤ max_code_length)
          × All IsClear dangerous_patterns.common
          × All IsClear (language_categories language))
  unfolding sanitize
  sanitize-accepts language max = ground (
    arith,
    check_categories-none language dangerous_patterns.common,
    check_categories-none language (language_categories language),
  )

unlisted_javascript : language_categories (codes "Javascript") ≡ []
unfolding language_categories dangerous_patterns text_eq
unlisted_javascript = refl

unlisted_python : language_categories (codes "Python") ≡ []
unfolding language_categories dangerous_patterns text_eq
unlisted_python = refl

unlisted_golang : language_categories (codes "Golang") ≡ []
unfolding language_categories dangerous_patterns text_eq
unlisted_golang = refl

-- Under every name that normalize_language can return, the table of the language's own patterns
-- is empty: it is keyed by "python", "go", "js" and "cpp".
language_categories-normalized :
    (lang : Text) {name : Text}
    → normalize_language lang ≡ (name, true)
    → language_categories name ≡ []
language_categories-normalized lang h =
    normalize_language_cases (λ name. language_categories name ≡ []) lang
      (search (unlisted_javascript, unlisted_python, unlisted_golang) depth 40) h
