-- ===== src/Executor/Sanitize.antt =====
-- internal/executor/sanitize.go: the checks that a submitted text passes before it is built.
-- regexp.MatchString is the section's parameter; `none` is its error, for a pattern that does not
-- compile.
pub mod Patterns
pub mod Verdict
use rogue_learn_code_battle.Base.{
  ℕ, Bool, true, false, Option, none, some, List, [], ◌∷◌, ◌++◌, String, Text, codes, length, ltb,
  if◌then◌else◌, decimal, lookup, text_key, text_eq,
}
use Patterns.{PatternCategory, dangerous_patterns}

-- SanitizationError
pub record SanitizationError : Type 0 where
  pub message : Text
  pub details : Text

-- (*SanitizationError).Error
unfoldable pub error : SanitizationError → Text
error se = codes "Message:" ++ (se.message ++ (codes "\n,Details:" ++ se.details))

-- The categories of a language; a key that is not in the map has none.
unfoldable pub language_categories : Text → List PatternCategory
language_categories language = elim (lookup language dangerous_patterns.language) [
  | some categories ↦ categories
  | none ↦ []
]

module _ (match_string : String → Text → Option Bool) where
  -- hasMatchingPattern
  unfoldable pub has_matching_pattern : List String → Text → Bool
  has_matching_pattern [] code = false
  has_matching_pattern (pattern ∷ patterns) code = elim (match_string pattern code) [
    | some true ↦ true
    | some false ↦ has_matching_pattern patterns code
    | none ↦ has_matching_pattern patterns code
  ]

  -- The two loops of Sanitize, which differ in the list they range over.
  unfoldable pub check_categories : List PatternCategory → Text → Text → Option SanitizationError
  check_categories [] code language = none
  check_categories (category ∷ categories) code language =
      if has_matching_pattern category.patterns code
      then some (record {
        message =
            codes "Prohibited " ++ (language ++ (codes " operation detected: " ++ category.name));
        details = category.description;
      })
      else check_categories categories code language

  -- Sanitize
  unfoldable pub sanitize : Text → Text → ℕ → Option SanitizationError
  sanitize code language max_code_length =
      if ltb max_code_length (length code)
      then some (record {
        message = codes "Code length exceeds maximum limit";
        details = codes "Max length allowed is " ++ decimal max_code_length;
      })
      else elim (check_categories dangerous_patterns.common code language) [
        | some err ↦ some err
        | none ↦ check_categories (language_categories language) code language
      ]
