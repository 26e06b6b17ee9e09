-- ===== src/Executor/Builder/Splice.antt =====
-- What Build returns, branch by branch.
use rogue_learn_code_battle.Base.{
  ◌≡◌, ◌⊎◌, ◌≤◌, Bool, Option, codes, length, All, String, Text, text_key, Spliced, Absent,
}
use rogue_learn_code_battle.Executor.Sanitize.{language_categories}
use rogue_learn_code_battle.Executor.Sanitize.Patterns.{dangerous_patterns}
use rogue_learn_code_battle.Executor.Sanitize.Verdict.{IsClear}

-- The placeholder of a language by its normalised name.
pub data PlaceHolderOf : Text → Text → Type 0 where
  golang : PlaceHolderOf (codes "Golang") (codes "// USER_CODE_HERE")
  python : PlaceHolderOf (codes "Python") (codes "# USER_CODE_HERE")
  javascript : PlaceHolderOf (codes "Javascript") (codes "// USER_CODE_HERE")

-- A submission of at most 1000 bytes in which no pattern is found.
abbrev pub IsClean : (String → Text → Option Bool) → Text → Text → Type 0
IsClean match_string lang user =
    (length user ≤ 1000)
    × All (IsClear match_string user) dangerous_patterns.common
    × All (IsClear match_string user) (language_categories lang)

-- The submission stands in the place of one placeholder, or there is none and the driver code is
-- as it was.
abbrev pub Splices : Text → Text → Text → Text → Type 0
Splices driver place user code =
    Spliced driver place user code ⊎ (Absent place driver × (code ≡ driver))
