-- ===== src/Executor/Builder.antt =====
-- internal/executor/code_builder.go: a submission is put into the problem's driver code.
pub mod Splice
use rogue_learn_code_battle.Base.{
  ℕ, Bool, true, false, Option, none, some, List, [], ◌∷◌, ◌++◌, String, Text, codes, text_eq,
  if◌then◌else◌, replace_first, lookup, insert, text_key,
}
use rogue_learn_code_battle.Executor.Sanitize.{SanitizationError, sanitize}
use rogue_learn_code_battle.Executor.Packages.{
  PackageAnalyzer, AnalyzeError, err_parsed, other_error,
}

abbrev pub default_max_code_length : ℕ
default_max_code_length = 1000

abbrev pub go_code_place_holder : Text
go_code_place_holder = codes "// USER_CODE_HERE"

abbrev pub go_import_place_holder : Text
go_import_place_holder = codes "// IMPORTS_HERE"

abbrev pub python_code_place_holder : Text
python_code_place_holder = codes "# USER_CODE_HERE"

abbrev pub js_code_place_holder : Text
js_code_place_holder = codes "// USER_CODE_HERE"

-- LanguagePlaceHolder
pub record LanguagePlaceHolder : Type 0 where
  pub code_place_holder : Text
  pub import_place_holder : Text

-- getLanguagePlaceHolder
unfoldable pub get_language_place_holder : Text → LanguagePlaceHolder
get_language_place_holder lang =
    if text_eq lang (codes "Golang")
    then record {
      code_place_holder = go_code_place_holder;
      import_place_holder = go_import_place_holder;
    }
    else if text_eq lang (codes "Python")
    then record { code_place_holder = python_code_place_holder; import_place_holder = [] }
    else if text_eq lang (codes "Javascript")
    then record { code_place_holder = js_code_place_holder; import_place_holder = [] }
    else record { code_place_holder = []; import_place_holder = [] }

-- ConcreteCodeBuilder; the logger is left out.
pub record CodeBuilder : Type 0 where
  pub pkg_analyzers : List (Text × PackageAnalyzer)

register_all : List PackageAnalyzer → List (Text × PackageAnalyzer) → List (Text × PackageAnalyzer)
register_all [] analyzers = analyzers
register_all (analyzer ∷ rest) analyzers =
    register_all rest (insert analyzer.get_normalized_name analyzer analyzers)

-- NewCodeBuilder
unfoldable pub new_code_builder : List PackageAnalyzer → CodeBuilder
unfolding register_all
new_code_builder analyzers = record { pkg_analyzers = register_all analyzers [] }

import_lines : List (Text × Bool) → Text
import_lines [] = codes ")"
import_lines ((pkg, _) ∷ pkgs) = codes " \t\"" ++ (pkg ++ (codes "\"\n " ++ import_lines pkgs))

-- (*ConcreteCodeBuilder).generateImports
unfoldable pub generate_imports : List (Text × Bool) → Text
unfolding import_lines
generate_imports [] = []
generate_imports (p ∷ pkgs) = codes "import (\n" ++ import_lines (p ∷ pkgs)

-- The results of Build: the code, the sanitizer's error, or ErrParsed.
pub data Build : Type 0 where
  built : Text → Build
  rejected : SanitizationError → Build
  wrong_syntax : Build

-- The branch of Build for a language with an analyzer.
unfoldable pub add_imports : PackageAnalyzer → Text → Text → Build
add_imports analyzer import_place_holder final_code =
    let (pkgs, err) = analyzer.analyze final_code in
    elim err [
      | some err_parsed ↦ wrong_syntax
      | some (other_error m) ↦
          built (replace_first final_code import_place_holder (generate_imports pkgs))
      | none ↦ built (replace_first final_code import_place_holder (generate_imports pkgs))
    ]

module _ (match_string : String → Text → Option Bool) where
  -- (*ConcreteCodeBuilder).Build
  unfoldable pub build : CodeBuilder → Text → Text → Text → Build
  unfolding add_imports
  build c lang driver_code user_code =
      elim (sanitize match_string user_code lang default_max_code_length) [
        | some err ↦ rejected err
        | none ↦
            let placeholder = get_language_place_holder lang in
            let final_code = replace_first driver_code placeholder.code_place_holder user_code in
            elim (lookup lang c.pkg_analyzers) [
              | some analyzer ↦ add_imports analyzer placeholder.import_place_holder final_code
              | none ↦ built final_code
            ]
      ]
