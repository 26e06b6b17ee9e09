-- ===== src/Executor/Packages.antt =====
-- internal/executor/package_analyzer.go: the packages that a Go text imports or names. The parser
-- of go/parser is a parameter: what it returns of a file is its import paths, as written with
-- their quotes, and the nodes in the order in which ast.Inspect visits them.
pub mod Exact
use rogue_learn_code_battle.Base.{
  ℕ, zero, suc, ◌-◌, Bool, true, Option, none, some, List, [], ◌∷◌, Text, codes, length, insert,
  text_key,
}
use rogue_learn_code_battle.Executor.Languages.{normalize_language}

pub data AnalyzeError : Type 0 where
  err_parsed : AnalyzeError
  other_error : Text → AnalyzeError

-- A value of the interface PackageAnalyzer.
pub record PackageAnalyzer : Type 0 where
  pub get_normalized_name : Text
  pub analyze : Text → List (Text × Bool) × Option AnalyzeError

-- What Analyze tells apart in a node of the syntax tree.
pub data Node : Type 0 where
  selector_on_ident : Text → Node
  selector_on_expr : Node
  other_node : Node

pub record GoFile : Type 0 where
  pub imports : List Text
  pub nodes : List Node

-- Value[1 : len(Value)-1]
take_text : ℕ → Text → Text
take_text zero s = []
take_text (suc n) [] = []
take_text (suc n) (c ∷ s) = c ∷ take_text n s

unfoldable pub strip_quotes : Text → Text
unfolding take_text
strip_quotes [] = []
strip_quotes (q ∷ s) = take_text (length s - 1) s

unfoldable pub explicit_imports : List Text → List (Text × Bool) → List (Text × Bool)
unfolding strip_quotes
explicit_imports [] pkgs = pkgs
explicit_imports (i ∷ is) pkgs = explicit_imports is (insert (strip_quotes i) true pkgs)

unfoldable pub implicit_imports : List Node → List (Text × Bool) → List (Text × Bool)
implicit_imports [] pkgs = pkgs
implicit_imports (selector_on_ident name ∷ ns) pkgs = implicit_imports ns (insert name true pkgs)
implicit_imports (selector_on_expr ∷ ns) pkgs = implicit_imports ns pkgs
implicit_imports (other_node ∷ ns) pkgs = implicit_imports ns pkgs

module _ (parse_file : Text → Option GoFile) where
  -- (*GoPackageAnalyzer).Analyze
  unfoldable pub analyze : Text → List (Text × Bool) × Option AnalyzeError
  unfolding explicit_imports implicit_imports
  analyze code = elim (parse_file code) [
    | none ↦ ([], some err_parsed)
    | some node ↦ (implicit_imports node.nodes (explicit_imports node.imports []), none)
  ]

  -- NewGoPackageAnalyzer, as a value of the interface.
  unfoldable pub go_package_analyzer : PackageAnalyzer
  unfolding analyze
  go_package_analyzer = record {
    get_normalized_name = (normalize_language (codes "golang")).0;
    analyze = analyze;
  }
