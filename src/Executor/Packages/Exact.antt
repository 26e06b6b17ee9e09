-- ===== src/Executor/Packages/Exact.antt =====
-- Which packages Analyze reports.
use rogue_learn_code_battle.Base.{
  ◌≡◌, ◌↔◌, ◌⊎◌, Bool, true, Option, some, List, [], ◌∷◌, arith, Text, text_eq_iff, Has, map,
  lookup, insert, lookup-insert, text_key,
}
use rogue_learn_code_battle.Executor.Packages.{
  GoFile, Node, selector_on_ident, selector_on_expr, other_node, strip_quotes, explicit_imports,
  implicit_imports, analyze,
}

-- The path is one of the import paths, behind its quotes.
abbrev pub Imports : Text → List Text → Type 0
Imports p imports = Has p (map strip_quotes imports)

-- The name stands in front of a selector.
abbrev pub Selects : Text → List Node → Type 0
Selects p nodes = Has (selector_on_ident p) nodes

explicit_imports-some :
    (p : Text) (is : List Text) (pkgs : List (Text × Bool))
    → (lookup p (explicit_imports is pkgs) ≡ some true)
      ↔ (Imports p is ⊎ (lookup p pkgs ≡ some true))
unfolding explicit_imports
explicit_imports-some p [] pkgs = ground arith
explicit_imports-some p (i ∷ is) pkgs = grind (
  arith,
  explicit_imports-some p is (insert (strip_quotes i) true pkgs),
  lookup-insert (strip_quotes i) p true pkgs,
  text_eq_iff (strip_quotes i) p,
)

implicit_imports-some :
    (p : Text) (ns : List Node) (pkgs : List (Text × Bool))
    → (lookup p (implicit_imports ns pkgs) ≡ some true)
      ↔ (Selects p ns ⊎ (lookup p pkgs ≡ some true))
unfolding implicit_imports
implicit_imports-some p [] pkgs = ground arith
implicit_imports-some p (selector_on_ident name ∷ ns) pkgs = grind (
  arith,
  implicit_imports-some p ns (insert name true pkgs),
  lookup-insert name p true pkgs,
  text_eq_iff name p,
)
implicit_imports-some p (selector_on_expr ∷ ns) pkgs =
    grind (arith, implicit_imports-some p ns pkgs)
implicit_imports-some p (other_node ∷ ns) pkgs = grind (arith, implicit_imports-some p ns pkgs)

-- Of a file that parses, Analyze reports exactly the import paths and the identifiers in front of
-- a selector: package names, and also variables and receivers.
analyze-exact :
    (parse_file : Text → Option GoFile) (code : Text) (file : GoFile) (p : Text)
    → parse_file code ≡ some file
    → (lookup p (analyze parse_file code).0 ≡ some true)
      ↔ (Selects p file.nodes ⊎ Imports p file.imports)
unfolding analyze
analyze-exact parse_file code file p h =
    rw (h, analyze)
      (ground (
        arith,
        explicit_imports-some p file.imports [],
        implicit_imports-some p file.nodes (explicit_imports file.imports []),
      ))
