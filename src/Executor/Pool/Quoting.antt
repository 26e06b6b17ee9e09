-- ===== src/Executor/Pool/Quoting.antt =====
-- internal/executor/worker_pool.go, generateRunCmd and executeCode: the code as a quoted argument of
-- the shell.
use rogue_learn_code_battle.Base.{
  ℕ, ◌≡◌, ◌≢◌, ◌∙◌, refl, sym, ap, Bool, true, false, if◌then◌else◌, Option, none, some, [], ◌∷◌,
  ◌++◌, Text, codes, arith, ◌==◌, ==_iff, Bool-cases, strip_prefix?, replace_skip, replace_all, inl,
  inr,
}
use mathlib.Core.List.{List, append_assoc}
use rogue_learn_code_battle.Store.Models.{Language, TestCase}
use rogue_learn_code_battle.Executor.Containers.{Docker}
use rogue_learn_code_battle.Executor.Pool.Defs.{quote_code}

-- generateRunCmd, over fmt.Sprintf with one argument.
unfoldable pub generate_run_cmd : (Text → Text → Text) → Text → Text → Text
generate_run_cmd sprintf run_cmd final_code = sprintf run_cmd (quote_code final_code)

-- executeCode: whether the run succeeded stands for its error too. The test cases are not run.
unfoldable pub execute_code :
    (docker : Docker)
    → (Text → Text → Text)
    → Language
    → Text
    → Text
    → List TestCase
    → docker.World
    → (Text × Bool) × docker.World
unfolding generate_run_cmd
execute_code docker sprintf lang id code tcs w =
    let (r, w') = docker.exec id (generate_run_cmd sprintf lang.run_cmd code) [] w in
    if r.failed then ((r.stderr, false), w') else ((r.stdout, true), w')

abbrev quote_byte : ℕ
quote_byte = 39

abbrev backslash : ℕ
backslash = 92

abbrev pub onto : ℕ → Option Text → Option Text
onto c none = none
onto c (some word) = some (c ∷ word)

abbrev pub onto_all : Text → Option Text → Option Text
onto_all [] word = word
onto_all (c ∷ s) word = onto c (onto_all s word)

-- How a POSIX shell reads a word, outside of quotes and between single quotes; `none` is a quote
-- that is not closed. Between single quotes every byte but the quote stands for itself, and a
-- backslash outside of quotes keeps a quote behind it.
pub record Shell : Type 0 where
  pub plain : Text → Option Text
  pub quoted : Text → Option Text
  pub quoted-quote : (s : Text) → quoted (39 ∷ s) ≡ plain s
  pub quoted-other : (c : ℕ) (s : Text) → c ≢ 39 → quoted (c ∷ s) ≡ onto c (quoted s)
  pub plain-quote : (s : Text) → plain (39 ∷ s) ≡ quoted s
  pub plain-escaped : (s : Text) → plain (92 ∷ 39 ∷ s) ≡ onto 39 (plain s)

-- fmt.Sprintf with one verb %s between texts without a %.
abbrev pub PutsString : (Text → Text → Text) → Text → Text → Type 0
PutsString sprintf before after =
    (s : Text) → sprintf (before ++ (codes "%s" ++ after)) s ≡ before ++ (s ++ after)

quote_code-nil : quote_code [] ≡ []
unfolding quote_code replace_all replace_skip
quote_code-nil = refl

quote_code-quote : (s : Text) → quote_code (39 ∷ s) ≡ 39 ∷ 92 ∷ 39 ∷ 39 ∷ quote_code s
unfolding quote_code replace_all replace_skip strip_prefix?
quote_code-quote s = refl

quote_code-other : (c : ℕ) (s : Text) → (39 == c) ≡ false → quote_code (c ∷ s) ≡ c ∷ quote_code s
unfolding quote_code replace_all replace_skip strip_prefix?
quote_code-other c s ne = ground arith

module _ (shell : Shell) where
  -- The quoted code, read between single quotes.
  quoted-quote_code :
      (s rest : Text) → shell.quoted (quote_code s ++ rest) ≡ onto_all s (shell.quoted rest)
  quoted-quote_code [] rest = rw quote_code-nil refl
  quoted-quote_code (c ∷ s) rest = elim (Bool-cases (39 == c)) [
    | inl same ↦
        rw
          (
            sym ((==_iff 39 c).0 same),
            quote_code-quote,
            shell.quoted-quote,
            shell.plain-escaped,
            shell.plain-quote,
            quoted-quote_code s rest,
          )
          refl
    | inr other ↦
        rw
          (
            quote_code-other c s other,
            shell.quoted-other c (quote_code s ++ rest) (λ e. ground (arith, e)),
            quoted-quote_code s rest,
          )
          refl
  ]

  -- The command of generateRunCmd for a run command that has its %s between single quotes is the
  -- text before the quotes, a word, and the text behind them; and a shell that reads from the word
  -- on gets the submitted code back, byte for byte, and goes on behind the word.
  pub generate_run_cmd-quoted :
      (sprintf : Text → Text → Text) (before after code : Text)
      → PutsString sprintf (before ++ codes "'") (codes "'" ++ after)
      → (word : Text) × (generate_run_cmd sprintf
            ((before ++ codes "'") ++ (codes "%s" ++ (codes "'" ++ after)))
            code
          ≡ before ++ (word ++ after))
        × (shell.plain (word ++ after) ≡ onto_all code (shell.plain after))
  unfolding generate_run_cmd
  generate_run_cmd-quoted sprintf before after code puts = (
    39 ∷ (quote_code code ++ 39 ∷ []),
    puts (quote_code code)
        ∙ append_assoc before (codes "'") (quote_code code ++ (codes "'" ++ after))
        ∙ ap (λ t. before ++ (39 ∷ t)) (sym (append_assoc (quote_code code) (codes "'") after)),
    rw
        (
          shell.plain-quote,
          append_assoc (quote_code code) (codes "'") after,
          quoted-quote_code,
          shell.quoted-quote,
        )
        refl,
  )
