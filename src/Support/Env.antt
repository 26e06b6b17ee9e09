-- ===== src/Support/Env.antt =====
-- pkg/env/env.go, and the variables that cmd/main/main.go and internal/handlers/handler.go read.
use rogue_learn_code_battle.Base.{
  Bool, Option, none, some, [], Text, codes, ℤ, is_empty, if◌then◌else◌,
}

-- os.LookupEnv, strconv.Atoi and strconv.ParseBool; a function that panics returns none.
module _ (lookup_env : Text → Option Text) where
  -- GetString
  unfoldable pub get_string : Text → Text → Text
  get_string key default_value = elim (lookup_env key) [ none ↦ default_value | some value ↦ value ]

  -- GetInt
  unfoldable pub get_int : (Text → Option ℤ) → Text → ℤ → Option ℤ
  get_int atoi key default_value = elim (lookup_env key) [
    | none ↦ some default_value
    | some value ↦ atoi value
  ]

  -- GetBool
  unfoldable pub get_bool : (Text → Option Bool) → Text → Bool → Option Bool
  get_bool parse_bool key default_value = elim (lookup_env key) [
    | none ↦ some default_value
    | some value ↦ parse_bool value
  ]

  -- The key of NewHandlerRepo.
  unfoldable pub sec_key : Option Text
  unfolding get_string
  sec_key =
      let value = get_string (codes "JWT_SECRET_KEY") [] in
      if is_empty value then none else some value

  -- The connection of main.
  unfoldable pub conn_str : Option Text
  unfolding get_string
  conn_str =
      let value = get_string (codes "SUPABASE_DB_CONNECTION_STRING") [] in
      if is_empty value then none else some value
