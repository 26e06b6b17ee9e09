-- ===== src/Tests/Auth.antt =====
-- The bearer token at a concrete header.
use rogue_learn_code_battle.Base.{ℕ, ◌≡◌, ◌↔◌, some, Text, codes}
use rogue_learn_code_battle.Auth.{
  Parsed, expired, auth_middleware, IsBearer, auth_middleware-IsBearer,
}

-- A parser for which every token has expired.
abbrev all_expired : Text → Parsed ℕ
all_expired token = expired 5

auth_middleware-IsBearer_example :
    (auth_middleware all_expired (codes "Bearer abc") ≡ some 5)
    ↔ IsBearer all_expired (codes "Bearer abc") 5
auth_middleware-IsBearer_example = auth_middleware-IsBearer all_expired (codes "Bearer abc") 5
