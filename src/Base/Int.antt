-- ===== src/Base/Int.antt =====
-- Go's int and int32 as integers over the native numbers.
use Prim.Native.Nat.{ℕ, ◌+◌, ◌-◌, ◌%◌, ◌^◌}
use rogue_learn_code_battle.Base.Tests.{ltb, if◌then◌else◌}

-- `negsuc n` is -(n + 1).
pub data ℤ : Type 0 where
  pos : ℕ → ℤ
  negsuc : ℕ → ℤ

-- The integer that 32 bits mean in two's complement.
signed_32 : ℕ → ℤ
signed_32 r = if ltb r (2 ^ 31) then pos r else negsuc (2 ^ 32 - (r + 1))

-- The conversion int32(…).
unfoldable pub int_32 : ℤ → ℤ
unfolding signed_32
int_32 (pos n) = signed_32 (n % 2 ^ 32)
int_32 (negsuc n) = signed_32 (2 ^ 32 - (n % 2 ^ 32 + 1))

-- How often `for i := 0; i < n; i++` runs.
abbrev pub rounds_of : ℤ → ℕ
rounds_of (pos n) = n
rounds_of (negsuc n) = 0
