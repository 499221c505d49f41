-- ===== src/Prelude/Int.antt =====
-- Go's `int` and `int64`: signed integers, with the wrap-around at 64 bits.
use Prim.Native.Nat.{ℕ, ◌-◌, ◌%◌, ◌^◌, ◌<◌}
use mathlib.Core.Bool.{Bool, false}
use native.Mathlib.Omega.{arith}
use integration_console.Prelude.Tests.{ltb, if◌then◌else◌}

-- `negsuc n` is -(n + 1).
pub data ℤ : Type 0 where
  pos : ℕ → ℤ
  negsuc : ℕ → ℤ

-- A value read modulo 2 ^ 64 as a signed word.
abbrev pub wrap64 : ℕ → ℤ
wrap64 n = if ltb (n % 2 ^ 64) (2 ^ 63) then pos (n % 2 ^ 64) else negsuc (2 ^ 64 - 1 - n % 2 ^ 64)

-- `x > 0`
abbrev pub positive : ℤ → Bool
positive (pos n) = ltb 0 n
positive (negsuc n) = false

-- The value where it is not negative, and 0 otherwise.
abbrev pub pos_part : ℤ → ℕ
pos_part (pos n) = n
pos_part (negsuc n) = 0

-- A field that counts only where it is positive: `if x > 0 { return x }; return d`.
abbrev pub positive_or : ℤ → ℕ → ℕ
positive_or x d = if positive x then pos_part x else d

pub positive_or_pos : (x : ℤ) (d : ℕ) → 0 < d → 0 < positive_or x d
positive_or_pos x d h = ground arith
