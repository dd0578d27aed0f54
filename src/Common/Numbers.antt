-- ===== src/Common/Numbers.antt =====
-- The numbers of JavaScript, as far as the code tells them apart.
use Prim.Native.Nat.{ℕ, ◌-◌, ◌^◌}
use mathlib.Core.Bool.{Bool, false}
use cashu_fault_lab.Common.Tests.{ltb, leb}

-- `negative n` is -(n + 1); `other` stands for every number that is no integer: fractional, NaN and
-- infinite ones. The code never computes with these two: it only tests whether they are safe integers.
pub data Number : Type 0 where
  nat : ℕ → Number
  negative : ℕ → Number
  other : Number

-- Number.MAX_SAFE_INTEGER
abbrev pub max_safe : ℕ
max_safe = 2 ^ 53 - 1

-- Number.isSafeInteger(n), for a nonnegative integer n
abbrev pub is_safe : ℕ → Bool
is_safe n = leb n max_safe

-- Number.isSafeInteger(value) && value >= 0
abbrev pub is_safe_nonnegative : Number → Bool
is_safe_nonnegative (nat n) = is_safe n
is_safe_nonnegative _ = false

-- Number.isSafeInteger(value)
abbrev pub is_safe_integer : Number → Bool
is_safe_integer (nat n) = is_safe n
is_safe_integer (negative n) = ltb n max_safe
is_safe_integer other = false
