-- ===== src/Common/Integers.antt =====
-- Signed integers.
use Prim.Native.Nat.{ℕ, suc, ◌+◌, ◌-◌, ◌≤◌}
use mathlib.Core.Path.{◌≡◌}
use mathlib.Core.Bool.{Bool, true, false}
use native.Mathlib.Omega.{arith}
use cashu_fault_lab.Common.Tests.{leb, if◌then◌else◌}

-- `negsuc n` is -(n + 1).
pub data ℤ : Type 0 where
  pos negsuc : ℕ → ℤ

abbrev pub pos_part : ℤ → ℕ
pos_part (pos n) = n
pos_part (negsuc n) = 0

abbrev pub neg_part : ℤ → ℕ
neg_part (pos n) = 0
neg_part (negsuc n) = suc n

abbrev pub is_negative : ℤ → Bool
is_negative (pos n) = false
is_negative (negsuc n) = true

-- a - b, as an integer
unfoldable pub sub_ℕ : ℕ → ℕ → ℤ
sub_ℕ a b = if leb b a then pos (a - b) else negsuc (b - a - 1)

-- z + n and z - n
unfoldable pub plus : ℤ → ℕ → ℤ
unfolding sub_ℕ
plus z n = sub_ℕ (pos_part z + n) (neg_part z)

unfoldable pub minus : ℤ → ℕ → ℤ
unfolding sub_ℕ
minus z n = sub_ℕ (pos_part z) (neg_part z + n)

pub plus-sub_ℕ : (a b n : ℕ) → plus (sub_ℕ a b) n ≡ sub_ℕ (a + n) b
unfolding plus
plus-sub_ℕ a b n = ground arith

pub minus-sub_ℕ : (a b n : ℕ) → minus (sub_ℕ a b) n ≡ sub_ℕ a (b + n)
unfolding minus
minus-sub_ℕ a b n = ground arith

pub sub_ℕ-parts : (a b : ℕ) → (pos_part (sub_ℕ a b) ≤ a) × (neg_part (sub_ℕ a b) ≤ b)
unfolding sub_ℕ
sub_ℕ-parts a b = ground arith

pub sub_ℕ-is_negative : (a b : ℕ) → is_negative (sub_ℕ a b) ≡ false → b ≤ a
unfolding sub_ℕ
sub_ℕ-is_negative a b h = ground arith
