-- ===== src/Sender/Retry.antt =====
-- apps/reference-sender/src/retry.ts. A sample is a fraction of 2^32, as createSeededRandom makes it.
-- The delays are products of numbers below 2^53 and powers of two, so the doubles are exact.
use native.Mathlib.Nat.{div-le_of_le-mul, mul-le-mul_left}
use cashu_fault_lab.Common.{
  ℕ, zero, suc, ◌*◌, ◌/◌, ◌≤◌, ◌≡◌, ◌&&◌, leb, is_safe, min, arith, String, is_blank, Result, ok,
  ◌>>◌, ensure, throw_if, bind-eq-ok,
}

unfoldable pub word : ℕ
word = 4294967296

unfoldable pub power_of_two : ℕ → ℕ
power_of_two zero = 1
power_of_two (suc n) = 2 * power_of_two n

-- Math.min(capMs, baseMs * 2 ** Math.min(attempt, 30))
unfoldable pub max_delay : ℕ → ℕ → ℕ → ℕ
max_delay attempt base cap = min cap (base * power_of_two (min attempt 30))

unfoldable pub retry_delay : ℕ → ℕ → ℕ → ℕ → Result (Unit {0}) ℕ
retry_delay attempt sample base cap = do
  ensure (is_safe attempt) tt
  ensure (is_safe base && leb 1 base && is_safe cap && leb 1 cap) tt
  ensure (leb sample word) tt
  ok (max_delay attempt base cap * sample / word)

-- createSeededRandom: its test of the seed
unfoldable pub check_seed : String → Result (Unit {0}) (Unit {0})
check_seed seed = throw_if (is_blank seed) tt

scaled-le : (m s : ℕ) → s ≤ word → m * s / word ≤ m
unfolding word
scaled-le m s h = div-le_of_le-mul 4294967296 (grind (arith, mul-le-mul_left m h))

-- A delay is at most the cap, and at most the base doubled once for every earlier attempt.
pub retry_delay-Bounds :
    (attempt sample base cap delay : ℕ)
    → retry_delay attempt sample base cap ≡ ok delay
    → (delay ≤ cap) × (delay ≤ base * power_of_two (min attempt 30))
unfolding retry_delay max_delay
retry_delay-Bounds attempt sample base cap delay h =
    let (_, _, h1) = bind-eq-ok (ensure (is_safe attempt) tt) _ h in
    let (_, _, h2) =
      bind-eq-ok (ensure (is_safe base && leb 1 base && is_safe cap && leb 1 cap) tt) _ h1 in
    let (_, test, h3) = bind-eq-ok (ensure (leb sample word) tt) _ h2 in
    let bound = scaled-le (max_delay attempt base cap) sample (ground arith) in grind arith
