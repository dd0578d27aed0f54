-- ===== src/Delivery/Amount.antt =====
-- packages/delivery-core/src/amount.ts. A map of fees may hold any number, so the fee is tested.
pub mod Laws
use cashu_fault_lab.Common.{
  ℕ, zero, suc, ◌+◌, ◌-◌, ◌*◌, ◌/◌, ◌%◌, ◌≤◌, ◌<◌, String, ◌≡◌, refl, Bool, true, false, not,
  Option, none, some, List, [], ◌∷◌, arith, ltb, leb, ◌==◌, if◌then◌else◌, Number, nat, other,
  is_safe, is_safe_nonnegative, Result, ok, err, ◌>>=◌, ◌>>◌, ensure, throw_if, Map, get,
}
use cashu_fault_lab.Delivery.Errors.{
  DeliveryErrorCode, invalid_amount, unknown_keyset, amount_mismatch,
}

pub record AmountProof : Type 0 where
  pub amount : Number
  pub id : String

-- assertNonnegativeSafeInteger, with the number that passed
unfoldable pub nonnegative_safe : Number → Result DeliveryErrorCode ℕ
nonnegative_safe (nat n) = if is_safe n then ok n else err invalid_amount
nonnegative_safe _ = err invalid_amount

-- the fee of one proof in the loop of computeInputFee
unfoldable pub fee_ppk : Map Number → AmountProof → Result DeliveryErrorCode ℕ
unfolding nonnegative_safe
fee_ppk fees proof = elim (get fees proof.id) [
  | none ↦ err unknown_keyset
  | some fee ↦ nonnegative_safe fee
]

-- `sum += n`, and the test that the sum is still a safe integer
unfoldable pub add_safe : ℕ → ℕ → Result DeliveryErrorCode ℕ
add_safe sum n = if is_safe (sum + n) then ok (sum + n) else err invalid_amount

unfoldable pub sum_ppk : Map Number → ℕ → List AmountProof → Result DeliveryErrorCode ℕ
unfolding fee_ppk add_safe
sum_ppk fees sum [] = ok sum
sum_ppk fees sum (proof ∷ proofs) = do
  fee ← fee_ppk fees proof
  sum' ← add_safe sum fee
  sum_ppk fees sum' proofs

unfoldable pub round_up : ℕ → ℕ
round_up sum = sum / 1000 + (if sum % 1000 == 0 then 0 else 1)

unfoldable pub compute_input_fee : List AmountProof → Map Number → Result DeliveryErrorCode ℕ
unfolding sum_ppk round_up
compute_input_fee proofs fees = do sum ← sum_ppk fees 0 proofs; ok (round_up sum)

unfoldable pub sum_amounts : ℕ → List AmountProof → Result DeliveryErrorCode ℕ
unfolding nonnegative_safe add_safe
sum_amounts gross [] = ok gross
sum_amounts gross (proof ∷ proofs) = do
  amount ← nonnegative_safe proof.amount
  gross' ← add_safe gross amount
  sum_amounts gross' proofs

-- The difference of two safe integers is safe, so of the last test `net < 0` is left.
unfoldable pub compute_net_amount : List AmountProof → Map Number → Result DeliveryErrorCode ℕ
unfolding sum_amounts compute_input_fee
compute_net_amount proofs fees = do
  gross ← sum_amounts 0 proofs
  fee ← compute_input_fee proofs fees
  throw_if (ltb gross fee) invalid_amount
  ok (gross - fee)

unfoldable pub assert_exact_requested_amount : Number → Number → Result DeliveryErrorCode (Unit {0})
unfolding nonnegative_safe
assert_exact_requested_amount actual requested = do
  a ← nonnegative_safe actual
  r ← nonnegative_safe requested
  ensure (a == r) amount_mismatch
