-- ===== src/Delivery/Amount/Laws.antt =====
-- What computeInputFee and computeNetAmount return, against plain sums without overflow tests.
use mathlib.Core.Option
use cashu_fault_lab.Common.{
  ℕ, ◌+◌, ◌*◌, ◌≤◌, ◌<◌, ◌≡◌, refl, ◌↔◌, if◌then◌else◌, is_safe, ◌>>=◌, Option-cases, inl, inr,
  Option, none, some, List, [], ◌∷◌, arith, Number, nat, negative, other, max_safe, Result, ok, err,
  Map, get,
}
use cashu_fault_lab.Delivery.Errors.{DeliveryErrorCode}
use cashu_fault_lab.Delivery.Amount.{
  AmountProof, nonnegative_safe, fee_ppk, add_safe, sum_ppk, round_up, sum_amounts,
  compute_net_amount,
}

abbrev pub value? : Number → Option ℕ
value? (nat n) = some n
value? _ = none

abbrev add_number : Number → Option ℕ → Option ℕ
add_number other rest = none
add_number (negative n) rest = none
add_number (nat n) rest = Option.map (λ m. n + m) rest

-- a plain sum over the proofs; `none` if a summand is missing or no natural number
pub total : (AmountProof → Option Number) → List AmountProof → Option ℕ
total f [] = some 0
total f (p ∷ ps) = elim (f p) [ none ↦ none | some a ↦ add_number a (total f ps) ]

abbrev pub amount_of : AmountProof → Option Number
amount_of p = some p.amount

abbrev pub fee_of : Map Number → AmountProof → Option Number
fee_of fees p = get fees p.id

abbrev to_option : Result DeliveryErrorCode ℕ → Option ℕ
to_option (ok n) = some n
to_option (err e) = none

abbrev bounded : ℕ → Option ℕ → Option ℕ
bounded start none = none
bounded start (some u) = if is_safe (start + u) then some (start + u) else none

-- One round of either loop, over the rounds that follow.
sum_step :
    (g : ℕ) (a : Number) (k : ℕ → Result DeliveryErrorCode ℕ) (rest : Option ℕ)
    → ((n : ℕ) → g + n ≤ max_safe → to_option (k (g + n)) ≡ bounded (g + n) rest)
    → to_option (do n ← nonnegative_safe a; t ← add_safe g n; k t) ≡ bounded g (add_number a rest)
unfolding nonnegative_safe add_safe
sum_step g other k rest h = refl
sum_step g (negative n) k rest h = refl
sum_step g (nat n) k rest h = ground (arith, h n)

-- Adding up with a test at each step is the plain sum, if that is a safe integer.
sum_amounts-total :
    (g : ℕ) (ps : List AmountProof)
    → g ≤ max_safe
    → to_option (sum_amounts g ps) ≡ bounded g (total amount_of ps)
unfolding sum_amounts total
sum_amounts-total g [] h = ground arith
sum_amounts-total g (p ∷ ps) h =
    sum_step g p.amount (λ t. sum_amounts t ps) (total amount_of ps)
      λ n b. sum_amounts-total (g + n) ps b

sum_ppk-total :
    (fees : Map Number) (g : ℕ) (ps : List AmountProof)
    → g ≤ max_safe
    → to_option (sum_ppk fees g ps) ≡ bounded g (total (fee_of fees) ps)
unfolding sum_ppk total fee_ppk
sum_ppk-total fees g [] h = ground arith
sum_ppk-total fees g (p ∷ ps) h = elim (Option-cases (get fees p.id)) [
  | inl missing ↦ ground arith
  | inr (a, found) ↦
      rw (found, fee_ppk, total)
        (sum_step g a (λ t. sum_ppk fees t ps) (total (fee_of fees) ps)
          λ n b. sum_ppk-total fees (g + n) ps b)
]

-- What a net amount is: the gross amount less the fee, which is the sum of the proofs' fees in
-- thousandths, rounded up, where both sums are safe integers.
pub record IsNet (proofs : List AmountProof) (fees : Map Number) (net : ℕ) : Type 0 where
  pub gross : ℕ
  pub ppk : ℕ
  pub fee : ℕ
  pub gross_total : total amount_of proofs ≡ some gross
  pub ppk_total : total (fee_of fees) proofs ≡ some ppk
  pub gross_safe : gross ≤ max_safe
  pub ppk_safe : ppk ≤ max_safe
  pub fee_enough : ppk ≤ 1000 * fee
  pub fee_least : 1000 * fee < ppk + 1000
  pub net_lem : net + fee ≡ gross

sound :
    (proofs : List AmountProof) (fees : Map Number) (net : ℕ)
    → compute_net_amount proofs fees ≡ ok net
    → IsNet proofs fees net
unfolding compute_net_amount
sound proofs fees net e = elim (Option-cases (total amount_of proofs)) [
  | inl none_gross ↦ absurd (ground (arith, sum_amounts-total 0 proofs))
  | inr (gross, is_gross) ↦ elim (Option-cases (total (fee_of fees) proofs)) [
    | inl none_ppk ↦
        absurd (ground (arith, sum_amounts-total 0 proofs, sum_ppk-total fees 0 proofs))
    | inr (ppk, is_ppk) ↦ record {
      gross = gross;
      ppk = ppk;
      fee = round_up ppk;
      gross_total = is_gross;
      ppk_total = is_ppk;
      gross_safe = ground (arith, sum_amounts-total 0 proofs);
      ppk_safe = ground (arith, sum_amounts-total 0 proofs, sum_ppk-total fees 0 proofs);
      fee_enough = ground arith;
      fee_least = ground arith;
      net_lem = ground (arith, sum_amounts-total 0 proofs, sum_ppk-total fees 0 proofs);
    }
  ]
]

-- computeNetAmount returns exactly the net amounts: the code's tests at every step of its two sums
-- refuse no payment that the plain definition accepts, and accept no other.
pub compute_net_amount-eq_ok_iff :
    (proofs : List AmountProof) (fees : Map Number) (net : ℕ)
    → (compute_net_amount proofs fees ≡ ok net) ↔ IsNet proofs fees net
unfolding compute_net_amount
compute_net_amount-eq_ok_iff proofs fees net = (
  λ e. sound proofs fees net e,
  λ n.
      ground (
        arith,
        sum_amounts-total 0 proofs,
        sum_ppk-total fees 0 proofs,
        n.gross_total,
        n.ppk_total,
      ),
)
