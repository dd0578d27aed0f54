-- ===== src/Doctor/Names.antt =====
-- packages/wallet-doctor-oracle/src/plan-build.ts: the IDs of planned rollovers differ.
use Prim.Native.String.{String, ◌++◌ as append}
use text.Mathlib.TextLemmas.{nil-append, cons-append, append_cancel_left}
use cashu_fault_lab.Common.{
  ℕ, zero, suc, ◌+◌, ◌-◌, ◌*◌, ◌/◌, ◌%◌, ◌<◌, ◌≡◌, refl, sym, ap, ◌∙◌, arith, ltb, codes, length,
  Bool-cases, inl, inr, List, [], ◌∷◌, ◌++◌,
}
use cashu_fault_lab.Doctor.Build.{digit, decimal_digits, rollover_name}

pub codes-append : (s t : String) → codes (append s t) ≡ codes s ++ codes t
codes-append String.[] t = ap codes (nil-append t)
codes-append (String.◌∷◌ c s) t = ground (arith, cons-append c s t, codes-append s t)

-- the number that the digits stand for, after some digits
read : ℕ → List ℕ → ℕ
read acc [] = acc
read acc (c ∷ cs) = read (acc * 10 + (c - 48)) cs

read-append : (acc : ℕ) (cs ds : List ℕ) → read acc (cs ++ ds) ≡ read (read acc cs) ds
unfolding read
read-append acc [] ds = refl
read-append acc (c ∷ cs) ds = read-append (acc * 10 + (c - 48)) cs ds

-- The texts are single characters from `c` on.
Digits : ℕ → List String → Type 0
Digits c [] = Unit
Digits c (d ∷ ds) = (codes d ≡ c ∷ []) × Digits (suc c) ds

digit-codes :
    (c : ℕ) (ds : List String) (n : ℕ)
    → Digits c ds
    → n < length ds
    → codes (digit ds n) ≡ (c + n) ∷ []
unfolding Digits digit
digit-codes c [] n h l = absurd (omega arith)
digit-codes c (d ∷ ds) zero h l = ground arith
digit-codes c (d ∷ ds) (suc n) h l = ground (arith, digit-codes (suc c) ds n)

abbrev numerals : List String
numerals = "0" ∷ "1" ∷ "2" ∷ "3" ∷ "4" ∷ "5" ∷ "6" ∷ "7" ∷ "8" ∷ "9" ∷ []

numerals-Digits : Digits 48 numerals
unfolding Digits
numerals-Digits = search tt

numeral-codes : (n : ℕ) → n < 10 → codes (digit numerals n) ≡ (48 + n) ∷ []
numeral-codes n l = digit-codes 48 numerals n numerals-Digits l

read-decimal_digits : (fuel n : ℕ) → n < fuel → read 0 (codes (decimal_digits fuel n)) ≡ n
unfolding decimal_digits read
read-decimal_digits zero n l = absurd (omega arith)
read-decimal_digits (suc fuel) n l = elim (Bool-cases (ltb n 10)) [
  | inl small ↦
      let near : n % 10 ≡ n = ground arith in
      rw small (rw (near, numeral-codes n (ground arith)) (omega arith))
  | inr large ↦
      let front = decimal_digits fuel (n / 10) in
      let step = codes-append front (digit numerals (n % 10)) in
      rw
        (
          large,
          step,
          numeral-codes (n % 10) (omega arith),
          read-append 0 (codes front) ((48 + n % 10) ∷ []),
        )
        (omega (arith, read-decimal_digits fuel (n / 10) (ground arith)))
]

pub rollover_name-injective : (n m : ℕ) → rollover_name n ≡ rollover_name m → n ≡ m
unfolding rollover_name
rollover_name-injective n m e =
    let same =
      append_cancel_left "planned:rollover:" (decimal_digits (suc n) n) (decimal_digits (suc m) m)
        e in
    sym (read-decimal_digits (suc n) n (omega arith))
    ∙ (ap (λ s. read 0 (codes s)) same ∙ read-decimal_digits (suc m) m (omega arith))
