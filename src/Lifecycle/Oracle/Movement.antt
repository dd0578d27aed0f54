-- ===== src/Lifecycle/Oracle/Movement.antt =====
-- packages/wallet-lifecycle-oracle/src/invariants.ts: one movement of value, where all sums are safe.
use cashu_fault_lab.Common.{
  ◌+◌, ◌≤◌, String, true, false, ◌≡◌, sym, ap, eq_iff, ◌&&◌, ◌∙◌, inl, inr, none, Bool-cases, Map,
  get, put, str_eq, max_safe, ℤ, is_negative, sub_ℕ, plus, minus, plus-sub_ℕ, minus-sub_ℕ,
  sub_ℕ-is_negative, arith,
}
use mathlib.Core.Path.{subst}
use native.Mathlib.Nat.{add-zero}
use cashu_fault_lab.Delivery.Platform.{Platform}
use cashu_fault_lab.Lifecycle.Oracle.Model.{ValueMovement}
use cashu_fault_lab.Lifecycle.Oracle.Balances.{
  natural, balance_at, balance_key, tracked_account, withdrawn, deposit,
}
use cashu_fault_lab.Lifecycle.Oracle.Sums.{
  amount_at, paid_into, paid_from, total_moved, paid_into-le, paid_from-le, balance_at-put, IsExact,
}

module _ (platform : Platform) (exact : IsExact platform) where
  -- One movement, where all sums are safe.
  module _ (m : Map ℤ) (effects : Map ValueMovement) (k : String) (v : ValueMovement)
      (fresh : get effects k ≡ none) (safe : total_moved effects + natural v.amount ≤ max_safe)
      (booked : (key : String)
        → balance_at m key ≡ sub_ℕ (paid_into effects key) (paid_from effects key)) where
    withdrawn-eq :
        withdrawn platform m (balance_key v.unit v.from) (natural v.amount)
        ≡ sub_ℕ
            (paid_into effects (balance_key v.unit v.from))
            (paid_from effects (balance_key v.unit v.from) + natural v.amount)
    unfolding withdrawn
    withdrawn-eq =
        let from = balance_key v.unit v.from in
        ap (λ (z : ℤ). platform.round (minus z (natural v.amount))) (booked from)
        ∙ ap platform.round
            (minus-sub_ℕ (paid_into effects from) (paid_from effects from) (natural v.amount))
        ∙ exact _ _ (omega (arith, paid_into-le effects from, safe))
            (omega (arith, paid_from-le effects from, safe))

    unfoldable pub after_withdrawal : Map ℤ
    after_withdrawal =
        put m (balance_key v.unit v.from)
          (withdrawn platform m (balance_key v.unit v.from) (natural v.amount))

    balance_at-after_withdrawal :
        (key : String)
        → balance_at after_withdrawal key
          ≡ sub_ℕ
              (paid_into effects key)
              (paid_from effects key + amount_at (balance_key v.unit v.from) key v)
    unfolding after_withdrawal
    balance_at-after_withdrawal key =
        let from = balance_key v.unit v.from in
        rw (balance_at-put m from key (withdrawn platform m from (natural v.amount)))
          (elim (Bool-cases (str_eq from key)) [
            | inl same ↦
                let e : from ≡ key = (eq_iff from key).0 same in
                rw same (
                  subst
                    (λ z.
                      withdrawn platform m from (natural v.amount)
                      ≡ sub_ℕ (paid_into effects z) (paid_from effects z + natural v.amount))
                    e withdrawn-eq)
            | inr other ↦ rw (other, add-zero) (booked key)
          ])

    deposited-eq :
        let to = balance_key v.unit v.to in
        platform.round (plus (balance_at after_withdrawal to) (natural v.amount))
        ≡ sub_ℕ
            (paid_into effects to + natural v.amount)
            (paid_from effects to + amount_at (balance_key v.unit v.from) to v)
    deposited-eq =
        let to = balance_key v.unit v.to in
        let from = balance_key v.unit v.from in
        rw (balance_at-after_withdrawal to) (
          rw
            (plus-sub_ℕ (paid_into effects to) (paid_from effects to + amount_at from to v)
              (natural v.amount))
            (exact _ _ (omega (arith, paid_into-le effects to, safe))
              (ground (arith, paid_from-le effects to, safe))))

    pub balance_at-moved :
        (key : String)
        → balance_at
            (deposit platform (balance_key v.unit v.to) (natural v.amount) after_withdrawal)
            key
          ≡ sub_ℕ
              (paid_into effects key + amount_at (balance_key v.unit v.to) key v)
              (paid_from effects key + amount_at (balance_key v.unit v.from) key v)
    unfolding deposit
    balance_at-moved key =
        let to = balance_key v.unit v.to in
        let from = balance_key v.unit v.from in
        let b = platform.round (plus (balance_at after_withdrawal to) (natural v.amount)) in
        rw (balance_at-put after_withdrawal to key b) (elim (Bool-cases (str_eq to key)) [
          | inl same ↦
              let e : to ≡ key = (eq_iff to key).0 same in
              rw same (
                subst
                  (λ z.
                    b
                    ≡ sub_ℕ (paid_into effects z + natural v.amount)
                        (paid_from effects z + amount_at from z v))
                  e deposited-eq)
          | inr other ↦ rw (other, add-zero) (balance_at-after_withdrawal key)
        ])

    -- the guard of a tracked account
    pub covered-from :
        tracked_account v.from ≡ true
        → (tracked_account v.from
            && is_negative (withdrawn platform m (balance_key v.unit v.from) (natural v.amount)))
          ≡ false
        → paid_from effects (balance_key v.unit v.from) + natural v.amount
          ≤ paid_into effects (balance_key v.unit v.from)
    covered-from tracked guard =
        sub_ℕ-is_negative _ _ (ap is_negative (sym withdrawn-eq) ∙ ground arith)
