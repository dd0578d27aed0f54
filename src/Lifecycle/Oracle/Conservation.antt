-- ===== src/Lifecycle/Oracle/Conservation.antt =====
-- Value is neither made nor lost: every account has what the distinct movements paid into it, less what
-- they paid from it.
use cashu_fault_lab.Common.{
  ◌+◌, ◌≤◌, String, false, ◌≡◌, refl, eq_iff, ◌&&◌, inl, inr, Option, none, Option-cases,
  Bool-cases, List, [], ◌∷◌, Map, get, put, str_eq, max_safe, ℤ, is_negative, sub_ℕ, ok,
  Result-cases, arith, bind-eq-ok,
}
use mathlib.Core.Path.{subst}
use cashu_fault_lab.Delivery.Platform.{Platform}
use cashu_fault_lab.Lifecycle.Operation.{LifecycleOperationRecord}
use cashu_fault_lab.Lifecycle.Oracle.Model.{
  ValueMovement, ObservationBody, operation_observed, phase_observed, value_moved,
  request_dispatched, mint_quote_observed, proof_state_observed, lightning_settlement_observed,
  outputs_persisted, LifecycleObservation, LifecycleEvaluation,
}
use cashu_fault_lab.Lifecycle.Oracle.Balances.{
  natural, balance_at, balance_key, tracked_account, withdrawn, deposit, move_value,
}
use cashu_fault_lab.Lifecycle.Oracle.Evaluate.{
  operation_for, observe_operation, observe_phase, observe_movement, observe_request, observe_quote,
  observe_proof, observe_settlement, observe_outputs, observe_body, observe, evaluate,
  empty_evaluation,
}
use cashu_fault_lab.Lifecycle.Oracle.Sums.{
  paid_into, paid_from, total_moved, FromTracked, paid_into-put, paid_from-put, total_moved-put,
  FromTracked-put, IsExact,
}
use cashu_fault_lab.Lifecycle.Oracle.Movement.{after_withdrawal, balance_at-moved, covered-from}

-- Balances and movements agree, as far as all sums are safe.
pub record Booked (e : LifecycleEvaluation) : Type 0 where
  pub booked :
      total_moved e.effects ≤ max_safe
      → (key : String)
      → balance_at e.balances key ≡ sub_ℕ (paid_into e.effects key) (paid_from e.effects key)
  pub covered :
      total_moved e.effects ≤ max_safe
      → (key : String) → FromTracked e.effects key
      → paid_from e.effects key ≤ paid_into e.effects key

module _ (platform : Platform) (exact : IsExact platform) where
  move_value-eq :
      (m m' : Map ℤ) (v : ValueMovement) (operation : LifecycleOperationRecord)
      → move_value platform m v operation ≡ ok m'
      → (m'
          ≡ deposit platform (balance_key v.unit v.to) (natural v.amount) (
              put m
                (balance_key v.unit v.from)
                (withdrawn platform m (balance_key v.unit v.from) (natural v.amount))))
        × ((tracked_account v.from
              && is_negative (withdrawn platform m (balance_key v.unit v.from) (natural v.amount)))
            ≡ false)
  unfolding move_value
  move_value-eq m m' v operation e = (ground arith, ground arith)

  moved-Booked :
      (e : LifecycleEvaluation) (v : ValueMovement) (operation : LifecycleOperationRecord)
      (m : Map ℤ)
      → Booked e
      → get e.effects v.effect_id ≡ none
      → move_value platform e.balances v operation ≡ ok m
      → Booked (record e { balances = m; effects = put e.effects v.effect_id v })
  unfolding after_withdrawal
  moved-Booked e v operation m h fresh good =
      let k = v.effect_id in
      let (same, guard) = move_value-eq e.balances m v operation good in
      let sum = total_moved-put k v e.effects fresh in
      record {
        booked = λ safe key.
            let safe' : total_moved e.effects + natural v.amount ≤ max_safe = rw (← sum) safe in
            let old = h.booked (omega (arith, safe')) in
            rw (same, paid_into-put k v e.effects key fresh, paid_from-put k v e.effects key fresh)
              (balance_at-moved platform exact e.balances e.effects k v fresh safe' old key);
        covered = λ safe key tracked.
            let safe' : total_moved e.effects + natural v.amount ≤ max_safe = rw (← sum) safe in
            let old = h.booked (omega (arith, safe')) in
            let (paid, rest) = FromTracked-put k v e.effects key fresh tracked in
            let into = paid_into-put k v e.effects key fresh in
            let out = paid_from-put k v e.effects key fresh in
            let from = balance_key v.unit v.from in
            elim (Bool-cases (str_eq from key)) [
              | inl hit ↦
                  let e' : from ≡ key = (eq_iff from key).0 hit in
                  let c =
                    covered-from platform exact e.balances e.effects k v fresh safe' old (paid e')
                      guard in
                  let c' : paid_from e.effects key + natural v.amount ≤ paid_into e.effects key =
                    subst (λ z. paid_from e.effects z + natural v.amount ≤ paid_into e.effects z) e'
                      c in
                  ground (arith, into, out, c')
              | inr miss ↦ ground (arith, into, out, h.covered (omega (arith, safe')) key rest)
            ];
      }

  observe_movement-Booked :
      (o : ValueMovement) (e e' : LifecycleEvaluation)
      → Booked e
      → observe_movement platform o e ≡ ok e'
      → Booked e'
  unfolding observe_movement
  observe_movement-Booked o e e' h eq = elim (Option-cases (get e.effects o.effect_id)) [
    | inr (previous, there) ↦ let same : e' ≡ e = ground arith in rw same h
    | inl fresh ↦
        let (operation, found, rest) = bind-eq-ok (operation_for e o.operation_id) _ eq in
        elim (Result-cases (move_value platform e.balances o operation)) [
          | inr (x, bad) ↦ absurd (ground arith)
          | inl (m, good) ↦
              let same : e' ≡ record e { balances = m; effects = put e.effects o.effect_id o } =
                ground arith in
              rw same (moved-Booked e o operation m h fresh good)
        ]
  ]

-- what does not touch balances and movements
Booked-kept :
    (e e' : LifecycleEvaluation)
    → Booked e
    → e'.balances ≡ e.balances
    → e'.effects ≡ e.effects
    → Booked e'
Booked-kept e e' h b f = record {
  booked = λ s key. rw (b, f) (h.booked (rw⁻¹ f s) key);
  covered = λ s key t. rw f (h.covered (rw⁻¹ f s) key (subst (λ z. FromTracked z key) f t));
}

module _ (platform : Platform) (exact : IsExact platform) where
  observe_body-Booked :
      (o : ObservationBody) (p : Option String) (e e' : LifecycleEvaluation)
      → Booked e
      → observe_body platform o p e ≡ ok e'
      → Booked e'
  unfolding observe_body observe_operation observe_phase observe_request observe_quote observe_proof
      observe_settlement observe_outputs
  observe_body-Booked (value_moved o) p e e' h eq =
      observe_movement-Booked platform exact o e e' h eq
  observe_body-Booked (operation_observed o) p e e' h eq =
      Booked-kept e e' h (ground arith) (ground arith)
  observe_body-Booked (phase_observed id phase evidence) p e e' h eq =
      Booked-kept e e' h (ground arith) (ground arith)
  observe_body-Booked (request_dispatched o) p e e' h eq =
      Booked-kept e e' h (ground arith) (ground arith)
  observe_body-Booked (mint_quote_observed o) p e e' h eq =
      Booked-kept e e' h (ground arith) (ground arith)
  observe_body-Booked (proof_state_observed o) p e e' h eq =
      Booked-kept e e' h (ground arith) (ground arith)
  observe_body-Booked (lightning_settlement_observed o) p e e' h eq =
      Booked-kept e e' h (ground arith) (ground arith)
  observe_body-Booked (outputs_persisted o) p e e' h eq =
      Booked-kept e e' h (ground arith) (ground arith)

  evaluate-Booked :
      (os : List LifecycleObservation) (e e' : LifecycleEvaluation)
      → Booked e
      → evaluate platform os e ≡ ok e'
      → Booked e'
  unfolding evaluate observe
  evaluate-Booked [] e e' h eq = subst Booked (ground arith) h
  evaluate-Booked (o ∷ os) e e' h eq =
      let (next, step, rest) = bind-eq-ok (observe platform o e) _ eq in
      evaluate-Booked os next e' (observe_body-Booked o.body o.provenance e next h (ground arith))
        rest

-- Where the oracle accepts the observations, and all sums are safe integers, on which `+` and `-` are
-- exact, every account has what the distinct movements paid into it, less what they paid from it, each
-- counted once however often it was observed; and a tracked account never paid more than it got.
pub evaluate-conserves :
    (platform : Platform) (os : List LifecycleObservation) (e : LifecycleEvaluation)
    → IsExact platform
    → evaluate platform os empty_evaluation ≡ ok e
    → total_moved e.effects ≤ max_safe
    → (key : String)
    → (balance_at e.balances key ≡ sub_ℕ (paid_into e.effects key) (paid_from e.effects key))
      × (FromTracked e.effects key → paid_from e.effects key ≤ paid_into e.effects key)
evaluate-conserves platform os e exact h safe key =
    let start : Booked empty_evaluation = record {
      booked = λ s key. unfold balance_at get paid_into paid_from sub_ℕ in refl;
      covered = λ s key t. unfold paid_into paid_from in omega arith;
    } in
    let b = evaluate-Booked platform exact os empty_evaluation e start h in
    (b.booked safe key, b.covered safe key)
