-- ===== src/Lifecycle/Oracle/Rest.antt =====
-- packages/wallet-lifecycle-oracle/src/invariants.ts: what assertLifecycleQuiescence accepts, described
-- by the operations' kinds.
use cashu_fault_lab.Common.{
  String, Bool, true, false, not, ◌&&◌, ◌≡◌, ◌↔◌, refl, inl, inr, some, List, [], ◌∷◌, arith, All,
  Member, Bool-cases, eq_iff, get, values, ok, bind-eq-ok,
}
use cashu_fault_lab.Delivery.Platform.{Platform}
use cashu_fault_lab.Lifecycle.Operation.{LifecycleOperationRecord}
use cashu_fault_lab.Lifecycle.Oracle.Model.{
  ValueMovement, QuoteObservation, SettlementObservation, OutputsObservation, LifecycleObservation,
  LifecycleEvaluation,
}
use cashu_fault_lab.Lifecycle.Oracle.Evaluate.{evaluate, empty_evaluation}
use cashu_fault_lab.Lifecycle.Oracle.Quiescence.{
  is_succeeded, needs_outputs, needs_proofs, is_kind, has_saved_outputs, has_settlement, has_quote,
  has_effect, check_success, check_operation, check_operations, assert_lifecycle_quiescence,
}
use cashu_fault_lab.Lifecycle.Oracle.Evidence.{
  Evidenced, AtRest, is_quiescent_phase_iff, is_succeeded_iff, includes_iff, has_iff, named_iff,
  has_proof_iff, has_request_iff,
}

-- if (needed && !there) fail(…)
implied : (needed given : Bool) → (needed ≡ true → given ≡ true) → (needed && not given) ≡ false
implied true given h = rw (h refl) refl
implied false given h = refl

needs_outputs_iff :
    (kind : String)
    → (needs_outputs kind ≡ true) ↔ Member kind ("mint" ∷ "swap" ∷ "receive" ∷ "restore" ∷ [])
unfolding needs_outputs
needs_outputs_iff kind = includes_iff _ kind

needs_proofs_iff :
    (kind : String)
    → (needs_proofs kind ≡ true) ↔ Member kind ("swap" ∷ "send" ∷ "receive" ∷ "melt" ∷ [])
unfolding needs_proofs
needs_proofs_iff kind = includes_iff _ kind

is_kind_iff : (kind name : String) → (is_kind kind name ≡ true) ↔ (kind ≡ name)
unfolding is_kind
is_kind_iff kind name = eq_iff kind name

module _ (e : LifecycleEvaluation) (id : String) where
  has_saved_outputs_iff :
      (has_saved_outputs e id ≡ true) ↔ ((o : OutputsObservation) × (get e.outputs id ≡ some o))
  unfolding has_saved_outputs
  has_saved_outputs_iff = has_iff e.outputs id

  has_settlement_iff :
      (has_settlement e id ≡ true)
      ↔ ((o : SettlementObservation) × Member o (values e.settlements) × (o.operation_id ≡ id))
  unfolding has_settlement
  has_settlement_iff =
      named_iff (λ (s : SettlementObservation). s.operation_id) id (values e.settlements)

  has_quote_iff :
      (has_quote e id ≡ true)
      ↔ ((q : QuoteObservation) × Member q (values e.quotes) × (q.operation_id ≡ id))
  unfolding has_quote
  has_quote_iff = named_iff (λ (q : QuoteObservation). q.operation_id) id (values e.quotes)

  has_effect_iff :
      (has_effect e id ≡ true)
      ↔ ((v : ValueMovement) × Member v (values e.effects) × (v.operation_id ≡ id))
  unfolding has_effect
  has_effect_iff = named_iff (λ (v : ValueMovement). v.operation_id) id (values e.effects)

module _ (observations : List LifecycleObservation) (e : LifecycleEvaluation)
    (operation : LifecycleOperationRecord) where
  check_success-Evidenced :
      check_success observations e operation ≡ ok tt
      → Evidenced observations e operation.operation_id operation.kind
  unfolding check_success
  check_success-Evidenced h =
      let id = operation.operation_id in
      let kind = operation.kind in
      record {
        outputs =
            λ k. (has_saved_outputs_iff e id).0 (ground (arith, (needs_outputs_iff kind).1 k));
        settlement =
            λ k. (has_settlement_iff e id).0 (ground (arith, (is_kind_iff kind "melt").1 k));
        request = (has_request_iff e operation).0 (ground arith);
        quote = λ k. (has_quote_iff e id).0 (ground (arith, (is_kind_iff kind "mint").1 k));
        proofs =
            λ k. (has_proof_iff observations id).0 (ground (arith, (needs_proofs_iff kind).1 k));
        effect = λ k. (has_effect_iff e id).0 (ground (arith, is_kind_iff kind "reconcile"));
      }

  Evidenced-check_success :
      Evidenced observations e operation.operation_id operation.kind
      → check_success observations e operation ≡ ok tt
  unfolding check_success
  Evidenced-check_success r =
      let id = operation.operation_id in
      let kind = operation.kind in
      rw
        (
          implied _ _
              (λ k. (has_saved_outputs_iff e id).1 (r.outputs ((needs_outputs_iff kind).0 k))),
          implied _ _
              (λ k. (has_settlement_iff e id).1 (r.settlement ((is_kind_iff kind "melt").0 k))),
          (has_request_iff e operation).1 r.request,
          implied _ _ (λ k. (has_quote_iff e id).1 (r.quote ((is_kind_iff kind "mint").0 k))),
          implied _ _
              (λ k. (has_proof_iff observations id).1 (r.proofs ((needs_proofs_iff kind).0 k))),
          implied (not (is_kind kind "reconcile")) _ (λ k.
              (has_effect_iff e id).1
                (r.effect (λ same. cc (k, (is_kind_iff kind "reconcile").1 same)))),
        )
        refl

check_operation-AtRest :
    (observations : List LifecycleObservation) (e : LifecycleEvaluation)
    (operation : LifecycleOperationRecord)
    → (check_operation observations e operation ≡ ok tt) ↔ AtRest observations e operation
unfolding check_operation
check_operation-AtRest observations e operation =
    let resting = is_quiescent_phase_iff operation.phase in
    let success = is_succeeded_iff operation.phase in
    (
      λ h. record {
        phase = resting.0 (ground arith);
        evidence = λ p.
            check_success-Evidenced observations e operation
              (ground (arith, success.1 p, resting.1));
      },
      λ r. elim (Bool-cases (is_succeeded operation.phase)) [
        | inl s ↦ ground (
          arith,
          resting.1 r.phase,
          Evidenced-check_success observations e operation (r.evidence (success.0 s)),
        )
        | inr s ↦ ground (arith, resting.1 r.phase)
      ],
    )

check_operations-AtRest :
    (observations : List LifecycleObservation) (e : LifecycleEvaluation)
    (operations : List LifecycleOperationRecord)
    → (check_operations observations e operations ≡ ok tt) ↔ All (AtRest observations e) operations
unfolding check_operations
check_operations-AtRest observations e [] = ground arith
check_operations-AtRest observations e (operation ∷ operations) =
    let (sound, complete) = check_operation-AtRest observations e operation in
    let (sounds, completes) = check_operations-AtRest observations e operations in
    (
      λ h.
          let (u, first, rest) = bind-eq-ok (check_operation observations e operation) _ h in
          (sound first, sounds rest),
      λ r. rw (complete r.0) (completes r.1),
    )

-- assertLifecycleQuiescence accepts exactly the observations that the oracle evaluates to operations
-- that are all at rest: in a terminal phase, and with the outputs, settlement, request, quote, proof
-- and movement evidence that their kind asks for if they succeeded.
pub assert_lifecycle_quiescence_iff :
    (platform : Platform) (observations : List LifecycleObservation)
    → (assert_lifecycle_quiescence platform observations ≡ ok tt) ↔ (
        (e : LifecycleEvaluation) × (evaluate platform observations empty_evaluation ≡ ok e)
        × All (AtRest observations e) (values e.operations))
unfolding assert_lifecycle_quiescence
assert_lifecycle_quiescence_iff platform observations = (
  λ h.
      let (e, good, rest) = bind-eq-ok (evaluate platform observations empty_evaluation) _ h in
      (e, good, (check_operations-AtRest observations e (values e.operations)).0 rest),
  λ (e, good, all). rw good ((check_operations-AtRest observations e (values e.operations)).1 all),
)
