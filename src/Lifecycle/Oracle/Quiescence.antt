-- ===== src/Lifecycle/Oracle/Quiescence.antt =====
-- packages/wallet-lifecycle-oracle/src/invariants.ts: assertLifecycleQuiescence.
use Prim.Native.String.{◌++◌}
use cashu_fault_lab.Common.{
  String, Bool, true, false, not, ◌&&◌, Option, none, some, List, [], ◌∷◌, any, str_eq, includes,
  has, values, ok, ◌>>=◌, ◌>>◌, ensure, throw_if,
}
use cashu_fault_lab.Delivery.Platform.{Platform}
use cashu_fault_lab.Lifecycle.Operation.{
  LifecyclePhase, succeeded, failed_definitive, recovery_blocked, LifecycleOperationRecord,
}
use cashu_fault_lab.Lifecycle.Oracle.Model.{
  proof_state_observed, LifecycleObservation, LifecycleEvaluation,
}
use cashu_fault_lab.Lifecycle.Oracle.Balances.{Verdict}
use cashu_fault_lab.Lifecycle.Oracle.Evaluate.{evaluate, empty_evaluation}

-- [...terminal].has(phase)
unfoldable pub is_quiescent_phase : LifecyclePhase → Bool
is_quiescent_phase succeeded = true
is_quiescent_phase failed_definitive = true
is_quiescent_phase recovery_blocked = true
is_quiescent_phase _ = false

unfoldable pub is_succeeded : LifecyclePhase → Bool
is_succeeded succeeded = true
is_succeeded _ = false

-- the kind of request that an operation must have made
unfoldable pub request_kind : String → Option String
request_kind kind = elim (str_eq kind "mint") [
  | true ↦ some "mint"
  | false ↦ elim (str_eq kind "melt") [
    | true ↦ some "melt"
    | false ↦ elim (includes ("swap" ∷ "send" ∷ "receive" ∷ []) kind) [
      | true ↦ some "swap"
      | false ↦ none
    ]
  ]
]

unfoldable pub needs_outputs : String → Bool
needs_outputs kind = includes ("mint" ∷ "swap" ∷ "receive" ∷ "restore" ∷ []) kind

unfoldable pub needs_proofs : String → Bool
needs_proofs kind = includes ("swap" ∷ "send" ∷ "receive" ∷ "melt" ∷ []) kind

unfoldable pub is_kind : String → String → Bool
is_kind kind name = str_eq kind name

unfoldable pub is_proof_of : String → LifecycleObservation → Bool
is_proof_of id o = elim o.body [ proof_state_observed p ↦ str_eq p.operation_id id | _ ↦ false ]

unfoldable pub has_proof : List LifecycleObservation → String → Bool
has_proof observations id = any (is_proof_of id) observations

unfoldable pub has_saved_outputs : LifecycleEvaluation → String → Bool
has_saved_outputs e id = has e.outputs id

unfoldable pub has_settlement : LifecycleEvaluation → String → Bool
has_settlement e id = any (λ s. str_eq s.operation_id id) (values e.settlements)

unfoldable pub has_quote : LifecycleEvaluation → String → Bool
has_quote e id = any (λ q. str_eq q.operation_id id) (values e.quotes)

unfoldable pub has_effect : LifecycleEvaluation → String → Bool
has_effect e id = any (λ v. str_eq v.operation_id id) (values e.effects)

unfoldable pub has_request : LifecycleEvaluation → LifecycleOperationRecord → Bool
has_request e operation = elim (request_kind operation.kind) [
  | none ↦ true
  | some kind ↦ has e.requests (operation.operation_id ++ ("\0" ++ kind))
]

-- what follows where the operation has succeeded
unfoldable pub check_success :
    List LifecycleObservation → LifecycleEvaluation → LifecycleOperationRecord → Verdict (Unit {0})
check_success observations e operation = do
  let id = operation.operation_id
  throw_if (needs_outputs operation.kind && not (has_saved_outputs e id)) tt
  throw_if (is_kind operation.kind "melt" && not (has_settlement e id)) tt
  ensure (has_request e operation) tt
  throw_if (is_kind operation.kind "mint" && not (has_quote e id)) tt
  throw_if (needs_proofs operation.kind && not (has_proof observations id)) tt
  throw_if (not (is_kind operation.kind "reconcile") && not (has_effect e id)) tt

unfoldable pub check_operation :
    List LifecycleObservation → LifecycleEvaluation → LifecycleOperationRecord → Verdict (Unit {0})
check_operation observations e operation = do
  ensure (is_quiescent_phase operation.phase) tt
  elim (is_succeeded operation.phase) [
    | true ↦ check_success observations e operation
    | false ↦ ok tt
  ]

unfoldable pub check_operations :
    List LifecycleObservation
    → LifecycleEvaluation
    → List LifecycleOperationRecord
    → Verdict (Unit {0})
check_operations observations e [] = ok tt
check_operations observations e (operation ∷ operations) = do
  check_operation observations e operation
  check_operations observations e operations

unfoldable pub assert_lifecycle_quiescence :
    Platform → List LifecycleObservation → Verdict (Unit {0})
assert_lifecycle_quiescence platform observations = do
  e ← evaluate platform observations empty_evaluation
  check_operations observations e (values e.operations)
