-- ===== src/Lifecycle/Oracle/Evaluate.antt =====
-- packages/wallet-lifecycle-oracle/src/invariants.ts: evaluateLifecycleModel.
use Prim.Native.String.{◌++◌}
use cashu_fault_lab.Common.{
  String, Bool, true, false, not, ◌&&◌, ◌||◌, Option, none, some, List, [], ◌∷◌, ◌==◌, leb, ltb,
  is_hash, includes, str_eq, get, put, Number, nat, if◌then◌else◌, ok, err, ◌>>=◌, ◌>>◌, ensure,
  throw_if,
}
use cashu_fault_lab.Delivery.Platform.{Platform}
use cashu_fault_lab.Lifecycle.Operation.{
  LifecyclePhase, LifecycleOperationRecord, create_operation, transition_operation,
}
use cashu_fault_lab.Lifecycle.Oracle.Model.{
  LifecycleProofState, unspent, pending, spent, LifecycleRequestKind, mint, swap, melt,
  ValueMovement, RequestDispatch, QuoteObservation, ProofObservation, SettlementObservation,
  OutputsObservation, ObservationBody, operation_observed, phase_observed, value_moved,
  request_dispatched, mint_quote_observed, proof_state_observed, lightning_settlement_observed,
  outputs_persisted, LifecycleObservation, LifecycleEvaluation,
}
use cashu_fault_lab.Lifecycle.Oracle.Balances.{
  Verdict, or_fail, is_identifier, is_path, safe_nonnegative, safe_positive, natural, after_prefix,
  same_movement, move_value,
}

unfoldable pub provenances : List String
provenances = "adapter_claimed" ∷ "durable_state" ∷ "mint" ∷ "lightning" ∷ "runner_derived" ∷ []

unfoldable pub valid_provenance : Option String → Bool
valid_provenance none = true
valid_provenance (some p) = includes provenances p

unfoldable pub same_operation : LifecycleOperationRecord → LifecycleOperationRecord → Bool
same_operation a b =
    str_eq a.operation_id b.operation_id
    && str_eq a.kind b.kind
    && str_eq a.mint b.mint
    && str_eq a.unit b.unit
    && str_eq a.intent_hash b.intent_hash

unfoldable pub kind_text : LifecycleRequestKind → String
kind_text mint = "mint"
kind_text swap = "swap"
kind_text melt = "melt"

unfoldable pub same_dispatch : RequestDispatch → RequestDispatch → Bool
same_dispatch a b =
    str_eq a.operation_id b.operation_id
    && str_eq (kind_text a.request_kind) (kind_text b.request_kind)
    && str_eq a.method b.method
    && str_eq a.path b.path
    && str_eq a.body_hash b.body_hash

unfoldable pub same_text : Option String → Option String → Bool
same_text none none = true
same_text (some a) (some b) = str_eq a b
same_text _ _ = false

-- numbers that are no nonnegative integers, which only evidence without a binding may have, are taken
-- to differ
unfoldable pub same_amount : Option Number → Option Number → Bool
same_amount none none = true
same_amount (some (nat a)) (some (nat b)) = a == b
same_amount _ _ = false

unfoldable pub same_settlement : SettlementObservation → SettlementObservation → Bool
same_settlement a b =
    str_eq a.operation_id b.operation_id
    && same_text a.evidence_hash b.evidence_hash
    && same_text a.invoice_hash b.invoice_hash
    && same_text a.payment_hash b.payment_hash
    && same_amount a.amount b.amount
    && same_text a.unit b.unit

unfoldable pub same_outputs : OutputsObservation → OutputsObservation → Bool
same_outputs a b =
    str_eq a.operation_id b.operation_id
    && str_eq a.output_plan_hash b.output_plan_hash
    && natural a.amount == natural b.amount
    && str_eq a.unit b.unit

unfoldable pub operation_for : LifecycleEvaluation → String → Verdict LifecycleOperationRecord
operation_for e id = elim (get e.operations id) [ none ↦ err tt | some operation ↦ ok operation ]

-- previous ?? value, where a previous one must be the same
unfoldable pub first_kept : {A : Type 0} → (A → A → Bool) → Option A → A → Verdict A
first_kept same none value = ok value
first_kept same (some previous) value = if same previous value then ok previous else err tt

unfoldable pub valid_proof_transition : LifecycleProofState → LifecycleProofState → Bool
valid_proof_transition spent unspent = false
valid_proof_transition spent pending = false
valid_proof_transition _ _ = true

-- the quote that was observed before may not be later than the new one
unfoldable pub check_quote : Option QuoteObservation → QuoteObservation → Verdict (Unit {0})
check_quote none q = ok tt
check_quote (some p) q = do
  let paid = natural p.amount_paid
  let issued = natural p.amount_issued
  let changed = not (paid == natural q.amount_paid) || not (issued == natural q.amount_issued)
  ensure (str_eq p.operation_id q.operation_id) tt
  throw_if
      (ltb (natural q.amount_paid) paid
        || ltb (natural q.amount_issued) issued
        || ltb (natural q.updated_at) (natural p.updated_at)
        || changed && leb (natural q.updated_at) (natural p.updated_at))
      tt

unfoldable pub check_proof : Option ProofObservation → ProofObservation → Verdict (Unit {0})
check_proof none o = ok tt
check_proof (some p) o = do
  ensure (str_eq p.owner o.owner) tt
  ensure (valid_proof_transition p.state o.state) tt

-- owner.replace(/^wallet:/u, '')
unfoldable pub owner_name : String → String
owner_name owner = elim (after_prefix "wallet:" owner) [ none ↦ owner | some rest ↦ rest ]

unfoldable pub settlement_key : SettlementObservation → String
settlement_key o = elim o.invoice_hash [
  | some hash ↦ "invoice\0" ++ hash
  | none ↦ "evidence\0" ++ (elim o.evidence_hash [ none ↦ "" | some hash ↦ hash ])
]

abbrev is_some_hash : Option String → Bool
is_some_hash none = false
is_some_hash (some hash) = is_hash hash

unfoldable pub has_protocol_binding : SettlementObservation → LifecycleOperationRecord → Bool
has_protocol_binding o operation =
    is_some_hash o.invoice_hash
    && is_some_hash o.payment_hash
    && (elim o.amount [ none ↦ false | some amount ↦ safe_positive amount ])
    && (elim o.unit [ none ↦ false | some unit ↦ str_eq unit operation.unit ])

unfoldable pub has_authenticated_evidence : SettlementObservation → Option String → Bool
has_authenticated_evidence o provenance =
    (elim provenance [ none ↦ false | some p ↦ str_eq p "lightning" ])
    && is_some_hash o.evidence_hash

module _ (platform : Platform) where
  unfoldable pub observe_operation :
      LifecycleOperationRecord → LifecycleEvaluation → Verdict LifecycleEvaluation
  observe_operation observed e = do
    operation ← or_fail (create_operation platform observed.identity)
    ensure (elim observed.phase [ LifecyclePhase.created ↦ true | _ ↦ false ]) tt
    ensure (elim observed.evidence_code [ none ↦ true | some code ↦ false ]) tt
    kept ← first_kept same_operation (get e.operations operation.operation_id) operation
    ok (record e { operations = put e.operations operation.operation_id kept })

  unfoldable pub observe_phase :
      String → LifecyclePhase → Option String → LifecycleEvaluation → Verdict LifecycleEvaluation
  observe_phase id phase evidence e = do
    current ← operation_for e id
    next ← or_fail (transition_operation platform current phase evidence)
    ok (record e { operations = put e.operations id next })

  unfoldable pub observe_movement :
      ValueMovement → LifecycleEvaluation → Verdict LifecycleEvaluation
  observe_movement o e = do
    operation ← operation_for e o.operation_id
    elim (get e.effects o.effect_id) [
      | some previous ↦ if same_movement previous o then ok e else err tt
      | none ↦ do
        balances ← move_value platform e.balances o operation
        ok (record e { balances = balances; effects = put e.effects o.effect_id o })
    ]

unfoldable pub observe_request : RequestDispatch → LifecycleEvaluation → Verdict LifecycleEvaluation
observe_request o e = do
  operation_for e o.operation_id
  ensure (str_eq o.method "POST" && is_path o.path && is_hash o.body_hash) tt
  let key = o.operation_id ++ ("\0" ++ kind_text o.request_kind)
  kept ← first_kept same_dispatch (get e.requests key) o
  ok (record e { requests = put e.requests key kept })

unfoldable pub observe_quote : QuoteObservation → LifecycleEvaluation → Verdict LifecycleEvaluation
observe_quote o e = do
  operation_for e o.operation_id
  ensure
      (is_hash o.quote_hash
        && safe_nonnegative o.amount_paid
        && safe_nonnegative o.amount_issued
        && safe_nonnegative o.updated_at)
      tt
  throw_if (ltb (natural o.amount_paid) (natural o.amount_issued)) tt
  check_quote (get e.quotes o.quote_hash) o
  ok (record e { quotes = put e.quotes o.quote_hash o })

unfoldable pub observe_proof : ProofObservation → LifecycleEvaluation → Verdict LifecycleEvaluation
observe_proof o e = do
  operation_for e o.operation_id
  ensure (is_hash o.proof_id && is_identifier (owner_name o.owner)) tt
  check_proof (get e.proofs o.proof_id) o
  ok (record e { proofs = put e.proofs o.proof_id o })

unfoldable pub observe_settlement :
    SettlementObservation → Option String → LifecycleEvaluation → Verdict LifecycleEvaluation
observe_settlement o provenance e = do
  operation ← operation_for e o.operation_id
  ensure
      (str_eq operation.kind "melt"
        && (has_protocol_binding o operation || has_authenticated_evidence o provenance))
      tt
  kept ← first_kept same_settlement (get e.settlements (settlement_key o)) o
  ok (record e { settlements = put e.settlements (settlement_key o) kept })

unfoldable pub observe_outputs :
    OutputsObservation → LifecycleEvaluation → Verdict LifecycleEvaluation
observe_outputs o e = do
  operation ← operation_for e o.operation_id
  ensure (is_hash o.output_plan_hash && safe_positive o.amount && str_eq o.unit operation.unit) tt
  kept ← first_kept same_outputs (get e.outputs o.operation_id) o
  ok (record e { outputs = put e.outputs o.operation_id kept })

abbrev pub empty_evaluation : LifecycleEvaluation
empty_evaluation = record {
  operations = [];
  balances = [];
  effects = [];
  requests = [];
  quotes = [];
  proofs = [];
  settlements = [];
  outputs = [];
}

module _ (platform : Platform) where
  unfoldable pub observe_body :
      ObservationBody → Option String → LifecycleEvaluation → Verdict LifecycleEvaluation
  observe_body (operation_observed o) p e = observe_operation platform o e
  observe_body (phase_observed id phase evidence) p e = observe_phase platform id phase evidence e
  observe_body (value_moved o) p e = observe_movement platform o e
  observe_body (request_dispatched o) p e = observe_request o e
  observe_body (mint_quote_observed o) p e = observe_quote o e
  observe_body (proof_state_observed o) p e = observe_proof o e
  observe_body (lightning_settlement_observed o) p e = observe_settlement o p e
  observe_body (outputs_persisted o) p e = observe_outputs o e

  unfoldable pub observe : LifecycleObservation → LifecycleEvaluation → Verdict LifecycleEvaluation
  observe o e = do ensure (valid_provenance o.provenance) tt; observe_body o.body o.provenance e

  unfoldable pub evaluate :
      List LifecycleObservation → LifecycleEvaluation → Verdict LifecycleEvaluation
  evaluate [] e = ok e
  evaluate (o ∷ os) e = do next ← observe o e; evaluate os next
