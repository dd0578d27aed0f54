-- ===== src/Lifecycle/Oracle/Model.antt =====
-- packages/wallet-lifecycle-oracle/src/model.ts
use cashu_fault_lab.Common.{ℤ, String, Option, Number, Map}
use cashu_fault_lab.Lifecycle.Operation.{LifecyclePhase, LifecycleOperationRecord}

pub data LifecycleProofState : Type 0 where
  unspent pending spent : LifecycleProofState

pub data LifecycleRequestKind : Type 0 where
  mint swap melt : LifecycleRequestKind

pub record ValueMovement : Type 0 where
  pub operation_id : String
  pub effect_id : String
  pub unit : String
  pub amount : Number
  pub from : String
  pub to : String

pub record RequestDispatch : Type 0 where
  pub operation_id : String
  pub request_kind : LifecycleRequestKind
  pub method : String
  pub path : String
  pub body_hash : String

pub record QuoteObservation : Type 0 where
  pub operation_id : String
  pub quote_hash : String
  pub amount_paid : Number
  pub amount_issued : Number
  pub updated_at : Number

pub record ProofObservation : Type 0 where
  pub operation_id : String
  pub proof_id : String
  pub owner : String
  pub state : LifecycleProofState

pub record SettlementObservation : Type 0 where
  pub operation_id : String
  pub invoice_hash : Option String
  pub payment_hash : Option String
  pub amount : Option Number
  pub unit : Option String
  pub evidence_hash : Option String

pub record OutputsObservation : Type 0 where
  pub operation_id : String
  pub output_plan_hash : String
  pub amount : Number
  pub unit : String

pub data ObservationBody : Type 0 where
  operation_observed : LifecycleOperationRecord → ObservationBody
  phase_observed : String → LifecyclePhase → Option String → ObservationBody
  value_moved : ValueMovement → ObservationBody
  request_dispatched : RequestDispatch → ObservationBody
  mint_quote_observed : QuoteObservation → ObservationBody
  proof_state_observed : ProofObservation → ObservationBody
  lightning_settlement_observed : SettlementObservation → ObservationBody
  outputs_persisted : OutputsObservation → ObservationBody

pub record LifecycleObservation : Type 0 where
  pub body : ObservationBody
  pub provenance : Option String

pub record LifecycleEvaluation : Type 0 where
  pub operations : Map LifecycleOperationRecord
  pub balances : Map ℤ
  pub effects : Map ValueMovement
  pub requests : Map RequestDispatch
  pub quotes : Map QuoteObservation
  pub proofs : Map ProofObservation
  pub settlements : Map SettlementObservation
  pub outputs : Map OutputsObservation
