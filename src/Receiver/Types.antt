-- ===== src/Receiver/Types.antt =====
-- apps/reference-receiver/src/domain/types.ts
use cashu_fault_lab.Common.{ℕ, String, Bool, Option, List, Number}
use cashu_fault_lab.Delivery.Errors.{DeliveryErrorCode}
use cashu_fault_lab.Delivery.Checkpoint.{CrashBoundary}
use cashu_fault_lab.Delivery.Fingerprint.{CashuProof}
use cashu_fault_lab.Delivery.Payload.{DeliveryPayload}
use cashu_fault_lab.Delivery.Receipt.{DeliveryReceipt}

pub data ReceiverErrorCode : Type 0 where
  invalid_request request_not_found request_expired delivery_expired : ReceiverErrorCode
  delivery_time_invalid request_mismatch mint_mismatch unit_mismatch : ReceiverErrorCode
  amount_mismatch delivery_conflict proof_conflict single_use_conflict : ReceiverErrorCode
  invalid_proof_evidence invalid_state : ReceiverErrorCode

-- What the receiver's code throws: an error of delivery-core, a ReceiverDomainError, a
-- CrashBoundaryHit, a MintGatewayError with its `mayHaveConsumedInputs`, or anything else.
pub data Thrown : Type 0 where
  validation : DeliveryErrorCode → Thrown
  domain : ReceiverErrorCode → Thrown
  crash : CrashBoundary → Thrown
  gateway : Bool → Thrown
  failure : Thrown

pub record CreatePaymentRequest : Type 0 where
  pub id : String
  pub amount : Number
  pub unit : String
  pub mints : List String
  pub single_use : Bool
  pub expires_at : Number

pub record PaymentRequestRecord : Type 0 where
  pub id : String
  pub amount : ℕ
  pub unit : String
  pub mints : List String
  pub single_use : Bool
  pub expires_at : ℕ

pub record AcceptDeliveryCommand : Type 0 where
  pub payload : DeliveryPayload
  pub payload_hash : String

pub record SwapOutputPlan : Type 0 where
  pub amount : Number
  pub id : String
  pub b : String
  pub secret : String
  pub blinding_factor : String

-- its version is always 1
pub record SwapPlanDraft : Type 0 where
  pub delivery_id : String
  pub mint : String
  pub unit : String
  pub expected_amount : ℕ
  pub input_proofs : List CashuProof
  pub proof_ys : List String

pub record Recovery : Type 0 where
  pub nut09 : Bool
  pub nut19_replay : Bool
  pub nut19_replay_until : Option Number

pub record ExactSwapPlan : Type 0 where
  pub draft : SwapPlanDraft
  pub open draft use *
  pub keyset_id : String
  pub input_fee_ppk : Number
  pub outputs : List SwapOutputPlan
  pub serialized_request : String
  pub prepared_at : Number
  pub recovery : Recovery

pub data DeliveryPhase : Type 0 where
  prepared mint_sent recovery_blocked outputs_persisted credited settled rejected : DeliveryPhase

pub record DeliveryRecord : Type 0 where
  pub request_id : String
  pub delivery_id : String
  pub payload_hash : String
  pub proof_set_hash : String
  pub proof_claim_ids : List String
  pub plan : ExactSwapPlan
  pub amount : ℕ
  pub redemption_starts : ℕ
  pub phase : DeliveryPhase
  pub receipt : DeliveryReceipt
  pub replacement_plan_hash : Option String
  pub replacement_proofs : Option (List String)

pub record MerchantCredit : Type 0 where
  pub credit_id : String
  pub request_id : String
  pub delivery_id : String
  pub amount : ℕ
  pub unit : String
  pub created_at : ℕ

pub record PrepareDelivery : Type 0 where
  pub command : AcceptDeliveryCommand
  pub proof_set_hash : String
  pub proof_claim_ids : List String
  pub proof_ys : List String
  pub net_amount : ℕ
  pub plan : ExactSwapPlan
  pub now : Number

pub data PrepareResult : Type 0 where
  prepared : DeliveryRecord → PrepareResult
  duplicate : DeliveryRecord → PrepareResult

pub record CommitSettlement : Type 0 where
  pub delivery_id : String
  pub replacement_plan_hash : String
  pub replacement_proofs : List String
  pub now : Number
