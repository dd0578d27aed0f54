-- ===== src/Sender/Types.antt =====
-- apps/reference-sender/src: the types of state.ts, send-payment.ts and ports/.
use cashu_fault_lab.Common.{ℕ, String, Bool, Option, List, Number, Value, Result, Map}
use cashu_fault_lab.Delivery.Errors.{DeliveryErrorCode}
use cashu_fault_lab.Delivery.Payload.{DeliveryPayload}
use cashu_fault_lab.Delivery.Fingerprint.{CashuProof}
use cashu_fault_lab.Delivery.Receipt.{DeliveryReceipt}

pub data TransportType : Type 0 where
  post nostr : TransportType

pub record TransportTarget : Type 0 where
  pub kind : TransportType
  pub target : String
  pub tags : Option (List (List String))

pub data TransportResult : Type 0 where
  receipt : Value → TransportResult
  no_response : TransportResult
  permanent_failure : Number → String → TransportResult

pub record SenderPaymentRequest : Type 0 where
  pub id : String
  pub amount : Number
  pub unit : String
  pub mints : List String
  pub expires_at : Number
  pub transports : List TransportTarget

pub data SenderDeliveryStatus : Type 0 where
  sending settled rejected recovery_required : SenderDeliveryStatus

pub data SenderAttemptStage : Type 0 where
  transport receipt_validation : SenderAttemptStage

pub data SenderAttemptCode : Type 0 where
  transport_failure permanent_failure invalid_receipt : SenderAttemptCode
  receipt_identity_conflict receipt_transition_conflict : SenderAttemptCode

pub record SenderAttemptDiagnostic : Type 0 where
  pub attempt : ℕ
  pub transport : TransportType
  pub stage : SenderAttemptStage
  pub code : SenderAttemptCode
  pub retryable : Bool

pub record SenderDeliveryRecord : Type 0 where
  pub delivery_id : String
  pub request : SenderPaymentRequest
  pub payload : DeliveryPayload
  pub payload_bytes : List ℕ
  pub payload_hash : String
  pub target : TransportTarget
  pub status : SenderDeliveryStatus
  pub attempts : ℕ
  pub receipt : Option DeliveryReceipt
  pub diagnostics : List SenderAttemptDiagnostic

pub record ReservePayment : Type 0 where
  pub delivery_id : String
  pub amount : Number
  pub unit : String
  pub mints : List String

pub record ReservedProofSet : Type 0 where
  pub mint : String
  pub unit : String
  pub net_amount : Number
  pub proofs : List CashuProof

pub data SendPaymentOutcome : Type 0 where
  paid : String → DeliveryReceipt → SendPaymentOutcome
  refused : String → DeliveryReceipt → SendPaymentOutcome
  unresolved : String → Option DeliveryReceipt → SendPaymentOutcome

-- What the sender throws: an error of delivery-core, one of its own, one of the wallet or the
-- transport, or an AggregateError of two.
pub data SendError : Type 0 where
  validation : DeliveryErrorCode → SendError
  invalid foreign : SendError
  aggregate : SendError → SendError → SendError

-- The wallet, the transport, the clock and the source of IDs. Each may answer every call differently,
-- so it is given how many answers there were before. `digest` is the first word of the SHA-256 of a
-- seed and a counter.
pub record SenderPorts : Type 0 where
  pub now : ℕ → Number
  pub generate_delivery_id : ℕ → String
  pub reserve_exact : ℕ → ReservePayment → Result SendError ReservedProofSet
  pub mark_settled : ℕ → String → Result SendError (Unit {0})
  pub release_rejected : ℕ → String → Result SendError (Unit {0})
  pub mark_recovery_required : ℕ → String → Result SendError (Unit {0})
  pub send : ℕ → List ℕ → TransportTarget → Result SendError TransportResult
  pub digest : String → ℕ → ℕ

-- what the sender has asked of its wallet, its transport and its timer, for which delivery
pub data Act : Type 0 where
  reserved marked_settled released marked_recovery : String → Act
  sent : String → List ℕ → TransportTarget → Act
  slept : ℕ → Act

-- The records, the calls of the ports so far, latest first, and their number.
pub record World : Type 0 where
  pub records : Map SenderDeliveryRecord
  pub acts : List Act
  pub answers : ℕ
