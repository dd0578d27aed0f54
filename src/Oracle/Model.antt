-- ===== src/Oracle/Model.antt =====
-- packages/oracle/src/model.ts. A version or an amount is a natural number: observations with
-- other numbers are outside the model.
use cashu_fault_lab.Common.{ℕ, String, Bool, Option, List, [], Map}

pub data OracleTransport : Type 0 where
  http nostr : OracleTransport

pub data MintProofState : Type 0 where
  unspent pending spent : MintProofState

pub data OracleReceiptStatus : Type 0 where
  processing settled rejected : OracleReceiptStatus

pub record OracleRequest : Type 0 where
  pub request_id : String
  pub single_use : Bool

pub record OracleDelivery : Type 0 where
  pub request_id : String
  pub delivery_id : String
  pub payload_hash : String
  pub proof_set_hash : String
  pub transports : List OracleTransport
  pub replacement_plan_hash : Option String

pub record OracleCredit : Type 0 where
  pub credit_id : String
  pub request_id : String
  pub delivery_id : String
  pub amount : ℕ
  pub unit : String

pub record OracleReceipt : Type 0 where
  pub request_id : String
  pub delivery_id : String
  pub payload_hash : String
  pub status : OracleReceiptStatus
  pub detail_code : String
  pub version : ℕ
  pub amount : ℕ
  pub unit : String

-- what a delivery cannot change, DeliveryIdentity of invariants.ts
pub record DeliveryIdentity : Type 0 where
  pub request_id : String
  pub payload_hash : String
  pub proof_set_hash : String

pub data Observation : Type 0 where
  request_observed : OracleRequest → Observation
  delivery_attempted : String → DeliveryIdentity → OracleTransport → Observation
  mint_proofs_state : String → MintProofState → Observation
  redemption_started : String → String → Observation
  receiver_settled : String → String → Observation
  merchant_credited : OracleCredit → Observation
  receipt_observed : OracleReceipt → Observation

pub record OracleModel : Type 0 where
  pub requests : Map OracleRequest
  pub deliveries : Map OracleDelivery
  pub proof_owners : Map String
  pub proof_states : Map MintProofState
  pub credits : Map OracleCredit
  pub receipts : Map OracleReceipt
  pub observations : List Observation

unfoldable pub empty_oracle_model : OracleModel
empty_oracle_model = record {
  requests = [];
  deliveries = [];
  proof_owners = [];
  proof_states = [];
  credits = [];
  receipts = [];
  observations = [];
}
