-- ===== src/Doctor/Types.antt =====
-- packages/wallet-doctor-core/src: types.ts, and the plan of plan.ts. Amounts, times and kinds are
-- natural numbers.
use cashu_fault_lab.Common.{ℕ, String, Bool, Option, List, Map}

pub record ProofView : Type 0 where
  pub keyset_id : String
  pub amount : ℕ
  pub y : String

pub record TokenEventView : Type 0 where
  pub event_id : String
  pub created_at : ℕ
  pub mint : String
  pub unit : String
  pub proofs : List ProofView
  pub del : List String
  pub seen_on : List String

pub record Rollover : Type 0 where
  pub rollover_id : String
  pub mint : String
  pub unit : String
  pub covered_ys : List String
  pub del : List String
  pub to_relays : List String

pub data RepairStep : Type 0 where
  republish_event : String → List String → RepairStep
  publish_rollover : Rollover → RepairStep
  delete_events : List String → List String → RepairStep
  republish_wallet_event : String → List String → RepairStep
  wallet_action : String → List String → RepairStep

-- a proof at its mint
pub record MintProof : Type 0 where
  pub mint : String
  pub proof : ProofView

-- `proofs_by_y` is searched by the mint and the point, the two parts of the key.
pub record PlanState : Type 0 where
  pub live_tokens : Map TokenEventView
  pub proofs_by_y : List MintProof

pub record WalletEventView : Type 0 where
  pub event_id : String
  pub created_at : ℕ
  pub mints : List String
  pub has_p2pk_key : Bool
  pub seen_on : List String

pub record DeletionView : Type 0 where
  pub event_id : String
  pub created_at : ℕ
  pub targets : List String
  pub kinds : List ℕ
  pub seen_on : List String

pub data Direction : Type 0 where
  inward outward : Direction

pub record HistoryEventView : Type 0 where
  pub event_id : String
  pub created_at : ℕ
  pub direction : Option Direction
  pub amount : Option ℕ
  pub unit : Option String
  pub created : List String
  pub destroyed : List String
  pub redeemed : List String
  pub seen_on : List String

pub record QuoteEventView : Type 0 where
  pub event_id : String
  pub created_at : ℕ
  pub expiration : Option ℕ
  pub mint : Option String
  pub seen_on : List String

pub data MalformedReason : Type 0 where
  decryption_failed invalid_payload invalid_signature wallet_without_mints : MalformedReason

pub record MalformedEventView : Type 0 where
  pub event_id : Option String
  pub kind : Option ℕ
  pub reason : MalformedReason
  pub seen_on : List String

pub data RelayStatus : Type 0 where
  ok error : RelayStatus

pub record RelayObservation : Type 0 where
  pub url : String
  pub status : RelayStatus
  pub error : Option String
  pub wallet : List WalletEventView
  pub tokens : List TokenEventView
  pub deletions : List DeletionView
  pub history : List HistoryEventView
  pub quotes : List QuoteEventView
  pub malformed : List MalformedEventView

pub data ProofState : Type 0 where
  unspent spent pending : ProofState

pub record MintObservation : Type 0 where
  pub mint : String
  pub y : String
  pub state : ProofState

pub record DoctorObservation : Type 0 where
  pub subject : String
  pub relays : List RelayObservation
  pub mint : List MintObservation

pub record RepairPlan : Type 0 where
  pub subject : String
  pub capture_digest : String
  pub steps : List RepairStep
