-- ===== src/Receiver/Recovery/Ports.antt =====
-- apps/reference-receiver/src/ports: the mint and the proof verifier, with the clock. Their code is
-- outside the domain, so they are parameters; each may answer every call differently, so it is given
-- how many answers there were before.
use cashu_fault_lab.Common.{ℕ, String, List, Number, Result}
use cashu_fault_lab.Delivery.Payload.{DeliveryPayload}
use cashu_fault_lab.Receiver.Types.{Thrown, SwapPlanDraft, ExactSwapPlan}

pub record SwapResult : Type 0 where
  pub replacement_plan_hash : String
  pub replacement_proofs : List String

pub data RestoreResult : Type 0 where
  recovered : SwapResult → RestoreResult
  not_found : RestoreResult

pub data MintProofState : Type 0 where
  unspent pending spent unknown : MintProofState

pub record InspectProofsResult : Type 0 where
  pub ys : List String
  pub proof_claim_ids : List String
  pub proof_set_hash : String
  pub net_amount : ℕ

-- A request to the mint: it calls the hook `afterRequestDispatched` each time that it is
-- dispatched, and then returns or throws. A hook that throws ends it.
pub data Exchange {ℓ} (A : Type ℓ) : Type ℓ where
  dispatched : Exchange A → Exchange A
  answered : Result Thrown A → Exchange A

pub record Ports : Type 0 where
  pub now : ℕ → Number
  pub prepare_swap : ℕ → SwapPlanDraft → Result Thrown ExactSwapPlan
  pub swap : ℕ → ExactSwapPlan → Exchange SwapResult
  pub restore : ℕ → ExactSwapPlan → Exchange RestoreResult
  pub proof_states : ℕ → ExactSwapPlan → Result Thrown (List MintProofState)
  pub inspect : ℕ → DeliveryPayload → Result Thrown InspectProofsResult
