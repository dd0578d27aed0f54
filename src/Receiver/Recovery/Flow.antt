-- ===== src/Receiver/Recovery/Flow.antt =====
-- apps/reference-receiver/src/domain/accept-delivery.ts and recover-delivery.ts
use cashu_fault_lab.Common.{
  ℕ, String, true, false, Option, none, some, List, ◌∷◌, ◌==◌, length, is_hash, get, Number, ok,
}
use cashu_fault_lab.Delivery.Platform.{Platform}
use cashu_fault_lab.Delivery.Checkpoint.{
  Checkpoint, receiver_before_mint_request, receiver_after_mint_request_before_response,
  receiver_after_mint_response_before_output_persistence,
  receiver_after_output_persistence_before_merchant_credit,
  receiver_after_credit_before_receipt_persistence,
  receiver_after_receipt_persistence_before_response_or_outbox,
}
use cashu_fault_lab.Delivery.Receipt.{DeliveryReceipt}
use cashu_fault_lab.Receiver.Types.{
  invalid_state, request_mismatch, Thrown, domain, crash, gateway, AcceptDeliveryCommand,
  SwapPlanDraft, ExactSwapPlan, DeliveryPhase, settled, rejected, prepared, outputs_persisted,
  credited, DeliveryRecord, CommitSettlement, PrepareDelivery, PrepareResult,
}
use cashu_fault_lab.Receiver.Store.{Operation}
use cashu_fault_lab.Receiver.Store.Requests.{preflight}
use cashu_fault_lab.Receiver.Store.Prepare.{prepare}
use cashu_fault_lab.Receiver.Store.Settle.{
  mark_mint_sent, record_redemption_start, persist_settlement_outputs, credit_settlement,
  finalize_settlement, settle, block_recovery, reject,
}
use cashu_fault_lab.Receiver.Recovery.Ports.{
  RestoreResult, recovered, not_found, InspectProofsResult, Ports,
}
use cashu_fault_lab.Receiver.Recovery.Tasks.{
  Task, step, act, pure, throw, require, ◌>>=◌, ◌>>◌, attempt, call, ask, asked, pass, exchange,
  with_redemption_lock,
}

unfoldable pub current : String → Operation (Option DeliveryRecord)
current id draft = ok (get draft.deliveries id, draft)

unfoldable pub create_plan_draft : AcceptDeliveryCommand → List String → ℕ → SwapPlanDraft
create_plan_draft command ys net_amount = record {
  delivery_id = command.payload.delivery.id;
  mint = command.payload.mint;
  unit = command.payload.unit;
  expected_amount = net_amount;
  input_proofs = command.payload.proofs;
  proof_ys = ys;
}

unfoldable pub preparation :
    AcceptDeliveryCommand → InspectProofsResult → ExactSwapPlan → Number → PrepareDelivery
preparation command inspected plan now = record {
  command = command;
  proof_set_hash = inspected.proof_set_hash;
  proof_claim_ids = inspected.proof_claim_ids;
  proof_ys = inspected.ys;
  net_amount = inspected.net_amount;
  plan = plan;
  now = now;
}

-- the record that must be there
unfoldable pub existing : Option DeliveryRecord → Task DeliveryRecord
existing none = throw (domain invalid_state)
existing (some r) = pure r

-- mint.swap was called for the delivery
unfoldable pub note_swap : String → Task (Unit {0})
note_swap id = act (λ w. record w { swaps = id ∷ w.swaps }) (λ _. ok tt)

module _ (platform : Platform) (ports : Ports) where
  -- the settlement in steps, with a checkpoint between each two
  unfoldable pub settle_in_steps : CommitSettlement → Task DeliveryReceipt
  settle_in_steps input = do
    pass receiver_after_mint_response_before_output_persistence
    call (persist_settlement_outputs input)
    pass receiver_after_output_persistence_before_merchant_credit
    call (credit_settlement input.delivery_id input.now)
    pass receiver_after_credit_before_receipt_persistence
    receipt ← call (finalize_settlement platform input.delivery_id)
    pass receiver_after_receipt_persistence_before_response_or_outbox
    pure receipt

  unfoldable pub settle_from : Option Checkpoint → CommitSettlement → Task DeliveryReceipt
  settle_from none input = call (settle platform input)
  settle_from (some checkpoint) input = settle_in_steps input

  unfoldable pub settle_with_checkpoints : CommitSettlement → Task DeliveryReceipt
  settle_with_checkpoints input = step (λ w. w) (λ w. settle_from w.checkpoint input)

  -- settleWithCheckpoints({ deliveryId, …result, now: deps.now() }, deps), not awaited
  unfoldable pub settlement_of : String → String → List String → Task (Task DeliveryReceipt)
  settlement_of id plan_hash proofs = do
    now ← asked ports.now
    pure (
        settle_with_checkpoints (record {
          delivery_id = id;
          replacement_plan_hash = plan_hash;
          replacement_proofs = proofs;
          now = now;
        }))

  -- the hook of `swap`
  unfoldable pub swap_dispatched : String → Task (Unit {0})
  swap_dispatched id = do
    call (record_redemption_start id)
    pass receiver_after_mint_request_before_response

  unfoldable pub swap_failed : String → Thrown → Task DeliveryReceipt
  swap_failed id (gateway false) = call (reject platform id "mint_unavailable" true)
  swap_failed id e = throw e

  -- the `try` block, after the call of `mint.swap` is noted
  unfoldable pub swap_noted : String → ExactSwapPlan → Task (Task DeliveryReceipt)
  swap_noted id plan = do
    request ← asked (λ n. ports.swap n plan)
    swapped ← exchange (swap_dispatched id) request
    settlement_of id swapped.replacement_plan_hash swapped.replacement_proofs

  unfoldable pub swap_and_settle : String → ExactSwapPlan → Task DeliveryReceipt
  swap_and_settle id plan = attempt (note_swap id >> swap_noted id plan) (swap_failed id)

  unfoldable pub swap_recovered : String → ExactSwapPlan → Task (Task DeliveryReceipt)
  swap_recovered id plan = do receipt ← swap_and_settle id plan; pure (pure receipt)

  -- the branch of a delivery in phase `prepared`
  unfoldable pub redeem_prepared : String → DeliveryRecord → Task (Task DeliveryReceipt)
  redeem_prepared id r = do
    pass receiver_before_mint_request
    call (mark_mint_sent platform id)
    swap_recovered id r.plan

  unfoldable pub resume_persisted : String → DeliveryRecord → Task (Task DeliveryReceipt)
  resume_persisted id r = elim r.replacement_plan_hash [
    | none ↦ throw (domain invalid_state)
    | some plan_hash ↦ elim r.replacement_proofs [
      | none ↦ throw (domain invalid_state)
      | some proofs ↦ settlement_of id plan_hash proofs
    ]
  ]

  unfoldable pub resume_credited : String → Task (Task DeliveryReceipt)
  resume_credited id = do
    pass receiver_after_credit_before_receipt_persistence
    receipt ← call (finalize_settlement platform id)
    pass receiver_after_receipt_persistence_before_response_or_outbox
    pure (pure receipt)

  -- never redispatches: without restored outputs the delivery waits for an operator
  unfoldable pub block_unrestored : String → DeliveryRecord → Task (Task DeliveryReceipt)
  block_unrestored id r = do
    states ← ask (λ n. ports.proof_states n r.plan)
    require (length states == length r.plan.proof_ys) (domain invalid_state)
    pure (call (block_recovery platform id))

  unfoldable pub finish_restore :
      String → DeliveryRecord → RestoreResult → Task (Task DeliveryReceipt)
  finish_restore id r (recovered result) =
      settlement_of id result.replacement_plan_hash result.replacement_proofs
  finish_restore id r not_found = block_unrestored id r

  unfoldable pub restore_ambiguous : String → DeliveryRecord → Task (Task DeliveryReceipt)
  restore_ambiguous id r = do
    request ← asked (λ n. ports.restore n r.plan)
    restored ← exchange (call (record_redemption_start id)) request
    finish_restore id r restored

  -- the `try` block
  unfoldable pub redeem : DeliveryPhase → String → DeliveryRecord → Task (Task DeliveryReceipt)
  redeem prepared id r = redeem_prepared id r
  redeem outputs_persisted id r = resume_persisted id r
  redeem credited id r = resume_credited id
  redeem _ id r = restore_ambiguous id r

  -- the `catch` block
  unfoldable pub redeem_failed : String → Thrown → Task DeliveryReceipt
  redeem_failed id (domain code) = throw (domain code)
  redeem_failed id (crash boundary) = throw (crash boundary)
  redeem_failed id e = call (block_recovery platform id)

  unfoldable pub recover_record : DeliveryPhase → String → DeliveryRecord → Task DeliveryReceipt
  recover_record settled id r = pure r.receipt
  recover_record rejected id r = pure r.receipt
  recover_record phase id r = attempt (redeem phase id r) (redeem_failed id)

  unfoldable pub recover_locked_delivery : String → Task DeliveryReceipt
  recover_locked_delivery id = do
    found ← call (current id)
    r ← existing found
    recover_record r.phase id r

  -- what follows where another task holds the lock
  unfoldable pub recovered_or_current : String → Option DeliveryReceipt → Task DeliveryReceipt
  recovered_or_current id (some receipt) = pure receipt
  recovered_or_current id none = do found ← call (current id); r ← existing found; pure r.receipt

  unfoldable pub recover_delivery : String → Task DeliveryReceipt
  recover_delivery id = do
    recovery ← with_redemption_lock id (recover_locked_delivery id)
    recovered_or_current id recovery

  unfoldable pub resume_previous :
      DeliveryPhase → AcceptDeliveryCommand → DeliveryRecord → Task DeliveryReceipt
  resume_previous settled command previous = pure previous.receipt
  resume_previous rejected command previous = pure previous.receipt
  resume_previous _ command previous = recover_delivery command.payload.delivery.id

  unfoldable pub redeem_new : AcceptDeliveryCommand → PrepareResult → Task DeliveryReceipt
  redeem_new command (PrepareResult.duplicate r) = pure r.receipt
  redeem_new command (PrepareResult.prepared r) = recover_delivery command.payload.delivery.id

  unfoldable pub accept_new : AcceptDeliveryCommand → Task DeliveryReceipt
  accept_new command = do
    inspected ← ask (λ n. ports.inspect n command.payload)
    plan ←
        ask
          (λ n. ports.prepare_swap n (create_plan_draft command inspected.ys inspected.net_amount))
    now ← asked ports.now
    result ← call (prepare platform (preparation command inspected plan now))
    redeem_new command result

  unfoldable pub accept_known : AcceptDeliveryCommand → Option DeliveryRecord → Task DeliveryReceipt
  accept_known command (some previous) = resume_previous previous.phase command previous
  accept_known command none = accept_new command

  unfoldable pub accept_delivery : AcceptDeliveryCommand → Task DeliveryReceipt
  accept_delivery command = do
    require (is_hash command.payload_hash) (domain request_mismatch)
    now ← asked ports.now
    previous ← call (preflight command now)
    accept_known command previous
