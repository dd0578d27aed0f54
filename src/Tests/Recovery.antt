-- ===== src/Tests/Recovery.antt =====
-- A delivery whose swap is interrupted, and that is settled from restored outputs after a restart.
use cashu_fault_lab.Common.{
  ℕ, zero, suc, ◌≤◌, ◌≡◌, refl, true, none, some, List, [], ◌∷◌, nat, ok, err, get, put, unique,
  sort, is_hash,
}
use cashu_fault_lab.Delivery.Ids.{parse_protocol_id}
use cashu_fault_lab.Delivery.MintUrl.{normalize_mint_url}
use cashu_fault_lab.Delivery.Checkpoint.{hit}
use cashu_fault_lab.Delivery.Receipt.{
  has_valid_detail_code, has_valid_fields, check_names, assert_valid_receipt, rejects_blocked,
  same_identity, same_receipt, check_transition, assert_receipt_transition,
}
use cashu_fault_lab.Receiver.Types.{gateway, MerchantCredit}
use cashu_fault_lab.Receiver.Binding.{
  assert_safe_integer, validate_request_binding, same_request, is_same_delivery_binding,
  same_delivery, next_receipt,
}
use cashu_fault_lab.Receiver.Store.{transaction, require_delivery}
use cashu_fault_lab.Receiver.Store.Requests.{
  create_request, request_record, bind_request, require_request, taken_by_other, preflight,
}
use cashu_fault_lab.Receiver.Store.Prepare.{
  prepare, prepare_new, has_evidence, claim_all, first_receipt, new_record, insert_record,
}
use cashu_fault_lab.Receiver.Store.Settle.{
  mark_mint_sent, record_redemption_start, settle, save, has_outputs, has_other_plan_hash,
  credit_of, bind_credit, redemption_cap, block_recovery,
}
use cashu_fault_lab.Receiver.Safety.Runs.{call_create, perform}
use cashu_fault_lab.Receiver.Recovery.Ports.{Ports, dispatched, answered, recovered}
use cashu_fault_lab.Receiver.Recovery.Tasks.{
  pure, throw, act, and_then, ◌>>=◌, ◌>>◌, require, attempt, call, ask, asked, pass_at, pass,
  exchange, unlock, acquired, release_lock, lock, locked, with_redemption_lock,
}
use cashu_fault_lab.Receiver.Recovery.Flow.{
  current, create_plan_draft, preparation, existing, note_swap, settle_from,
  settle_with_checkpoints, settlement_of, swap_dispatched, swap_failed, swap_noted, swap_and_settle,
  swap_recovered, redeem_prepared, block_unrestored, finish_restore, restore_ambiguous, redeem,
  redeem_failed, recover_record, recover_locked_delivery, recovered_or_current, recover_delivery,
  resume_previous, redeem_new, accept_new, accept_known, accept_delivery,
}
use cashu_fault_lab.Receiver.Recovery.Dispatch.{
  Event, accept, recover, resume, store, restart, fresh, arrive, go_on, handle, serve,
  swap_called_once,
}
use cashu_fault_lab.Receiver.Recovery.Traces.{times}
use cashu_fault_lab.Tests.Samples.{platform, id, request, command, plan}

recovery : Unit {0}
unfolding has_valid_detail_code has_valid_fields check_names assert_valid_receipt rejects_blocked
    same_identity same_receipt check_transition assert_receipt_transition parse_protocol_id
    normalize_mint_url is_hash assert_safe_integer validate_request_binding same_request
    is_same_delivery_binding same_delivery next_receipt transaction require_delivery create_request
    request_record bind_request require_request taken_by_other preflight prepare prepare_new
    has_evidence claim_all first_receipt new_record insert_record mark_mint_sent
    record_redemption_start settle save has_outputs has_other_plan_hash credit_of bind_credit
    redemption_cap block_recovery perform unique sort get put hit pure throw act and_then ◌>>=◌ ◌>>◌
    require attempt call ask asked pass_at pass exchange unlock acquired release_lock lock locked
    with_redemption_lock current create_plan_draft preparation existing note_swap settle_from
    settle_with_checkpoints settlement_of swap_dispatched swap_failed swap_noted swap_and_settle
    swap_recovered redeem_prepared block_unrestored finish_restore restore_ambiguous redeem
    redeem_failed recover_record recover_locked_delivery recovered_or_current recover_delivery
    resume_previous redeem_new accept_new accept_known accept_delivery arrive go_on handle serve
    times
recovery = tt

-- a mint that loses the answer to the swap and restores its outputs later
abbrev ports : Ports
ports = record {
  now = λ _. nat 600;
  prepare_swap = λ _ _. ok plan;
  swap = λ _ _. dispatched (answered (err (gateway true)));
  restore = λ _ _. dispatched (
      answered (
        ok (recovered (record { replacement_plan_hash = "plan"; replacement_proofs = "p" ∷ [] }))));
  proof_states = λ _ _. ok [];
  inspect = λ _ _. ok (record {
    ys = "y" ∷ [];
    proof_claim_ids = "claim" ∷ [];
    proof_set_hash = "set";
    net_amount = 8;
  });
}

-- one of the requests goes on by so many pieces
abbrev run_on : ℕ → ℕ → List Event → List Event
run_on zero n es = es
run_on (suc k) n es = resume n ∷ run_on k n es

-- A recovery that arrives while another request holds the lock and has found the delivery prepared.
abbrev together : List Event
together =
    store (call_create request)
    ∷ accept 0 command
    ∷ run_on 8 0 (recover 1 id ∷ run_on 20 1 (run_on 20 0 []))

-- The process is restarted right after it has sent the swap, and recovers the delivery.
abbrev events : List Event
events =
    store (call_create request)
    ∷ accept 0 command
    ∷ run_on 14 0 (restart none [] ∷ recover 0 id ∷ accept 1 command ∷ run_on 20 0 (run_on 20 1 []))

abbrev credit : MerchantCredit
credit = record {
  credit_id = id;
  request_id = id;
  delivery_id = id;
  amount = 8;
  unit = "sat";
  created_at = 600;
}

together_once : times id (serve platform ports together fresh).world.swaps ≡ 1
unfolding recovery
together_once = refl

recovered_once : times id (serve platform ports events fresh).world.swaps ≡ 1
unfolding recovery
recovered_once = refl

recovered_credit : get (serve platform ports events fresh).world.state.credits id ≡ some credit
unfolding recovery
recovered_credit = refl

swap_called_once_example : times id (serve platform ports together fresh).world.swaps ≤ 1
swap_called_once_example = swap_called_once platform ports together id
