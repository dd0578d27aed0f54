-- ===== src/Tests/Receiver.antt =====
-- A payment that goes through the receiver's store, and the store's promises about it.
use cashu_fault_lab.Common.{
  String, ◌≡◌, refl, ◌⊎◌, true, List, [], ◌∷◌, some, get, put, here, unique, sort, is_hash,
}
use cashu_fault_lab.Delivery.Ids.{parse_protocol_id}
use cashu_fault_lab.Delivery.MintUrl.{normalize_mint_url}
use cashu_fault_lab.Delivery.Receipt.{
  has_valid_detail_code, has_valid_fields, check_names, assert_valid_receipt, rejects_blocked,
  same_identity, same_receipt, check_transition, assert_receipt_transition, settled,
}
use cashu_fault_lab.Delivery.Receipt.Observed.{Later}
use cashu_fault_lab.Receiver.Types.{
  DeliveryPhase, DeliveryRecord, PaymentRequestRecord, MerchantCredit,
}
use cashu_fault_lab.Receiver.Binding.{
  assert_safe_integer, validate_request_binding, same_request, next_receipt,
}
use cashu_fault_lab.Receiver.Store.{transaction, require_delivery}
use cashu_fault_lab.Receiver.Store.Requests.{
  create_request, request_record, bind_request, require_request, taken_by_other,
}
use cashu_fault_lab.Receiver.Store.Prepare.{
  prepare, prepare_new, has_evidence, claim_all, first_receipt, new_record, insert_record,
}
use cashu_fault_lab.Receiver.Store.Settle.{
  mark_mint_sent, record_redemption_start, settle, save, has_outputs, has_other_plan_hash,
  credit_of, bind_credit,
}
use cashu_fault_lab.Receiver.Safety.{is_paid}
use cashu_fault_lab.Receiver.Safety.Runs.{Call, call_block, call_reject, run}
use cashu_fault_lab.Receiver.Safety.Promises.{
  reached, proofs_exclusive, credit_covered, single_use_credited_once, final_for_good,
  receipts_move_on,
}
use cashu_fault_lab.Tests.Samples.{platform, id, hash, mint, payment, accepted, plan}

store : Unit {0}
unfolding has_valid_detail_code has_valid_fields check_names assert_valid_receipt rejects_blocked
    same_identity same_receipt check_transition assert_receipt_transition parse_protocol_id
    normalize_mint_url is_hash assert_safe_integer validate_request_binding same_request
    next_receipt transaction require_delivery create_request request_record bind_request
    require_request taken_by_other prepare prepare_new has_evidence claim_all first_receipt
    new_record insert_record mark_mint_sent record_redemption_start settle save has_outputs
    has_other_plan_hash credit_of bind_credit run reached unique sort get put
store = tt

abbrev settled_record : DeliveryRecord
settled_record = record {
  request_id = id;
  delivery_id = id;
  payload_hash = hash;
  proof_set_hash = "set";
  proof_claim_ids = "claim" ∷ [];
  plan = plan;
  amount = 8;
  redemption_starts = 1;
  phase = DeliveryPhase.settled;
  receipt = record accepted { status = settled; status_version = 3; detail_code = "settled" };
  replacement_plan_hash = some "plan";
  replacement_proofs = some ("p" ∷ []);
}

abbrev credit : MerchantCredit
credit = record {
  credit_id = id;
  request_id = id;
  delivery_id = id;
  amount = 8;
  unit = "sat";
  created_at = 601;
}

abbrev kept_request : PaymentRequestRecord
kept_request = record {
  id = id;
  amount = 8;
  unit = "sat";
  mints = mint ∷ [];
  single_use = true;
  expires_at = 1000;
}

payment_settles : get (reached platform payment).deliveries id ≡ some settled_record
unfolding store
payment_settles = refl

payment_credits : get (reached platform payment).credits id ≡ some credit
unfolding store
payment_credits = refl

payment_request : get (reached platform payment).requests id ≡ some kept_request
unfolding store
payment_request = refl

proofs_exclusive_example : ◌≡◌ {A = String} id id
proofs_exclusive_example =
    proofs_exclusive platform payment id id "claim" settled_record settled_record payment_settles
      payment_settles (λ e. cc) (λ e. cc) here here

credit_covered_example :
    (x : DeliveryRecord) × (get (reached platform payment).deliveries id ≡ some x)
    × (is_paid x.phase ≡ true)
    × ((q : PaymentRequestRecord) × (get (reached platform payment).requests id ≡ some q)
        × (8 ≡ q.amount)
        × (id ≡ x.request_id)
        × (◌≡◌ {A = String} id id))
credit_covered_example = credit_covered platform payment id credit payment_credits

single_use_credited_once_example : ◌≡◌ {A = String} id id
single_use_credited_once_example =
    single_use_credited_once platform payment id id credit credit kept_request payment_credits
      payment_credits refl payment_request refl

-- a recovery that comes late and an attempt to reject
abbrev late : List Call
late = call_block id ∷ call_reject id "expired" true ∷ []

final_for_good_example :
    (y : DeliveryRecord) × (get (run platform late (reached platform payment)).deliveries id
      ≡ some y)
    × (y.phase ≡ DeliveryPhase.settled)
    × (y.receipt ≡ settled_record.receipt)
    × (get (run platform late (reached platform payment)).credits id
        ≡ get (reached platform payment).credits id)
final_for_good_example = final_for_good platform payment late id settled_record payment_settles refl

receipts_move_on_example :
    (y : DeliveryRecord) × (get (run platform late (reached platform payment)).deliveries id
      ≡ some y)
    × ((settled_record.receipt ≡ y.receipt) ⊎ Later settled_record.receipt y.receipt)
receipts_move_on_example = receipts_move_on platform payment late id settled_record payment_settles
