-- ===== src/Tests/Sender.antt =====
-- A payment that the receiver rejects, a delay between attempts, and a payload read back.
use cashu_fault_lab.Common.{
  ◌*◌, min, ◌≤◌, ◌≡◌, ◌&&◌, refl, true, false, none, some, List, [], ◌∷◌, nat, ok, get, put, arith,
  here, any, Member, property, object, is_hash,
}
use cashu_fault_lab.Delivery.Codec.{Codec}
use cashu_fault_lab.Sender.Types.{
  SenderPorts, SenderPaymentRequest, TransportTarget, TransportResult, TransportType,
  SenderDeliveryRecord, SenderDeliveryStatus, ReservedProofSet, World, Act,
}
use cashu_fault_lab.Common.Tasks.{pure, throw, lift, and_then, or_catch, ◌>>=◌, ◌>>◌, attempt}
use cashu_fault_lab.Delivery.Ids.{parse_protocol_id}
use cashu_fault_lab.Delivery.MintUrl.{canonical_path, normalize_mint_url}
use cashu_fault_lab.Delivery.Amount.{
  nonnegative_safe, fee_ppk, add_safe, sum_ppk, round_up, compute_input_fee, sum_amounts,
  compute_net_amount, assert_exact_requested_amount,
}
use cashu_fault_lab.Delivery.Receipt.{
  DeliveryReceipt, rejected, has_valid_detail_code, same_identity, same_receipt, rejects_blocked,
  has_valid_fields, check_transition, choose_observed, check_names, assert_valid_receipt,
  assert_receipt_transition, merge_observed_receipt,
}
use cashu_fault_lab.Delivery.Receipt.Wire.{
  as_record, as_string, as_natural, parse_status, status_name, candidate, wire,
  parse_delivery_receipt, serialize_delivery_receipt,
}
use cashu_fault_lab.Delivery.Payload.{
  DeliveryPayload, max_payload_bytes, clock_skew_seconds, elements, fields_of, fields_of_all,
  objects, has_only_keys, as_object, as_text, as_time, as_time_value, as_memo, as_proofs, is_one,
  check_times, payload_keys, metadata_keys, read_payload, fingerprint_input, payload_of,
  payload_wire, build_payload, parse_delivery_payload, serialize_delivery_payload,
  parse_delivery_payload_json,
}
use cashu_fault_lab.Delivery.Fingerprint.{
  is_json, is_json_items, is_json_fields, is_text, is_amount, if_present, is_string,
  is_plain_record, has_proof_fields, is_cashu_proof, max_proofs, max_window, is_payload_input,
  to_items, payload_fingerprint, encode_payload_fingerprint, compute_payload_hash,
}
use cashu_fault_lab.Sender.Retry.{
  retry_delay-Bounds, word, power_of_two, max_delay, retry_delay, check_seed,
}
use cashu_fault_lab.Sender.State.{
  has_valid_attempt, are_valid_diagnostics, write, create_record, save_record, find,
}
use cashu_fault_lab.Sender.Send.{
  target_at, begun_attempt, with_status, use_port, read, mark_settled, release_rejected,
  mark_recovery_required, dispatch, pause, finish, try_again, conclude, is_final_status,
  is_finished, try_once, attempts_from, run_attempts, mark_and_throw, mark_recovery_after,
  reserve_exact, prepare_record, send_locked, send_payment, resume_record, resume_found,
  resume_payment,
}
use cashu_fault_lab.Sender.Send.Build.{
  SendPaymentOptions, validate_max_attempts, payload_for, hash_input, first_record, build_record,
  later_than, valid_now, first_target, reservation,
}
use cashu_fault_lab.Sender.Send.Judge.{
  is_number, has_identity, drop, last, append_diagnostic, verdict, judge_merged, judge_receipt,
  judge,
}
use cashu_fault_lab.Sender.Safety.Runs.{
  Operation, send, perform_all-released, perform_all-exclusive, perform_all-Sound, is_release,
  is_settlement, perform, perform_all,
}
use cashu_fault_lab.Sender.Safety.Sends.{run_attempts-Spent, Spent, sends}
use cashu_fault_lab.Sender.Safety.Pending.{is_mark}
use cashu_fault_lab.Sender.Safety.Reserved.{send_locked-Told}
use cashu_fault_lab.Delivery.Payload.RoundTrip.{parse_delivery_payload_json-serialize}
use cashu_fault_lab.Tests.Samples.{platform, id, hash, mint, proof, command}

abbrev payload : DeliveryPayload
payload = command.payload

abbrev codec : Codec
codec = record {
  encode_cbor = λ _. [];
  encode_points = λ _ _ _ _. [];
  sha256_hex = λ _. hash;
  stringify_json = λ _. 123 ∷ [];
  parse_json = λ _. some (payload_wire payload);
  convert_key = λ _. none;
}

abbrev refusal : DeliveryReceipt
refusal = record {
  profile = "cashu-delivery-v1";
  request_id = id;
  delivery_id = id;
  payload_hash = hash;
  status = rejected;
  status_version = 2;
  mint = mint;
  unit = "sat";
  amount = 8;
  detail_code = "expired";
}

abbrev target : TransportTarget
target = record { kind = TransportType.post; target = "https://shop.example"; tags = none }

abbrev invoice : SenderPaymentRequest
invoice = record {
  id = id;
  amount = nat 8;
  unit = "sat";
  mints = mint ∷ [];
  expires_at = nat 1000;
  transports = target ∷ [];
}

abbrev set : ReservedProofSet
set = record { mint = mint; unit = "sat"; net_amount = nat 8; proofs = proof ∷ [] }

abbrev ports : SenderPorts
ports = record {
  now = λ _. nat 500;
  generate_delivery_id = λ _. id;
  reserve_exact = λ _ _. ok set;
  mark_settled = λ _ _. ok tt;
  release_rejected = λ _ _. ok tt;
  mark_recovery_required = λ _ _. ok tt;
  send = λ _ _ _. ok (TransportResult.receipt (object (wire refusal)));
  digest = λ _ _. 1000;
}

abbrev options : SendPaymentOptions
options = record { seed = "seed"; max_attempts = some (nat 2); memo = none }

abbrev payments : List Operation
payments = send ports invoice options ∷ []

abbrev stored : SenderDeliveryRecord
stored = record {
  delivery_id = id;
  request = invoice;
  payload = payload;
  payload_bytes = 123 ∷ [];
  payload_hash = hash;
  target = target;
  status = SenderDeliveryStatus.rejected;
  attempts = 1;
  receipt = some refusal;
  diagnostics = [];
}

-- One declaration opens what these runs call.
runs :
    Member (Act.released id) (perform_all platform codec payments).acts
    × (get (perform_all platform codec payments).records id ≡ some stored)
    × (normalize_mint_url platform mint ≡ ok mint)
    × (serialize_delivery_payload platform codec payload ≡ ok (123 ∷ []))
unfolding pure throw lift and_then or_catch ◌>>=◌ ◌>>◌ attempt parse_protocol_id canonical_path
    normalize_mint_url nonnegative_safe fee_ppk add_safe sum_ppk round_up compute_input_fee
    sum_amounts compute_net_amount assert_exact_requested_amount has_valid_detail_code same_identity
    same_receipt rejects_blocked has_valid_fields check_transition choose_observed check_names
    assert_valid_receipt assert_receipt_transition merge_observed_receipt as_record as_string
    as_natural parse_status status_name candidate wire parse_delivery_receipt
    serialize_delivery_receipt max_payload_bytes clock_skew_seconds elements fields_of fields_of_all
    objects has_only_keys as_object as_text as_time as_time_value as_memo as_proofs is_one
    check_times payload_keys metadata_keys read_payload fingerprint_input payload_of payload_wire
    build_payload parse_delivery_payload serialize_delivery_payload parse_delivery_payload_json
    is_text is_amount if_present is_string is_plain_record has_proof_fields is_cashu_proof
    max_proofs max_window is_payload_input to_items payload_fingerprint encode_payload_fingerprint
    compute_payload_hash word power_of_two max_delay retry_delay check_seed has_valid_attempt
    are_valid_diagnostics write create_record save_record find target_at begun_attempt with_status
    use_port read mark_settled release_rejected mark_recovery_required dispatch pause finish
    try_again conclude is_final_status is_finished try_once attempts_from run_attempts
    mark_and_throw mark_recovery_after reserve_exact prepare_record send_locked send_payment
    resume_record resume_found resume_payment validate_max_attempts payload_for hash_input
    first_record build_record later_than valid_now first_target reservation is_number has_identity
    drop last append_diagnostic verdict judge_merged judge_receipt judge is_release is_settlement
    perform perform_all sends is_mark get put property is_hash is_json is_json_items is_json_fields
runs = (here, refl, refl, refl)

perform_all-released_example :
    (r : SenderDeliveryRecord) × (receipt : DeliveryReceipt) × (get
        (perform_all platform codec payments).records
        id
      ≡ some r)
    × (r.receipt ≡ some receipt)
    × (receipt.status ≡ rejected)
    × (has_identity r receipt ≡ true)
perform_all-released_example = perform_all-released platform codec payments id runs.0

perform_all-exclusive_example :
    (any (is_release id) (perform_all platform codec payments).acts
      && any (is_settlement id) (perform_all platform codec payments).acts)
    ≡ false
perform_all-exclusive_example = perform_all-exclusive platform codec payments id

perform_all-Sound_example :
    (stored.delivery_id ≡ id) × (has_identity stored refusal ≡ true) × (rejected ≡ rejected)
perform_all-Sound_example = perform_all-Sound platform codec payments id stored runs.1

abbrev empty : World
empty = record { records = []; acts = []; answers = 0 }

two_allowed : validate_max_attempts options.max_attempts ≡ ok 2
unfolding validate_max_attempts
two_allowed = refl

run_attempts-Spent_example :
    (2 ≤ 100) × Spent [] id (123 ∷ []) 2 (run_attempts platform ports stored options empty).1
run_attempts-Spent_example = run_attempts-Spent platform ports stored options 2 empty two_allowed

none_stored : get empty.records id ≡ none
unfolding get
none_stored = refl

send_locked-Told_example :
    any
      (is_mark id)
      (send_locked platform codec ports invoice options target 500 1000 id empty).1.acts
    ≡ true
send_locked-Told_example =
    send_locked-Told platform codec ports id invoice options target 500 1000 empty set none_stored
      refl

half : retry_delay 3 2147483648 250 30000 ≡ ok 1000
unfolding retry_delay max_delay power_of_two word
half = refl

retry_delay-Bounds_example : (1000 ≤ 30000) × (1000 ≤ 250 * power_of_two (min 3 30))
retry_delay-Bounds_example = retry_delay-Bounds 3 2147483648 250 30000 1000 half

parse_delivery_payload_json-serialize_example :
    parse_delivery_payload_json platform codec (123 ∷ []) (nat 500) ≡ ok payload
parse_delivery_payload_json-serialize_example =
    parse_delivery_payload_json-serialize platform codec payload (123 ∷ []) 500 (λ _. refl) runs.2
      refl (omega arith) (omega arith) runs.3
