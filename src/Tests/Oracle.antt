-- ===== src/Tests/Oracle.antt =====
-- A run with a single-use request that is delivered twice, settled and credited.
use cashu_fault_lab.Common.{
  String, ◌≡◌, refl, true, [], ◌∷◌, ok, err, get, put, values, here, there,
}
use cashu_fault_lab.Oracle.Model.{
  OracleModel, OracleRequest, OracleCredit, OracleReceipt, DeliveryIdentity, request_observed,
  delivery_attempted, mint_proofs_state, redemption_started, receiver_settled, merchant_credited,
  receipt_observed, http, nostr, spent, settled, empty_oracle_model,
}
use cashu_fault_lab.Oracle.Commands.{
  transport_eq, with_transport, put_new, new_delivery, attempt_delivery, with_plan, settle_delivery,
  keep_receipt, apply_body, apply_observation,
}
use cashu_fault_lab.Oracle.Loop.{
  bool_eq, same_status, same_delivery, same_credit, same_receipt, add_to_set, or_empty,
  add_to_set_map, agrees, or_else, empty_ledger, find_version, note_version, starts, is_identified,
  may_consume, check_observation, check_all,
}
use cashu_fault_lab.Oracle.Invariants.{
  is_requested, is_fit_credit, check_delivery_credits, is_single_use, check_request_credits,
  put_version, unique_versions, first_by, is_older, is_newer, is_terminal_receipt, filter,
  is_of_identity, has_no_regression, is_paid_by, has_one_credit, may_be_consumed_by, check_latest,
  check_newest, check_history, check_receipts, is_net, has_net_credit, check_net_amount,
  check_ledger, assert_safety, later, latest_receipt, is_claimed, is_quiescent,
  assert_quiescent_liveness,
}
use cashu_fault_lab.Oracle.Invariants.Credits.{
  assert_safety-identity, assert_safety-owner, assert_safety-credit, assert_safety-single_use,
}

abbrev identity : DeliveryIdentity
identity = record { request_id = "request"; payload_hash = "payload"; proof_set_hash = "proofs" }

abbrev request : OracleRequest
request = record { request_id = "request"; single_use = true }

abbrev credit : OracleCredit
credit = record {
  credit_id = "credit";
  request_id = "request";
  delivery_id = "delivery";
  amount = 8;
  unit = "sat";
}

abbrev receipt : OracleReceipt
receipt = record {
  request_id = "request";
  delivery_id = "delivery";
  payload_hash = "payload";
  status = settled;
  detail_code = "settled";
  version = 3;
  amount = 8;
  unit = "sat";
}

abbrev model : OracleModel
model = record empty_oracle_model {
  observations =
      request_observed request
      ∷ delivery_attempted "delivery" identity http
      ∷ delivery_attempted "delivery" identity nostr
      ∷ redemption_started "delivery" "proofs"
      ∷ mint_proofs_state "proofs" spent
      ∷ receiver_settled "delivery" "plan"
      ∷ merchant_credited credit
      ∷ merchant_credited credit
      ∷ receipt_observed receipt
      ∷ [];
}

-- The oracle accepts the run, and does not take a delivery without a receipt for one at rest.
runs :
    (assert_safety model ≡ ok tt)
    × (assert_quiescent_liveness (
          apply_observation
            (apply_observation empty_oracle_model (delivery_attempted "delivery" identity http))
            (mint_proofs_state "proofs" spent))
        ≡ err tt)
unfolding bool_eq same_status same_delivery same_credit same_receipt add_to_set or_empty
    add_to_set_map agrees or_else empty_ledger find_version note_version starts is_identified
    may_consume check_observation check_all is_requested is_fit_credit check_delivery_credits
    is_single_use check_request_credits put_version unique_versions first_by is_older is_newer
    is_terminal_receipt filter is_of_identity has_no_regression is_paid_by has_one_credit
    may_be_consumed_by check_latest check_newest check_history check_receipts is_net has_net_credit
    check_net_amount check_ledger assert_safety later latest_receipt is_claimed is_quiescent
    assert_quiescent_liveness transport_eq with_transport put_new new_delivery attempt_delivery
    with_plan settle_delivery keep_receipt apply_body apply_observation empty_oracle_model get put
    values
runs = (refl, refl)

assert_safety-identity_example : identity ≡ identity
assert_safety-identity_example =
    assert_safety-identity model "delivery" identity identity http nostr runs.0 (there here)
      (there (there here))

abbrev delivery : String
delivery = "delivery"

assert_safety-owner_example : delivery ≡ delivery
assert_safety-owner_example =
    assert_safety-owner model "delivery" "delivery" identity identity http nostr runs.0 (there here)
      (there (there here)) refl

assert_safety-credit_example : credit ≡ credit
assert_safety-credit_example =
    assert_safety-credit model credit credit runs.0
      (there (there (there (there (there (there here))))))
      (there (there (there (there (there (there (there here))))))) refl

assert_safety-single_use_example : credit ≡ credit
assert_safety-single_use_example =
    assert_safety-single_use model request credit credit runs.0 here refl
      (there (there (there (there (there (there here))))))
      (there (there (there (there (there (there (there here))))))) refl refl
