-- ===== src/Tests/Delivery.antt =====
-- The delivery profile's theorems at concrete inputs.
use cashu_fault_lab.Common.{
  ◌≡◌, refl, ◌↔◌, ◌⊎◌, true, false, List, [], ◌∷◌, some, nat, ok, Map, Value, object, arith, All,
  if◌then◌else◌, get, eq_iff, leb, Number, is_hash,
}
use cashu_fault_lab.Delivery.Amount.{AmountProof, compute_net_amount}
use cashu_fault_lab.Delivery.Amount.Laws.{IsNet, compute_net_amount-eq_ok_iff}
use cashu_fault_lab.Delivery.Checkpoint.{
  CrashBoundary, Checkpoint, receiver_before_mint_request, sender_after_send_before_response,
  create_one_shot, stops, passes, count_true, create_one_shot-stops,
}
use cashu_fault_lab.Delivery.Duplicate.{
  ExistingDeliveryBinding, new, classify_delivery, IsNew, classify_delivery-new_iff,
}
use cashu_fault_lab.Delivery.Ids.{parse_protocol_id}
use cashu_fault_lab.Delivery.MintUrl.{normalize_mint_url}
use cashu_fault_lab.Delivery.Receipt.{
  has_valid_detail_code, has_valid_fields, check_names, assert_valid_receipt, rejects_blocked,
  same_identity, same_receipt, check_transition, assert_receipt_transition, choose_observed,
  merge_observed_receipt,
}
use cashu_fault_lab.Delivery.Receipt.Valid.{IsValid}
use cashu_fault_lab.Delivery.Receipt.Transition.{Step, assert_receipt_transition_iff}
use cashu_fault_lab.Delivery.Receipt.Observed.{
  Kept, next, merge_observed_receipt-Kept, merge_observed_receipt-Later,
}
use cashu_fault_lab.Delivery.Receipt.Wire.{
  wire, parse_delivery_receipt, serialize_delivery_receipt, parse-serialize, parse-serialize-parse,
}
use cashu_fault_lab.Tests.Samples.{platform, accepted, redeeming}

receipts : Unit {0}
unfolding has_valid_detail_code has_valid_fields check_names assert_valid_receipt rejects_blocked
    same_identity same_receipt check_transition assert_receipt_transition choose_observed
    merge_observed_receipt parse_protocol_id normalize_mint_url is_hash
receipts = tt

accepted-IsValid : IsValid platform accepted
unfolding receipts
accepted-IsValid = refl

redeeming-IsValid : IsValid platform redeeming
unfolding receipts
redeeming-IsValid = refl

abbrev proofs : List AmountProof
proofs =
    record { amount = nat 8; id = "k" }
    ∷ record { amount = nat 2; id = "k" }
    ∷ record { amount = nat 1; id = "l" }
    ∷ []

abbrev fees : Map Number
fees = ("k", nat 600) ∷ ("l", nat 0) ∷ []

compute_net_amount-eq_ok_iff_example : (compute_net_amount proofs fees ≡ ok 9) ↔ IsNet proofs fees 9
compute_net_amount-eq_ok_iff_example = compute_net_amount-eq_ok_iff proofs fees 9

net_of_proofs : compute_net_amount proofs fees ≡ ok 9
unfolding compute_net_amount get
net_of_proofs = refl

assert_receipt_transition_iff_example :
    (assert_receipt_transition platform (some accepted) redeeming ≡ ok tt) ↔ (
      IsValid platform redeeming
      × IsValid platform accepted
      × ((accepted ≡ redeeming) ⊎ Step accepted redeeming))
assert_receipt_transition_iff_example = assert_receipt_transition_iff platform accepted redeeming

accepted-redeeming-Step : Step accepted redeeming
accepted-redeeming-Step =
    ground (arith, eq_iff "redeeming" "accepted", eq_iff "accepted" "recovery_blocked")

merged : merge_observed_receipt platform (some redeeming) accepted ≡ ok redeeming
unfolding receipts
merged = refl

merge_observed_receipt-Kept_example : Kept redeeming accepted redeeming × IsValid platform redeeming
merge_observed_receipt-Kept_example =
    merge_observed_receipt-Kept platform redeeming accepted redeeming merged

merge_observed_receipt-Later_example :
    (merge_observed_receipt platform (some accepted) redeeming ≡ ok redeeming)
    × (merge_observed_receipt platform (some redeeming) accepted ≡ ok redeeming)
unfolding rejects_blocked
merge_observed_receipt-Later_example =
    merge_observed_receipt-Later platform accepted redeeming accepted-IsValid redeeming-IsValid
      (next accepted-redeeming-Step) refl

serialized : serialize_delivery_receipt platform accepted ≡ ok (object (wire accepted))
unfolding serialize_delivery_receipt receipts
serialized = refl

parse-serialize_example : parse_delivery_receipt platform (object (wire accepted)) ≡ ok accepted
parse-serialize_example = parse-serialize platform accepted (object (wire accepted)) serialized

parse-serialize-parse_example :
    (w : Value) × (serialize_delivery_receipt platform accepted ≡ ok w)
    × (parse_delivery_receipt platform w ≡ ok accepted)
parse-serialize-parse_example =
    parse-serialize-parse platform (object (wire accepted)) accepted parse-serialize_example

abbrev held : ExistingDeliveryBinding
held = record {
  request_id = "r";
  delivery_id = "d";
  payload_hash = "h";
  proof_set_hash = "s";
  holds_proof_claim = true;
  holds_request_reservation = true;
}

abbrev retried : ExistingDeliveryBinding
retried = record held { holds_proof_claim = false; holds_request_reservation = false }

classify_delivery-new_iff_example :
    (classify_delivery (held ∷ []) (record retried { delivery_id = "e" }) true ≡ new)
    ↔ All (IsNew true (record retried { delivery_id = "e" })) (held ∷ [])
classify_delivery-new_iff_example =
    classify_delivery-new_iff (held ∷ []) (record retried { delivery_id = "e" }) true

abbrev one_shot : Checkpoint
one_shot = record {
  boundary = receiver_before_mint_request;
  occurrence = 2;
  hits = 0;
  fired = false;
}

abbrev passed : List CrashBoundary
passed =
    receiver_before_mint_request ∷ sender_after_send_before_response ∷ receiver_before_mint_request
    ∷ receiver_before_mint_request ∷ []

create_one_shot-stops_example :
    (◌≡◌ {A = Number} (nat 2) (nat 2))
    × (count_true (stops one_shot passed)
        ≡ (if leb 2 (passes receiver_before_mint_request passed) then 1 else 0))
unfolding create_one_shot
create_one_shot-stops_example =
    create_one_shot-stops receiver_before_mint_request (nat 2) one_shot passed refl
