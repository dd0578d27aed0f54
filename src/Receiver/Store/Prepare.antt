-- ===== src/Receiver/Store/Prepare.antt =====
-- memory-store.ts: `prepare`.
use cashu_fault_lab.Common.{
  String, Bool, ◌&&◌, not, none, some, List, [], ◌∷◌, ◌==◌, if◌then◌else◌, is_blank, any, length,
  unique, Map, get, put, ok, err, ◌>>=◌, ◌>>◌, ensure, throw_if, map_err,
}
use cashu_fault_lab.Delivery.Platform.{Platform}
use cashu_fault_lab.Delivery.Receipt.{DeliveryReceipt, processing, assert_receipt_transition}
use cashu_fault_lab.Receiver.Types.{
  delivery_conflict, single_use_conflict, proof_conflict, amount_mismatch, invalid_proof_evidence,
  validation, domain, PaymentRequestRecord, DeliveryRecord, DeliveryPhase, PrepareDelivery,
  PrepareResult,
}
use cashu_fault_lab.Receiver.Binding.{validate_request_binding, same_delivery}
use cashu_fault_lab.Receiver.Store.{StoreState, Operation}
use cashu_fault_lab.Receiver.Store.Requests.{taken_by_other, require_request}

-- the evidence of the proof verifier is complete
unfoldable pub has_evidence : PrepareDelivery → Bool
has_evidence input =
    let proofs = length input.command.payload.proofs in
    length input.proof_claim_ids == proofs
    && length input.proof_ys == proofs
    && length (unique input.proof_claim_ids) == length input.proof_claim_ids
    && not (is_blank input.proof_set_hash)

-- for (const claim of claims) draft.proofClaims.set(claim, owner)
unfoldable pub claim_all : List String → String → Map String → Map String
claim_all [] owner claims = claims
claim_all (c ∷ cs) owner claims = claim_all cs owner (put claims c owner)

unfoldable pub first_receipt : PaymentRequestRecord → PrepareDelivery → DeliveryReceipt
first_receipt request input =
    let payload = input.command.payload in
    record {
      profile = "cashu-delivery-v1";
      request_id = request.id;
      delivery_id = payload.delivery.id;
      payload_hash = input.command.payload_hash;
      status = processing;
      status_version = 1;
      mint = payload.mint;
      unit = payload.unit;
      amount = request.amount;
      detail_code = "accepted";
    }

unfoldable pub new_record : PaymentRequestRecord → PrepareDelivery → DeliveryRecord
new_record request input = record {
  request_id = request.id;
  delivery_id = input.command.payload.delivery.id;
  payload_hash = input.command.payload_hash;
  proof_set_hash = input.proof_set_hash;
  proof_claim_ids = input.proof_claim_ids;
  plan = input.plan;
  amount = request.amount;
  redemption_starts = 0;
  phase = DeliveryPhase.prepared;
  receipt = first_receipt request input;
  replacement_plan_hash = none;
  replacement_proofs = none;
}

-- the new record, its claims and its reservation
unfoldable pub insert_record : PaymentRequestRecord → DeliveryRecord → StoreState → StoreState
insert_record request r draft = record draft {
  deliveries = put draft.deliveries r.delivery_id r;
  proof_claims = claim_all r.proof_claim_ids r.delivery_id draft.proof_claims;
  request_reservations =
      if request.single_use
      then put draft.request_reservations request.id r.delivery_id
      else draft.request_reservations;
}

module _ (platform : Platform) where
  -- what follows the look-up of an earlier delivery that was not there
  unfoldable pub prepare_new : PaymentRequestRecord → PrepareDelivery → Operation PrepareResult
  prepare_new request input draft = do
    let id = input.command.payload.delivery.id
    throw_if (any (λ claim. taken_by_other (get draft.proof_claims claim) id) input.proof_claim_ids)
        (domain proof_conflict)
    throw_if (request.single_use && taken_by_other (get draft.request_reservations request.id) id)
        (domain single_use_conflict)
    map_err validation (assert_receipt_transition platform none (first_receipt request input))
    let r = new_record request input
    ok (PrepareResult.prepared r, insert_record request r draft)

  unfoldable pub prepare : PrepareDelivery → Operation PrepareResult
  prepare input draft = do
    request ← require_request draft input.command.payload.id
    validate_request_binding request input.command input.now
    ensure (input.net_amount == request.amount) (domain amount_mismatch)
    ensure (has_evidence input) (domain invalid_proof_evidence)
    elim (get draft.deliveries input.command.payload.delivery.id) [
      | some previous ↦
          if same_delivery previous input
          then ok (PrepareResult.duplicate previous, draft)
          else err (domain delivery_conflict)
      | none ↦ prepare_new request input draft
    ]
