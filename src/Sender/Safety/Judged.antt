-- ===== src/Sender/Safety/Judged.antt =====
-- What `judge` makes of an answer is sound, and it ends a delivery only with a receipt of this end.
use cashu_fault_lab.Common.{
  Bool, true, false, ◌≡◌, refl, Option, none, some, Result, ok, err, Bool-cases, inl, inr, arith,
  bind-eq-ok,
}
use cashu_fault_lab.Delivery.Errors.{DeliveryErrorCode}
use cashu_fault_lab.Delivery.Platform.{Platform}
use cashu_fault_lab.Delivery.Receipt.{
  DeliveryReceipt, DeliveryStatus, merge_observed_receipt, assert_valid_receipt,
}
use cashu_fault_lab.Delivery.Receipt.Wire.{parse_delivery_receipt}
use cashu_fault_lab.Delivery.Receipt.Observed.{merge_observed_receipt-Kept}
use cashu_fault_lab.Sender.Types.{
  SenderAttemptCode, SenderAttemptStage, SenderDeliveryRecord, SenderDeliveryStatus,
  TransportResult,
}
use cashu_fault_lab.Sender.Send.Judge.{
  AttemptVerdict, settle, refuse, again, verdict, judge, judge_receipt, judge_merged, has_identity,
  append_diagnostic,
}
use cashu_fault_lab.Sender.Safety.Certificates.{Identified}

-- a record whose attempts go on
pub record Active (r : SenderDeliveryRecord) : Type 0 where
  pub pending : r.status ≡ SenderDeliveryStatus.sending
  pub identified : Identified r r.receipt

abbrev pub Justified : SenderDeliveryRecord → AttemptVerdict → Type 0
Justified r (settle receipt) =
    (r.receipt ≡ some receipt) × (receipt.status ≡ DeliveryStatus.settled)
Justified r (refuse receipt) =
    (r.receipt ≡ some receipt) × (receipt.status ≡ DeliveryStatus.rejected)
Justified r (again retry) = Unit

-- a record and the verdict on it, made from an earlier record
pub record Judged (old : SenderDeliveryRecord) (j : SenderDeliveryRecord × AttemptVerdict)
    : Type 0 where
  pub active : Active j.0
  pub same_delivery : j.0.delivery_id ≡ old.delivery_id
  pub justified : Justified j.0 j.1

verdict-Justified :
    (r : SenderDeliveryRecord) (receipt : DeliveryReceipt) (status : DeliveryStatus)
    → r.receipt ≡ some receipt
    → receipt.status ≡ status
    → Justified r (verdict receipt status)
unfolding verdict
verdict-Justified r receipt DeliveryStatus.processing h e = tt
verdict-Justified r receipt DeliveryStatus.settled h e = (h, e)
verdict-Justified r receipt DeliveryStatus.rejected h e = (h, e)

merged-has_identity :
    (platform : Platform) (r : SenderDeliveryRecord) (previous : Option DeliveryReceipt)
    (observed merged : DeliveryReceipt)
    → Identified r previous
    → has_identity r observed ≡ true
    → merge_observed_receipt platform previous observed ≡ ok merged
    → has_identity r merged ≡ true
unfolding merge_observed_receipt
merged-has_identity platform r none observed merged h k e =
    let (_, _, f) = bind-eq-ok (assert_valid_receipt platform observed) (λ _. ok observed) e in cc
merged-has_identity platform r (some previous) observed merged h k e =
    ground (arith, merge_observed_receipt-Kept platform previous observed merged e)

append-Judged :
    (r : SenderDeliveryRecord) (code : SenderAttemptCode) (stage : SenderAttemptStage)
    (retryable retry : Bool)
    → Active r
    → Judged r (append_diagnostic r code stage retryable, again retry)
unfolding append_diagnostic has_identity
append-Judged r code stage retryable retry a = record {
  active = record { pending = a.pending; identified = a.identified };
  same_delivery = refl;
  justified = tt;
}

judge_merged-Judged :
    (r : SenderDeliveryRecord) (m : Result DeliveryErrorCode DeliveryReceipt)
    → Active r
    → ((merged : DeliveryReceipt) → m ≡ ok merged → has_identity r merged ≡ true)
    → Judged r (judge_merged r m)
unfolding judge_merged has_identity
judge_merged-Judged r (err e) a h = append-Judged r _ _ false false a
judge_merged-Judged r (ok merged) a h = record {
  active = record { pending = a.pending; identified = h merged refl };
  same_delivery = refl;
  justified = verdict-Justified (record r { receipt = some merged }) merged merged.status refl refl;
}

judge_receipt-Judged :
    (platform : Platform) (r : SenderDeliveryRecord) (m : Result DeliveryErrorCode DeliveryReceipt)
    → Active r
    → Judged r (judge_receipt platform r m)
unfolding judge_receipt
judge_receipt-Judged platform r (err e) a = append-Judged r _ _ true true a
judge_receipt-Judged platform r (ok observed) a = elim (Bool-cases (has_identity r observed)) [
  | inl same ↦ rw same (
      judge_merged-Judged r (merge_observed_receipt platform r.receipt observed) a
        (λ merged e. merged-has_identity platform r r.receipt observed merged a.identified same e))
  | inr differs ↦ rw differs (append-Judged r _ _ false false a)
]

pub judge-Judged :
    (platform : Platform) (r : SenderDeliveryRecord) (answer : Option TransportResult)
    → Active r
    → Judged r (judge platform r answer)
unfolding judge
judge-Judged platform r none a = append-Judged r _ _ true true a
judge-Judged platform r (some (TransportResult.receipt value)) a =
    judge_receipt-Judged platform r (parse_delivery_receipt platform value) a
judge-Judged platform r (some TransportResult.no_response) a = append-Judged r _ _ true true a
judge-Judged platform r (some (TransportResult.permanent_failure status code)) a =
    append-Judged r _ _ false false a

-- the verdict is on the same delivery with the same payload and status
abbrev pub Same : SenderDeliveryRecord → SenderDeliveryRecord × AttemptVerdict → Type 0
Same r j =
    (j.0.delivery_id ≡ r.delivery_id)
    × (j.0.payload_bytes ≡ r.payload_bytes)
    × (j.0.status ≡ r.status)

judge_merged-Same :
    (r : SenderDeliveryRecord) (m : Result DeliveryErrorCode DeliveryReceipt)
    → Same r (judge_merged r m)
unfolding judge_merged append_diagnostic
judge_merged-Same r (ok receipt) = (refl, refl, refl)
judge_merged-Same r (err e) = (refl, refl, refl)

judge_receipt-Same :
    (platform : Platform) (r : SenderDeliveryRecord) (m : Result DeliveryErrorCode DeliveryReceipt)
    → Same r (judge_receipt platform r m)
unfolding judge_receipt judge_merged append_diagnostic
judge_receipt-Same platform r (err e) = (refl, refl, refl)
judge_receipt-Same platform r (ok observed) = elim (Bool-cases (has_identity r observed)) [
  | inl same ↦ rw same (judge_merged-Same r (merge_observed_receipt platform r.receipt observed))
  | inr differs ↦ rw differs (refl, refl, refl)
]

pub judge-Same :
    (platform : Platform) (r : SenderDeliveryRecord) (answer : Option TransportResult)
    → Same r (judge platform r answer)
unfolding judge append_diagnostic
judge-Same platform r none = (refl, refl, refl)
judge-Same platform r (some (TransportResult.receipt value)) =
    judge_receipt-Same platform r (parse_delivery_receipt platform value)
judge-Same platform r (some TransportResult.no_response) = (refl, refl, refl)
judge-Same platform r (some (TransportResult.permanent_failure status code)) = (refl, refl, refl)
