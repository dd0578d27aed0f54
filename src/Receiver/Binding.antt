-- ===== src/Receiver/Binding.antt =====
-- apps/reference-receiver/src/domain/request-binding.ts and adapters/store-helpers.ts
use cashu_fault_lab.Common.{
  ℕ, ◌+◌, String, Bool, true, false, ◌&&◌, not, some, List, [], ◌∷◌, ◌==◌, ltb, if◌then◌else◌,
  str_eq, includes, is_safe, Number, nat, Result, ok, err, ◌>>=◌, ◌>>◌, ensure, throw_if, map_err,
}
use cashu_fault_lab.Delivery.Platform.{Platform}
use cashu_fault_lab.Delivery.Receipt.{DeliveryStatus, DeliveryReceipt, assert_receipt_transition}
use cashu_fault_lab.Receiver.Types.{
  invalid_request, request_expired, delivery_expired, delivery_time_invalid, request_mismatch,
  unit_mismatch, mint_mismatch, Thrown, validation, domain, PaymentRequestRecord,
  AcceptDeliveryCommand, DeliveryRecord, PrepareDelivery,
}

-- assertSafeInteger, with the number that passed
unfoldable pub assert_safe_integer : Number → Result Thrown ℕ
assert_safe_integer (nat n) = if is_safe n then ok n else err (domain invalid_request)
assert_safe_integer _ = err (domain invalid_request)

unfoldable pub is_same_delivery_binding : DeliveryRecord → AcceptDeliveryCommand → Bool
is_same_delivery_binding r c =
    str_eq r.request_id c.payload.id
    && str_eq r.delivery_id c.payload.delivery.id
    && str_eq r.payload_hash c.payload_hash
    && str_eq r.plan.mint c.payload.mint
    && str_eq r.plan.unit c.payload.unit

-- `t < now - 60` is written `t + 60 < now`
unfoldable pub validate_request_binding :
    PaymentRequestRecord → AcceptDeliveryCommand → Number → Result Thrown (Unit {0})
validate_request_binding request command time = do
  now ← assert_safe_integer time
  let payload = command.payload
  throw_if (ltb (request.expires_at + 60) now) (domain request_expired)
  throw_if (ltb (payload.delivery.expires_at + 60) now) (domain delivery_expired)
  throw_if (ltb (now + 60) payload.delivery.created_at) (domain delivery_time_invalid)
  ensure (payload.delivery.expires_at == request.expires_at) (domain request_mismatch)
  ensure (str_eq payload.unit request.unit) (domain unit_mismatch)
  ensure (includes request.mints payload.mint) (domain mint_mismatch)

abbrev same_mints : List String → List String → Bool
same_mints [] [] = true
same_mints (m ∷ ms) (n ∷ ns) = str_eq m n && same_mints ms ns
same_mints _ _ = false

unfoldable pub same_request : PaymentRequestRecord → PaymentRequestRecord → Bool
same_request left right =
    str_eq left.id right.id
    && left.amount == right.amount
    && str_eq left.unit right.unit
    && (if left.single_use then right.single_use else not right.single_use)
    && left.expires_at == right.expires_at
    && same_mints left.mints right.mints

unfoldable pub same_delivery : DeliveryRecord → PrepareDelivery → Bool
same_delivery left input =
    str_eq left.request_id input.command.payload.id
    && str_eq left.delivery_id input.command.payload.delivery.id
    && str_eq left.payload_hash input.command.payload_hash
    && str_eq left.proof_set_hash input.proof_set_hash
    && str_eq left.plan.mint input.plan.mint
    && str_eq left.plan.unit input.plan.unit
    && left.amount == input.net_amount

module _ (platform : Platform) where
  unfoldable pub next_receipt :
      DeliveryReceipt → DeliveryStatus → String → Result Thrown DeliveryReceipt
  next_receipt previous status detail_code = do
    let next = record previous {
      status = status;
      detail_code = detail_code;
      status_version = previous.status_version + 1;
    }
    map_err validation (assert_receipt_transition platform (some previous) next)
    ok next
