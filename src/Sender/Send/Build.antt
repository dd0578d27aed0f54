-- ===== src/Sender/Send/Build.antt =====
-- apps/reference-sender/src/send-payment.ts: the tests and the record of `sendPayment`.
use cashu_fault_lab.Common.{
  ℕ, String, ◌&&◌, leb, ltb, if◌then◌else◌, List, [], ◌∷◌, is_empty, Option, none, some, Number,
  nat, is_safe, includes, str_eq, Result, ◌>>=◌, ◌>>◌, ok, err, ensure, map_err,
}
use cashu_fault_lab.Delivery.Platform.{Platform}
use cashu_fault_lab.Delivery.Codec.{Codec}
use cashu_fault_lab.Delivery.Amount.{assert_exact_requested_amount}
use cashu_fault_lab.Delivery.Payload.{DeliveryPayload, objects, serialize_delivery_payload}
use cashu_fault_lab.Delivery.Fingerprint.{PayloadFingerprintInput, compute_payload_hash}
use cashu_fault_lab.Sender.Types.{
  TransportTarget, SenderPaymentRequest, sending, SenderDeliveryRecord, ReservePayment,
  ReservedProofSet, SendError, validation, invalid,
}

pub record SendPaymentOptions : Type 0 where
  pub seed : String
  pub max_attempts : Option Number
  pub memo : Option String

-- options.maxAttempts ?? 5, validated
unfoldable pub validate_max_attempts : Option Number → Result SendError ℕ
validate_max_attempts none = ok 5
validate_max_attempts (some (nat n)) = if leb 1 n && leb n 100 then ok n else err invalid
validate_max_attempts _ = err invalid

unfoldable pub payload_for :
    SenderPaymentRequest → Option String → ℕ → ℕ → String → ReservedProofSet → DeliveryPayload
payload_for request memo now expires_at id set = record {
  id = request.id;
  memo = memo;
  mint = set.mint;
  unit = set.unit;
  proofs = set.proofs;
  delivery = record { id = id; created_at = now; expires_at = expires_at };
}

unfoldable pub hash_input : DeliveryPayload → PayloadFingerprintInput
hash_input payload = record {
  request_id = payload.id;
  memo = payload.memo;
  mint = payload.mint;
  unit = payload.unit;
  proofs = objects payload.proofs;
  created_at = payload.delivery.created_at;
  expires_at = payload.delivery.expires_at;
}

unfoldable pub first_record :
    SenderPaymentRequest
    → String
    → TransportTarget
    → DeliveryPayload
    → List ℕ
    → String
    → SenderDeliveryRecord
first_record request id target payload bytes hash = record {
  delivery_id = id;
  request = request;
  payload = payload;
  payload_bytes = bytes;
  payload_hash = hash;
  target = target;
  status = sending;
  attempts = 0;
  receipt = none;
  diagnostics = [];
}

module _ (platform : Platform) (codec : Codec) where
  -- the body of the `try` block up to `state.create`
  unfoldable pub build_record :
      SenderPaymentRequest
      → TransportTarget
      → DeliveryPayload
      → ReservedProofSet
      → Result SendError SenderDeliveryRecord
  build_record request target payload set = do
    ensure (includes request.mints set.mint && str_eq set.unit request.unit) invalid
    map_err validation (assert_exact_requested_amount set.net_amount request.amount)
    bytes ← map_err validation (serialize_delivery_payload platform codec payload)
    hash ← map_err validation (compute_payload_hash platform codec (hash_input payload))
    ok (first_record request payload.delivery.id target payload bytes hash)

-- a time after another one
unfoldable pub later_than : ℕ → Number → Result SendError ℕ
later_than now (nat n) = if is_safe n && ltb now n then ok n else err invalid
later_than now _ = err invalid

unfoldable pub valid_now : Number → Result SendError ℕ
valid_now (nat n) = if is_safe n then ok n else err invalid
valid_now _ = err invalid

unfoldable pub first_target : SenderPaymentRequest → Result SendError TransportTarget
first_target request = elim request.transports [
  | [] ↦ err invalid
  | t ∷ ts ↦ if is_empty request.mints then err invalid else ok t
]

unfoldable pub reservation : SenderPaymentRequest → String → ReservePayment
reservation request id = record {
  delivery_id = id;
  amount = request.amount;
  unit = request.unit;
  mints = request.mints;
}
