-- ===== src/Delivery/Receipt/Wire.antt =====
-- parseDeliveryReceipt and serializeDeliveryReceipt of receipt.ts, and their round trip.
use cashu_fault_lab.Common.{
  ℕ, String, ◌≡◌, refl, arith, str_eq, if◌then◌else◌, nat, Result, ok, err, ◌>>=◌, ◌>>◌, Value,
  Fields, number, string, object, field, end, property,
}
use cashu_fault_lab.Delivery.Errors.{DeliveryErrorCode, invalid_receipt}
use cashu_fault_lab.Delivery.Platform.{Platform}
use cashu_fault_lab.Delivery.Receipt.{
  DeliveryStatus, processing, settled, rejected, DeliveryReceipt, assert_valid_receipt,
}

-- isRecord(value), with the value's fields
unfoldable pub as_record : Value → Result DeliveryErrorCode Fields
as_record (object fields) = ok fields
as_record _ = err invalid_receipt

-- typeof value === 'string'
unfoldable pub as_string : Value → Result DeliveryErrorCode String
as_string (string s) = ok s
as_string _ = err invalid_receipt

-- typeof value === 'number', and a nonnegative integer; the other tests are assertValidReceipt's
unfoldable pub as_natural : Value → Result DeliveryErrorCode ℕ
as_natural (number (nat n)) = ok n
as_natural _ = err invalid_receipt

-- isDeliveryStatus
unfoldable pub parse_status : String → Result DeliveryErrorCode DeliveryStatus
parse_status s =
    if str_eq s "processing"
    then ok processing
    else if str_eq s "settled"
    then ok settled
    else if str_eq s "rejected"
    then ok rejected
    else err invalid_receipt

unfoldable pub status_name : DeliveryStatus → String
status_name processing = "processing"
status_name settled = "settled"
status_name rejected = "rejected"

-- the typed candidate; each of these tests throws INVALID_RECEIPT, as the others do
unfoldable pub candidate : Fields → Result DeliveryErrorCode DeliveryReceipt
candidate v = do
  profile ← as_string (property v "profile")
  request_id ← as_string (property v "request_id")
  delivery_id ← as_string (property v "delivery_id")
  payload_hash ← as_string (property v "payload_hash")
  status_text ← as_string (property v "status")
  status ← parse_status status_text
  status_version ← as_natural (property v "status_version")
  mint ← as_string (property v "mint")
  unit ← as_string (property v "unit")
  amount ← as_natural (property v "amount")
  detail_code ← as_string (property v "detail_code")
  ok (record {
    profile = profile;
    request_id = request_id;
    delivery_id = delivery_id;
    payload_hash = payload_hash;
    status = status;
    status_version = status_version;
    mint = mint;
    unit = unit;
    amount = amount;
    detail_code = detail_code;
  })

-- the wire object of a receipt
unfoldable pub wire : DeliveryReceipt → Fields
wire r = field "profile" (string r.profile) (
    field "request_id" (string r.request_id) (
      field "delivery_id" (string r.delivery_id) (
        field "payload_hash" (string r.payload_hash) (
          field "status" (string (status_name r.status)) (
            field "status_version" (number (nat r.status_version)) (
              field "mint" (string r.mint) (
                field "unit" (string r.unit) (
                  field "amount" (number (nat r.amount))
                    (field "detail_code" (string r.detail_code) end)))))))))

module _ (platform : Platform) where
  unfoldable pub parse_delivery_receipt : Value → Result DeliveryErrorCode DeliveryReceipt
  parse_delivery_receipt value = do
    fields ← as_record value
    receipt ← candidate fields
    assert_valid_receipt platform receipt
    ok receipt

  unfoldable pub serialize_delivery_receipt : DeliveryReceipt → Result DeliveryErrorCode Value
  serialize_delivery_receipt receipt = do
    assert_valid_receipt platform receipt
    ok (object (wire receipt))

parse_status-status_name : (s : DeliveryStatus) → parse_status (status_name s) ≡ ok s
unfolding parse_status status_name
parse_status-status_name processing = refl
parse_status-status_name settled = refl
parse_status-status_name rejected = refl

candidate-wire : (r : DeliveryReceipt) → candidate (wire r) ≡ ok r
unfolding candidate wire property as_string as_natural
candidate-wire r = rw parse_status-status_name refl

-- Whatever serializeDeliveryReceipt writes, parseDeliveryReceipt reads back as the same receipt.
pub parse-serialize :
    (platform : Platform) (r : DeliveryReceipt) (w : Value)
    → serialize_delivery_receipt platform r ≡ ok w
    → parse_delivery_receipt platform w ≡ ok r
unfolding serialize_delivery_receipt parse_delivery_receipt as_record
parse-serialize platform r w e = ground (arith, candidate-wire r)

-- Whatever parseDeliveryReceipt reads can be written, and reads back as the same receipt.
pub parse-serialize-parse :
    (platform : Platform) (v : Value) (r : DeliveryReceipt)
    → parse_delivery_receipt platform v ≡ ok r
    → (w : Value) × (serialize_delivery_receipt platform r ≡ ok w)
      × (parse_delivery_receipt platform w ≡ ok r)
unfolding serialize_delivery_receipt parse_delivery_receipt as_record
parse-serialize-parse platform v r e =
    (object (wire r), ground arith, ground (arith, candidate-wire r))
