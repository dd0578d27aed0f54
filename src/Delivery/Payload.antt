-- ===== src/Delivery/Payload.antt =====
-- packages/delivery-core/src/payload.ts: the payload of a delivery and its wire format.
pub mod RoundTrip
use cashu_fault_lab.Common.{
  ℕ, ◌+◌, String, Bool, true, false, not, ◌&&◌, Option, none, some, List, [], ◌∷◌, ◌==◌,
  if◌then◌else◌, leb, ltb, length, is_blank, includes, str_eq, Number, nat, is_safe, Result, ok,
  err, ◌>>=◌, ◌>>◌, ensure, throw_if, Value, Items, Fields, undefined, null, number, string, array,
  object, nil, cons, end, field, property, map,
}
use cashu_fault_lab.Delivery.Errors.{DeliveryErrorCode, invalid_delivery_payload, delivery_expired}
use cashu_fault_lab.Delivery.Platform.{Platform}
use cashu_fault_lab.Delivery.Codec.{Codec}
use cashu_fault_lab.Delivery.Ids.{parse_protocol_id}
use cashu_fault_lab.Delivery.MintUrl.{normalize_mint_url}
use cashu_fault_lab.Delivery.Fingerprint.{
  CashuProof, PayloadFingerprintInput, memo_value, to_items, max_proofs, max_window,
  compute_payload_hash,
}

pub record DeliveryMetadata : Type 0 where
  pub id : String
  pub created_at : ℕ
  pub expires_at : ℕ

-- its version is always 1
pub record DeliveryPayload : Type 0 where
  pub id : String
  pub memo : Option String
  pub mint : String
  pub unit : String
  pub proofs : List CashuProof
  pub delivery : DeliveryMetadata

unfoldable pub max_payload_bytes : ℕ
max_payload_bytes = 65536

unfoldable pub clock_skew_seconds : ℕ
clock_skew_seconds = 60

unfoldable pub elements : Items → List Value
elements nil = []
elements (cons x xs) = x ∷ elements xs

-- the object that a value is; only applied to values that are
unfoldable pub fields_of : Value → Fields
fields_of (object fs) = fs
fields_of _ = end

unfoldable pub fields_of_all : List Value → List CashuProof
fields_of_all [] = []
fields_of_all (x ∷ xs) = fields_of x ∷ fields_of_all xs

unfoldable pub objects : List CashuProof → List Value
objects [] = []
objects (p ∷ ps) = object p ∷ objects ps

-- assertOnlyKeys: whether it returns
unfoldable pub has_only_keys : List String → Fields → Bool
has_only_keys allowed end = true
has_only_keys allowed (field k v fs) = includes allowed k && has_only_keys allowed fs

unfoldable pub as_object : Value → Result DeliveryErrorCode Fields
as_object (object fs) = ok fs
as_object _ = err invalid_delivery_payload

unfoldable pub as_text : Value → Result DeliveryErrorCode String
as_text (string s) = ok s
as_text _ = err invalid_delivery_payload

-- assertSafeTime, with the number that passed
unfoldable pub as_time : Number → Result DeliveryErrorCode ℕ
as_time (nat n) = if is_safe n then ok n else err invalid_delivery_payload
as_time _ = err invalid_delivery_payload

unfoldable pub as_time_value : Value → Result DeliveryErrorCode ℕ
as_time_value (number n) = as_time n
as_time_value _ = err invalid_delivery_payload

unfoldable pub as_memo : Value → Result DeliveryErrorCode (Option String)
as_memo undefined = ok none
as_memo null = ok none
as_memo (string s) = ok (some s)
as_memo _ = err invalid_delivery_payload

unfoldable pub as_proofs : Value → Result DeliveryErrorCode (List Value)
as_proofs (array xs) = do
  ensure (leb (length (elements xs)) max_proofs) invalid_delivery_payload
  ok (elements xs)
as_proofs _ = err invalid_delivery_payload

unfoldable pub is_one : Value → Bool
is_one (number (nat n)) = n == 1
is_one _ = false

-- the tests of the two times against each other and against the clock
unfoldable pub check_times : ℕ → ℕ → ℕ → Result DeliveryErrorCode (Unit {0})
check_times now created expires = do
  ensure (ltb created expires) invalid_delivery_payload
  ensure (leb expires (created + max_window)) invalid_delivery_payload
  ensure (leb created (now + clock_skew_seconds)) invalid_delivery_payload
  ensure (leb now (expires + clock_skew_seconds)) delivery_expired

unfoldable pub payload_keys : List String
payload_keys = "id" ∷ "memo" ∷ "mint" ∷ "unit" ∷ "proofs" ∷ "delivery" ∷ []

unfoldable pub metadata_keys : List String
metadata_keys = "v" ∷ "id" ∷ "created_at" ∷ "expires_at" ∷ []

-- what the first tests read of a payload
pub record RawPayload : Type 0 where
  pub id : String
  pub memo : Option String
  pub mint : String
  pub unit : String
  pub proofs : List Value
  pub delivery_id : String
  pub created_at : ℕ
  pub expires_at : ℕ

-- the tests up to the construction of the payload
unfoldable pub read_payload : Value → ℕ → Result DeliveryErrorCode RawPayload
read_payload value now = do
  fields ← as_object value
  delivery ← as_object (property fields "delivery")
  ensure (has_only_keys payload_keys fields) invalid_delivery_payload
  ensure (has_only_keys metadata_keys delivery) invalid_delivery_payload
  id ← as_text (property fields "id")
  memo ← as_memo (property fields "memo")
  mint ← as_text (property fields "mint")
  unit ← as_text (property fields "unit")
  throw_if (is_blank unit) invalid_delivery_payload
  proofs ← as_proofs (property fields "proofs")
  ensure (is_one (property delivery "v")) invalid_delivery_payload
  delivery_id ← as_text (property delivery "id")
  created ← as_time_value (property delivery "created_at")
  expires ← as_time_value (property delivery "expires_at")
  check_times now created expires
  ok (record {
    id = id;
    memo = memo;
    mint = mint;
    unit = unit;
    proofs = proofs;
    delivery_id = delivery_id;
    created_at = created;
    expires_at = expires;
  })

unfoldable pub fingerprint_input : RawPayload → String → PayloadFingerprintInput
fingerprint_input raw mint = record {
  request_id = raw.id;
  memo = raw.memo;
  mint = mint;
  unit = raw.unit;
  proofs = raw.proofs;
  created_at = raw.created_at;
  expires_at = raw.expires_at;
}

unfoldable pub payload_of : RawPayload → String → DeliveryPayload
payload_of raw mint = record {
  id = raw.id;
  memo = raw.memo;
  mint = mint;
  unit = raw.unit;
  proofs = fields_of_all raw.proofs;
  delivery = record {
    id = raw.delivery_id;
    created_at = raw.created_at;
    expires_at = raw.expires_at;
  };
}

-- the wire object
unfoldable pub payload_wire : DeliveryPayload → Value
payload_wire p = object (
    field "id" (string p.id) (
      field "memo" (memo_value p.memo) (
        field "mint" (string p.mint) (
          field "unit" (string p.unit) (
            field "proofs" (array (to_items (objects p.proofs))) (
              field "delivery"
                (object (
                  field "v" (number (nat 1)) (
                    field "id" (string p.delivery.id) (
                      field "created_at" (number (nat p.delivery.created_at))
                        (field "expires_at" (number (nat p.delivery.expires_at)) end)))))
                end))))))

module _ (platform : Platform) (codec : Codec) where
  -- the construction of the payload, and the hash that checks its proofs
  unfoldable pub build_payload : RawPayload → Result DeliveryErrorCode DeliveryPayload
  build_payload raw = do
    parse_protocol_id platform raw.id
    mint ← normalize_mint_url platform raw.mint
    parse_protocol_id platform raw.delivery_id
    compute_payload_hash platform codec (fingerprint_input raw mint)
    ok (payload_of raw mint)

  unfoldable pub parse_delivery_payload : Value → Number → Result DeliveryErrorCode DeliveryPayload
  parse_delivery_payload value time = do
    now ← as_time time
    raw ← read_payload value now
    build_payload raw

  unfoldable pub serialize_delivery_payload : DeliveryPayload → Result DeliveryErrorCode (List ℕ)
  serialize_delivery_payload payload = do
    validated ← parse_delivery_payload (payload_wire payload) (nat payload.delivery.created_at)
    let encoded = codec.stringify_json (payload_wire validated)
    ensure (leb (length encoded) max_payload_bytes) invalid_delivery_payload
    ok encoded

  -- the two failures of decoding have one error code
  unfoldable pub parse_delivery_payload_json :
      List ℕ → Number → Result DeliveryErrorCode DeliveryPayload
  parse_delivery_payload_json value now = do
    ensure (leb (length value) max_payload_bytes) invalid_delivery_payload
    elim (codec.parse_json value) [
      | none ↦ err invalid_delivery_payload
      | some decoded ↦ parse_delivery_payload decoded now
    ]
