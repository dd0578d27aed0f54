-- ===== src/Delivery/Fingerprint.antt =====
-- packages/delivery-core/src/fingerprint.ts: what is hashed, and the checks that come before.
use Prim.Native.Nat.{compare, Ordering}
use cashu_fault_lab.Common.{
  ℕ, ◌+◌, String, Bool, true, false, not, ◌&&◌, ◌||◌, Option, none, some, List, [], ◌∷◌, ◌==◌, ltb,
  leb, length, all, is_blank, nat, is_safe, is_safe_integer, is_safe_nonnegative, Result, ok, err,
  ◌>>=◌, ◌>>◌, ensure, throw_if, if◌then◌else◌, Value, Items, Fields, undefined, null, exotic,
  boolean, number, string, array, object, nil, cons, end, field, property, str_eq,
}
use cashu_fault_lab.Delivery.Errors.{
  DeliveryErrorCode, invalid_fingerprint_input, invalid_proof_point, duplicate_proof_point,
}
use cashu_fault_lab.Delivery.Platform.{Platform}
use cashu_fault_lab.Delivery.Codec.{Codec}
use cashu_fault_lab.Delivery.Ids.{parse_protocol_id}
use cashu_fault_lab.Delivery.MintUrl.{normalize_mint_url}

-- A proof is an open record: the object that passed the checks below.
abbrev pub CashuProof : Type 0
CashuProof = Fields

pub record PayloadFingerprintInput : Type 0 where
  pub request_id : String
  pub memo : Option String
  pub mint : String
  pub unit : String
  pub proofs : List Value
  pub created_at : ℕ
  pub expires_at : ℕ

-- assertJsonValue: whether it returns. A hole in an array reads as `undefined`, which is refused too.
unfoldable mutual
  pub is_json : Value → Bool
  is_json undefined = false
  is_json null = true
  is_json exotic = false
  is_json (boolean b) = true
  is_json (number n) = is_safe_integer n
  is_json (string s) = true
  is_json (array xs) = is_json_items xs
  is_json (object fs) = is_json_fields fs

  pub is_json_items : Items → Bool
  is_json_items nil = true
  is_json_items (cons x xs) = is_json x && is_json_items xs

  pub is_json_fields : Fields → Bool
  is_json_fields end = true
  is_json_fields (field k v fs) = is_json v && is_json_fields fs

-- typeof value === 'string' && value.length > 0
unfoldable pub is_text : Value → Bool
is_text (string s) = not (is_blank s)
is_text _ = false

unfoldable pub is_amount : Value → Bool
is_amount (number n) = is_safe_nonnegative n
is_amount _ = false

-- !(key in value) || test(value[key])
unfoldable pub if_present : (Value → Bool) → Fields → String → Bool
if_present test end key = true
if_present test (field k v fs) key = if str_eq k key then test v else if_present test fs key

unfoldable pub is_string : Value → Bool
is_string (string s) = true
is_string _ = false

unfoldable pub is_plain_record : Value → Bool
is_plain_record (object fs) = true
is_plain_record _ = false

unfoldable pub has_proof_fields : Fields → Bool
has_proof_fields fs =
    is_amount (property fs "amount")
    && is_text (property fs "id")
    && is_text (property fs "secret")
    && is_text (property fs "C")
    && if_present is_string fs "witness"
    && if_present is_plain_record fs "dleq"

-- assertCashuProof: whether it returns
unfoldable pub is_cashu_proof : Value → Bool
is_cashu_proof (object fs) = is_json (object fs) && has_proof_fields fs
is_cashu_proof _ = false

unfoldable pub max_proofs : ℕ
max_proofs = 256

unfoldable pub max_window : ℕ
max_window = 86400

-- the tests of validatePayloadInput that follow parseProtocolId
unfoldable pub is_payload_input : PayloadFingerprintInput → Bool
is_payload_input input =
    not (is_blank input.unit)
    && leb (length input.proofs) max_proofs
    && all is_cashu_proof input.proofs
    && is_safe input.created_at
    && is_safe input.expires_at
    && ltb input.created_at input.expires_at
    && leb input.expires_at (input.created_at + max_window)

unfoldable pub to_items : List Value → Items
to_items [] = nil
to_items (x ∷ xs) = cons x (to_items xs)

abbrev pub memo_value : Option String → Value
memo_value none = null
memo_value (some s) = string s

-- the array that is encoded
unfoldable pub payload_fingerprint : PayloadFingerprintInput → String → Value
payload_fingerprint input mint = array (
    cons (string "cashu-delivery-v1/payload") (
      cons (string input.request_id) (
        cons (memo_value input.memo) (
          cons (string mint) (
            cons (string input.unit) (
              cons (array (to_items input.proofs)) (
                cons (number (nat 1)) (
                  cons (number (nat input.created_at))
                    (cons (number (nat input.expires_at)) nil)))))))))

-- Buffer.compare
unfoldable pub compare_bytes : List ℕ → List ℕ → Ordering
compare_bytes [] [] = Ordering.eq
compare_bytes [] (b ∷ t) = Ordering.lt
compare_bytes (a ∷ s) [] = Ordering.gt
compare_bytes (a ∷ s) (b ∷ t) =
    let rest = compare_bytes s t in
    elim (compare a b) [
      | Ordering.lt ↦ Ordering.lt
      | Ordering.gt ↦ Ordering.gt
      | Ordering.eq ↦ rest
    ]

unfoldable pub insert_point : List ℕ → List (List ℕ) → List (List ℕ)
insert_point y [] = y ∷ []
insert_point y (z ∷ zs) =
    let rest = insert_point y zs in
    elim (compare_bytes y z) [ Ordering.gt ↦ z ∷ rest | _ ↦ y ∷ z ∷ zs ]

-- ys.sort(Buffer.compare)
unfoldable pub sort_points : List (List ℕ) → List (List ℕ)
unfolding insert_point
sort_points [] = []
sort_points (y ∷ ys) = insert_point y (sort_points ys)

-- no two neighbours are equal
unfoldable pub has_no_repeat : List (List ℕ) → Bool
has_no_repeat [] = true
has_no_repeat (y ∷ []) = true
has_no_repeat (y ∷ z ∷ zs) =
    (elim (compare_bytes y z) [ Ordering.eq ↦ false | _ ↦ true ]) && has_no_repeat (z ∷ zs)

-- 33 bytes of which the first is 2 or 3
unfoldable pub has_point_shape : List ℕ → Bool
has_point_shape [] = false
has_point_shape (b ∷ bs) = length bs == 32 && (b == 2 || b == 3)

unfoldable pub same_bytes : List ℕ → List ℕ → Bool
same_bytes a b = elim (compare_bytes a b) [ Ordering.eq ↦ true | _ ↦ false ]

module _ (platform : Platform) (codec : Codec) where
  unfoldable pub encode_payload_fingerprint :
      PayloadFingerprintInput → Result DeliveryErrorCode (List ℕ)
  encode_payload_fingerprint input = do
    parse_protocol_id platform input.request_id
    ensure (is_payload_input input) invalid_fingerprint_input
    mint ← normalize_mint_url platform input.mint
    ok (codec.encode_cbor (payload_fingerprint input mint))

  unfoldable pub compute_payload_hash : PayloadFingerprintInput → Result DeliveryErrorCode String
  compute_payload_hash input = do
    encoded ← encode_payload_fingerprint input
    ok (codec.sha256_hex encoded)

module _ (codec : Codec) where
  unfoldable pub parse_compressed_point : List ℕ → Result DeliveryErrorCode (List ℕ)
  parse_compressed_point value = do
    ensure (has_point_shape value) invalid_proof_point
    elim (codec.convert_key value) [
      | none ↦ err invalid_proof_point
      | some canonical ↦
          if same_bytes canonical value then ok canonical else err invalid_proof_point
    ]

  -- input.ys.map(parseCompressedPoint)
  unfoldable pub parse_points : List (List ℕ) → Result DeliveryErrorCode (List (List ℕ))
  parse_points [] = ok []
  parse_points (y ∷ ys) = do y' ← parse_compressed_point y; ys' ← parse_points ys; ok (y' ∷ ys')

  unfoldable pub canonical_ys : String → List (List ℕ) → Result DeliveryErrorCode (List (List ℕ))
  canonical_ys unit ys = do
    throw_if (is_blank unit) invalid_fingerprint_input
    points ← parse_points ys
    ensure (has_no_repeat (sort_points points)) duplicate_proof_point
    ok (sort_points points)

module _ (platform : Platform) (codec : Codec) where
  unfoldable pub encode_proof_set_fingerprint :
      String → String → List (List ℕ) → Result DeliveryErrorCode (List ℕ)
  encode_proof_set_fingerprint mint unit ys = do
    points ← canonical_ys codec unit ys
    normalized ← normalize_mint_url platform mint
    ok (codec.encode_points "cashu-delivery-v1/proof-set" normalized unit points)

  unfoldable pub compute_proof_set_hash :
      String → String → List (List ℕ) → Result DeliveryErrorCode String
  compute_proof_set_hash mint unit ys = do
    encoded ← encode_proof_set_fingerprint mint unit ys
    ok (codec.sha256_hex encoded)
