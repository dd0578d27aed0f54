-- ===== src/Delivery/Payload/RoundTrip.antt =====
-- What serializeDeliveryPayload writes, parseDeliveryPayloadJson reads back.
use cashu_fault_lab.Common.{
  ℕ, ◌+◌, ◌≤◌, String, ◌≡◌, refl, true, Option, none, some, List, [], ◌∷◌, arith, length, all, leb,
  is_safe, is_blank, nat, Result, ok, ◌>>◌, ensure, throw_if, bind-eq-ok, Value, object, property,
}
use mathlib.Core.Path.{subst}
use cashu_fault_lab.Delivery.Errors.{DeliveryErrorCode, invalid_delivery_payload}
use cashu_fault_lab.Delivery.Platform.{Platform}
use cashu_fault_lab.Delivery.Codec.{Codec}
use cashu_fault_lab.Delivery.Ids.{parse_protocol_id}
use cashu_fault_lab.Delivery.MintUrl.{normalize_mint_url}
use cashu_fault_lab.Delivery.Fingerprint.{
  CashuProof, is_json, is_json_items, is_cashu_proof, is_payload_input, to_items, max_proofs,
  compute_payload_hash, encode_payload_fingerprint, memo_value,
}
use cashu_fault_lab.Delivery.Payload.{
  DeliveryPayload, RawPayload, elements, fields_of_all, fields_of, objects, has_only_keys,
  as_object, as_text, as_time, as_time_value, as_memo, as_proofs, is_one, check_times, payload_keys,
  metadata_keys, read_payload, fingerprint_input, payload_of, payload_wire, build_payload,
  clock_skew_seconds, parse_delivery_payload, serialize_delivery_payload,
  parse_delivery_payload_json,
}

elements-to_items : (xs : List Value) → elements (to_items xs) ≡ xs
unfolding elements to_items
elements-to_items [] = refl
elements-to_items (x ∷ xs) = rw (elements-to_items xs) refl

fields_of_all-objects : (ps : List CashuProof) → fields_of_all (objects ps) ≡ ps
unfolding fields_of_all objects fields_of
fields_of_all-objects [] = refl
fields_of_all-objects (p ∷ ps) = rw (fields_of_all-objects ps) refl

raw_of : DeliveryPayload → RawPayload
raw_of p = record {
  id = p.id;
  memo = p.memo;
  mint = p.mint;
  unit = p.unit;
  proofs = objects p.proofs;
  delivery_id = p.delivery.id;
  created_at = p.delivery.created_at;
  expires_at = p.delivery.expires_at;
}

-- the tests that depend on the values of a payload
check_payload : DeliveryPayload → ℕ → Result DeliveryErrorCode (Unit {0})
check_payload p now = do
  throw_if (is_blank p.unit) invalid_delivery_payload
  ensure (leb (length (objects p.proofs)) max_proofs) invalid_delivery_payload
  ensure (is_safe p.delivery.created_at) invalid_delivery_payload
  ensure (is_safe p.delivery.expires_at) invalid_delivery_payload
  check_times now p.delivery.created_at p.delivery.expires_at

as_memo-memo_value : (m : Option String) → as_memo (memo_value m) ≡ ok m
unfolding as_memo
as_memo-memo_value none = refl
as_memo-memo_value (some s) = refl

read_payload-wire :
    (p : DeliveryPayload) (now : ℕ)
    → check_payload p now ≡ ok tt
    → read_payload (payload_wire p) now ≡ ok (raw_of p)
unfolding read_payload payload_wire check_payload raw_of as_object has_only_keys payload_keys
    metadata_keys as_text as_time_value as_time as_proofs is_one property
read_payload-wire p now h =
    ground (arith, as_memo-memo_value p.memo, elements-to_items (objects p.proofs))

read_payload-checks :
    (p : DeliveryPayload) (now : ℕ) (raw : RawPayload)
    → read_payload (payload_wire p) now ≡ ok raw
    → (check_payload p now ≡ ok tt) × (raw ≡ raw_of p)
unfolding read_payload payload_wire check_payload raw_of as_object has_only_keys payload_keys
    metadata_keys as_text as_time_value as_time as_proofs is_one property
read_payload-checks p now raw h =
    ground (arith, as_memo-memo_value p.memo, elements-to_items (objects p.proofs))

-- a later reading of a payload that was in order when it was made
check_payload-later :
    (p : DeliveryPayload) (now later : ℕ)
    → check_payload p now ≡ ok tt
    → p.delivery.created_at ≤ later + clock_skew_seconds
    → later ≤ p.delivery.expires_at + clock_skew_seconds
    → check_payload p later ≡ ok tt
unfolding check_payload check_times
check_payload-later p now later h a b = ground arith

check_payload-safe :
    (p : DeliveryPayload) (now : ℕ)
    → check_payload p now ≡ ok tt
    → (is_safe p.delivery.created_at ≡ true) × (is_safe p.delivery.expires_at ≡ true)
unfolding check_payload
check_payload-safe p now h = ground arith

is_cashu_proof-is_json : (x : Value) → is_cashu_proof x ≡ true → is_json x ≡ true
unfolding is_cashu_proof
is_cashu_proof-is_json (object fs) h = ground arith
is_cashu_proof-is_json x h = ground arith

memo_value-is_json : (m : Option String) → is_json (memo_value m) ≡ true
unfolding is_json
memo_value-is_json none = refl
memo_value-is_json (some s) = refl

is_json_items-all :
    (xs : List Value) → all is_cashu_proof xs ≡ true → is_json_items (to_items xs) ≡ true
unfolding is_json_items to_items
is_json_items-all [] h = refl
is_json_items-all (x ∷ xs) h = ground (arith, is_cashu_proof-is_json x, is_json_items-all xs)

-- what the construction of a payload has tested
build_payload-checks :
    (platform : Platform) (codec : Codec) (raw : RawPayload) (q : DeliveryPayload)
    → build_payload platform codec raw ≡ ok q
    → (m : String) × (normalize_mint_url platform raw.mint ≡ ok m)
      × (all is_cashu_proof raw.proofs ≡ true)
      × (q ≡ payload_of raw m)
unfolding build_payload compute_payload_hash encode_payload_fingerprint is_payload_input
    fingerprint_input
build_payload-checks platform codec raw q h =
    let (a, ha, ka) = bind-eq-ok (parse_protocol_id platform raw.id) _ h in
    let (m, hm, km) = bind-eq-ok (normalize_mint_url platform raw.mint) _ ka in
    (m, hm, ground arith, ground arith)

payload_wire-is_json :
    (p : DeliveryPayload)
    → all is_cashu_proof (objects p.proofs) ≡ true
    → is_safe p.delivery.created_at ≡ true
    → is_safe p.delivery.expires_at ≡ true
    → is_json (payload_wire p) ≡ true
unfolding is_json payload_wire
payload_wire-is_json p h c e =
    ground (arith, is_json_items-all (objects p.proofs) h, memo_value-is_json p.memo)

module _ (platform : Platform) (codec : Codec) (p : DeliveryPayload) where
  parsed_wire :
      (now : ℕ) (q : DeliveryPayload)
      → parse_delivery_payload platform codec (payload_wire p) (nat now) ≡ ok q
      → (check_payload p now ≡ ok tt) × (build_payload platform codec (raw_of p) ≡ ok q)
  unfolding parse_delivery_payload as_time
  parsed_wire now q h =
      let (n, hn, kn) = bind-eq-ok (as_time (nat now)) _ h in
      let same : n ≡ now = ground arith in
      let (raw, hr, kr) = bind-eq-ok (read_payload (payload_wire p) n) _ kn in
      let (c, e) = read_payload-checks p n raw hr in (rw (← same) c, rw (← e) kr)

  parse_wire :
      (now : ℕ) (q : DeliveryPayload)
      → is_safe now ≡ true
      → check_payload p now ≡ ok tt
      → build_payload platform codec (raw_of p) ≡ ok q
      → parse_delivery_payload platform codec (payload_wire p) (nat now) ≡ ok q
  unfolding parse_delivery_payload as_time
  parse_wire now q s c b = ground (arith, read_payload-wire p now c)

  -- the payload that is built from the wire object of a canonical payload is that payload
  built_again :
      (q : DeliveryPayload)
      → normalize_mint_url platform p.mint ≡ ok p.mint
      → build_payload platform codec (raw_of p) ≡ ok q
      → (q ≡ p) × (all is_cashu_proof (objects p.proofs) ≡ true)
  unfolding raw_of payload_of
  built_again q canonical b =
      let (m, normal, proofs, e) = build_payload-checks platform codec (raw_of p) q b in
      let same : m ≡ p.mint = ground arith in
      (ground (arith, fields_of_all-objects p.proofs), proofs)

-- A payload whose mint is in canonical form is read back from its bytes unchanged, at any time
-- inside its validity window widened by the clock skew, where JSON.parse reads back what
-- JSON.stringify wrote for its wire object, should that hold JSON values only.
pub parse_delivery_payload_json-serialize :
    (platform : Platform) (codec : Codec) (p : DeliveryPayload) (bytes : List ℕ) (now : ℕ)
    → (is_json (payload_wire p) ≡ true
        → codec.parse_json (codec.stringify_json (payload_wire p)) ≡ some (payload_wire p))
    → normalize_mint_url platform p.mint ≡ ok p.mint
    → is_safe now ≡ true
    → p.delivery.created_at ≤ now + 60
    → now ≤ p.delivery.expires_at + 60
    → serialize_delivery_payload platform codec p ≡ ok bytes
    → parse_delivery_payload_json platform codec bytes (nat now) ≡ ok p
unfolding serialize_delivery_payload parse_delivery_payload_json parse_delivery_payload as_time
    clock_skew_seconds
parse_delivery_payload_json-serialize platform codec p bytes now law canonical safe lo hi e =
    let (q, parsed, written) =
      bind-eq-ok
        (parse_delivery_payload platform codec (payload_wire p) (nat p.delivery.created_at)) _ e in
    let (checked, built) = parsed_wire platform codec p p.delivery.created_at q parsed in
    let (same, proofs) = built_again platform codec p q canonical built in
    let (created_safe, expires_safe) = check_payload-safe p p.delivery.created_at checked in
    let later = check_payload-later p p.delivery.created_at now checked lo hi in
    let again = subst (λ z. build_payload platform codec (raw_of p) ≡ ok z) same built in
    let read = parse_wire platform codec p now p safe later again in
    let back = law (payload_wire-is_json p proofs created_safe expires_safe) in
    let done : bytes ≡ codec.stringify_json (payload_wire p) = ground arith in
    ground (arith, back, read)
