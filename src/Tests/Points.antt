-- ===== src/Tests/Points.antt =====
-- The order of the proofs does not show in the hash of a proof set, and a repeated one is refused.
use cashu_fault_lab.Common.{
  ℕ, ◌≡◌, refl, some, none, List, [], ◌∷◌, replicate, string, array, object, nil, cons, field, end,
  ok, err, property, is_hash,
}
use cashu_fault_lab.Delivery.Errors.{duplicate_proof_point}
use cashu_fault_lab.Delivery.Codec.{Codec}
use cashu_fault_lab.Delivery.MintUrl.{canonical_path, normalize_mint_url}
use cashu_fault_lab.Delivery.Fingerprint.{
  compare_bytes, insert_point, sort_points, has_no_repeat, has_point_shape, same_bytes,
  parse_compressed_point, parse_points, canonical_ys, encode_proof_set_fingerprint,
  compute_proof_set_hash,
}
use cashu_fault_lab.Relay.Partition.{list_of, hex_of, kind_of, every, list_at, validate_partition}
use cashu_fault_lab.Tests.Samples.{platform, mint, hash}

abbrev codec : Codec
codec = record {
  encode_cbor = λ _. [];
  encode_points = λ _ _ _ _. [];
  sha256_hex = λ _. hash;
  stringify_json = λ _. [];
  parse_json = λ _. none;
  convert_key = λ bytes. some bytes;
}

abbrev point : ℕ → List ℕ
point n = 2 ∷ n ∷ replicate 31 0

sorted :
    canonical_ys codec "sat" (point 7 ∷ point 3 ∷ [])
    ≡ canonical_ys codec "sat" (point 3 ∷ point 7 ∷ [])
unfolding compare_bytes insert_point sort_points has_no_repeat has_point_shape same_bytes
    parse_compressed_point parse_points canonical_ys
sorted = refl

repeated :
    compute_proof_set_hash platform codec mint "sat" (point 3 ∷ point 3 ∷ [])
    ≡ err duplicate_proof_point
unfolding compare_bytes insert_point sort_points has_no_repeat has_point_shape same_bytes
    parse_compressed_point parse_points canonical_ys encode_proof_set_fingerprint
    compute_proof_set_hash
repeated = refl

hashed : compute_proof_set_hash platform codec mint "sat" (point 3 ∷ []) ≡ ok hash
unfolding compare_bytes insert_point sort_points has_no_repeat has_point_shape same_bytes
    parse_compressed_point parse_points canonical_ys encode_proof_set_fingerprint
    compute_proof_set_hash canonical_path normalize_mint_url
hashed = refl

-- a partition of the relay's history
split :
    validate_partition (object (field "eventIds" (array (cons (string hash) nil)) end))
    ≡ ok (record { event_ids = hash ∷ []; kinds = []; authors = [] })
unfolding list_of hex_of kind_of every list_at validate_partition property is_hash
split = refl
