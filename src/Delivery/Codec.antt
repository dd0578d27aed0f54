-- ===== src/Delivery/Codec.antt =====
-- What delivery-core takes from the cborg library and from Node: the deterministic CBOR encoding, the
-- SHA-256 digest, JSON with its UTF-8 text, and the conversion of secp256k1 points.
use cashu_fault_lab.Common.{ℕ, String, Option, List, Value}

pub record Codec : Type 0 where
  -- encode(value, rfc8949EncodeOptions)
  pub encode_cbor : Value → List ℕ
  -- the same for an array of a label, the mint, the unit and byte strings
  pub encode_points : String → String → String → List (List ℕ) → List ℕ
  -- createHash('sha256').update(bytes).digest('hex')
  pub sha256_hex : List ℕ → String
  -- new TextEncoder().encode(JSON.stringify(value))
  pub stringify_json : Value → List ℕ
  -- JSON.parse of the fatal UTF-8 decoding; `none` if either throws
  pub parse_json : List ℕ → Option Value
  -- ECDH.convertKey to a compressed point; `none` if it throws
  pub convert_key : List ℕ → Option (List ℕ)
