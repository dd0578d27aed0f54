-- ===== src/Delivery/Ids.antt =====
-- packages/delivery-core/src/ids.ts
use cashu_fault_lab.Common.{
  ℕ, String, ◌||◌, not, List, ◌==◌, is_base64url, matches, str_eq, length, Result, ok, ◌>>◌, ensure,
  throw_if,
}
use cashu_fault_lab.Delivery.Errors.{DeliveryErrorCode, invalid_protocol_id, invalid_random_source}
use cashu_fault_lab.Delivery.Platform.{Platform}

module _ (platform : Platform) where
  open platform use {decode_base64url, encode_base64url}

  unfoldable pub parse_protocol_id : String → Result DeliveryErrorCode String
  parse_protocol_id value = do
    ensure (matches is_base64url 22 value) invalid_protocol_id
    let decoded = decode_base64url value
    throw_if (not (length decoded == 16) || not (str_eq (encode_base64url decoded) value))
        invalid_protocol_id
    ok value

  -- `source` gives 16 random bytes
  unfoldable pub generate_protocol_id : (ℕ → List ℕ) → Result DeliveryErrorCode String
  unfolding parse_protocol_id
  generate_protocol_id source = do
    let bytes = source 16
    ensure (length bytes == 16) invalid_random_source
    parse_protocol_id (encode_base64url bytes)
