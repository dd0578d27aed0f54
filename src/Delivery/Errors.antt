-- ===== src/Delivery/Errors.antt =====
-- packages/delivery-core/src/errors.ts
pub data DeliveryErrorCode : Type 0 where
  invalid_protocol_id invalid_random_source invalid_mint_url insecure_mint_url : DeliveryErrorCode
  invalid_receipt receipt_identity_mismatch status_regression : DeliveryErrorCode
  status_version_conflict invalid_fingerprint_input invalid_proof_point : DeliveryErrorCode
  duplicate_proof_point invalid_delivery_negotiation invalid_delivery_payload : DeliveryErrorCode
  delivery_expired invalid_amount unknown_keyset amount_mismatch : DeliveryErrorCode
