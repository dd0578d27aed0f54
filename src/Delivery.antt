-- ===== src/Delivery.antt =====
-- packages/delivery-core/src: the delivery profile's own rules.
pub mod Errors
pub mod Platform
pub mod Ids
pub mod MintUrl
pub mod Amount
pub mod Receipt
pub mod Duplicate
pub mod Checkpoint
pub mod Codec
pub mod Fingerprint
pub mod Payload
