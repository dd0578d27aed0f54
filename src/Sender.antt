-- ===== src/Sender.antt =====
-- apps/reference-sender/src: the sender of payments.
pub mod Types
pub mod Retry
pub mod State
pub mod Send
pub mod Safety
