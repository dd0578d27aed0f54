-- ===== src/Receiver.antt =====
-- apps/reference-receiver/src: the receiver of payments.
pub mod Types
pub mod Binding
pub mod Store
pub mod Safety
pub mod Recovery
