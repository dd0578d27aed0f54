-- ===== src/Sender/Safety.antt =====
-- apps/reference-sender/src: what the wallet is told of a delivery.
pub mod Certificates
pub mod Judged
pub mod Flow
pub mod Attempts
pub mod Payments
pub mod Calls
pub mod Runs
pub mod Sends
pub mod Pending
pub mod Marks
pub mod Reserved
