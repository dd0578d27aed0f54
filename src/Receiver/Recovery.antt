-- ===== src/Receiver/Recovery.antt =====
-- apps/reference-receiver/src/domain: how a delivery is accepted, redeemed and recovered.
pub mod Ports
pub mod Tasks
pub mod Flow
pub mod Traces
pub mod Rules
pub mod Locks
pub mod Walk
pub mod Marks
pub mod Redeem
pub mod Entry
pub mod Dispatch
