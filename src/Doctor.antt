-- ===== src/Doctor.antt =====
-- packages/wallet-doctor-core/src and packages/wallet-doctor-oracle/src: the state of a wallet on its
-- relays, its diagnosis and its repair.
pub mod Types
pub mod Plan
pub mod Replay
pub mod Reconstruct
pub mod Merge
pub mod Check
pub mod Events
pub mod Covered
pub mod Safety
pub mod Findings
pub mod Diagnose
pub mod Balance
pub mod Build
pub mod Names
pub mod Built
pub mod Resolved
pub mod Steps
pub mod Live
pub mod Kept
pub mod Consolidated
pub mod Explain
pub mod Reported
