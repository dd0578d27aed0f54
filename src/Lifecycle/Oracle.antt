-- ===== src/Lifecycle/Oracle.antt =====
-- packages/wallet-lifecycle-oracle/src: what the observations of a wallet's life must satisfy.
pub mod Model
pub mod Balances
pub mod Evaluate
pub mod Sums
pub mod Movement
pub mod Conservation
pub mod Quotes
pub mod Quiescence
pub mod Evidence
pub mod Rest
pub mod Commands
