-- ===== src/Lifecycle.antt =====
-- packages/wallet-lifecycle-core and packages/wallet-lifecycle-oracle: operations of a wallet.
pub mod Operation
pub mod Identity
pub mod Transitions
pub mod Oracle
