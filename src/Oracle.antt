-- ===== src/Oracle.antt =====
-- packages/oracle/src: the oracle over the observations of a run.
pub mod Model
pub mod Commands
pub mod Loop
pub mod Invariants
