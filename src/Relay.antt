-- ===== src/Relay.antt =====
-- apps/nostr-fault-relay/src/rules.ts: the faults that the relay injects.
pub mod Rules
pub mod Partition
pub mod Control
pub mod Budget
