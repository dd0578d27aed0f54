-- ===== src/Gateway.antt =====
-- apps/http-fault-gateway/src: the faults that the HTTP gateway injects.
pub mod Rules
pub mod Control
pub mod Bounds
pub mod Ordinals
