-- ===== src/Tests.antt =====
-- Tests of the models on concrete inputs, and the theorems applied to them.
mod Samples
mod Delivery
mod Receiver
mod Recovery
mod Lifecycle
mod Sender
mod Points
mod Oracle
mod Relay
mod Doctor
mod Gateway
mod Repair
