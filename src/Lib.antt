-- ===== src/Lib.antt =====
-- Cashu Fault Lab: deliveries, their sender, receiver, oracle and relay, the wallet lifecycle, and the
-- wallet doctor.
--
-- Cashu Fault Lab tests how Cashu wallets and merchants survive faults. A sender delivers ecash
-- proofs for a payment request; the receiver redeems them at a mint, credits the merchant once,
-- and answers with a receipt that says how far it is. This library models the rules of payloads
-- and receipts, the receiver with its store, the sender with its wallet and state, the oracle that
-- judges the observations of a run, the fault rules of the HTTP gateway and of the Nostr relay, and
-- the wallet doctor with its diagnoses and repair plans. Beside them stand the operations of a wallet
-- and the oracle of their observations.
--
-- Parts:
--   Common      shared helpers: tests on numbers and texts, integers, lists, JavaScript values,
--               results of code that may throw, what is found in a list, and maps keyed by text
--               with their laws.
--   Delivery    packages/delivery-core/src: errors.ts (Errors), ids.ts (Ids), mint-url.ts (MintUrl),
--               amount.ts (Amount), receipt.ts (Receipt and its children), duplicate.ts (Duplicate),
--               crash-boundary.ts (Checkpoint), fingerprint.ts (Fingerprint), payload.ts (Payload).
--   Receiver    apps/reference-receiver/src: domain/types.ts (Types), domain/request-binding.ts and
--               adapters/store-helpers.ts (Binding), adapters/memory-store.ts (Store and its
--               children), domain/accept-delivery.ts, domain/recover-delivery.ts and the ports that
--               they use (Recovery: Tasks for code that awaits, Flow for the two handlers, Dispatch
--               for the requests in flight). Receiver/Safety holds what is kept between transactions.
--   Lifecycle   packages/wallet-lifecycle-core/src: types.ts and operation.ts (Operation; Identity for
--               the form of an identity, Transitions for its life), and
--               packages/wallet-lifecycle-oracle/src: model.ts, invariants.ts and commands.ts (Oracle
--               and its children; Evidence and Rest describe the operations at rest).
--   Sender      apps/reference-sender/src: the types of state.ts and ports/ (Types), retry.ts (Retry),
--               the in-memory store of state.ts (State), send-payment.ts (Send: Judge for what it
--               makes of an answer, Build for the record of a payment). Sender/Safety holds what is
--               kept over payments and resumptions.
--   Oracle      packages/oracle/src: model.ts (Model), commands.ts (Commands), and invariants.ts: its
--               loop over the observations (Loop), and what follows it (Invariants).
--   Relay       apps/nostr-fault-relay/src/rules.ts: the rules (Rules), the partition of the history
--               (Partition), the fault control (Control), and how often a rule is applied (Budget).
--   Gateway     apps/http-fault-gateway/src: rules.ts (Rules) and control.ts (Control), with what the
--               control keeps (Bounds) and how it numbers attempts (Ordinals).
--   Doctor      packages/wallet-doctor-core/src: types.ts (Types), reconstruct.ts (Reconstruct for the
--               relays, Merge for the merged view) and plan.ts (Plan); and
--               packages/wallet-doctor-oracle/src: plan-check.ts (Check), diagnose.ts (Findings, Explain,
--               Diagnose) and plan-build.ts (Build). The proofs: events by their IDs (Events), plans that
--               can be simulated (Resolved), what the steps of a plan keep (Covered, Live), the check
--               (Safety, Reported), balances (Balance), the IDs of planned rollovers (Names, Built),
--               built plans (Steps, Consolidated, Kept), and a plan that is simulated twice (Replay).
--   Tests       runs at concrete inputs.
--
-- How they interact: the store validates and advances receipts with the functions of Delivery, and
-- accepts a delivery in the transactions that Receiver/Store defines. A request of the receiver is a
-- task that runs in pieces between its awaits, and the pieces of requests in flight interleave in any
-- order (Recovery/Dispatch), guarded by the redemption lock. The properties of the store are about
-- every sequence of calls, `run`, from the empty store, each call returning or throwing. The calls are
-- all methods that change the store but `reset`, which empties it; reads change nothing.
-- The sender builds a payload with Delivery, stores it, sends it and judges the receipts that come
-- back with the same functions. The operations of one delivery do not interleave, since the source
-- holds a lock of the delivery; `perform_all` runs any sequence of them, each with ports of its own.
-- The doctor reconstructs a wallet from its relays, diagnoses it, builds a plan and checks the plan, by
-- simulating it, against what the mints report. The sender and the receiver meet in the payload and
-- the receipt only: each is modelled against whatever the other answers.
--
-- Correspondence:
--   - a function that throws returns a `Result`; the error's type has the codes of the source
--     (DeliveryErrorCode, ReceiverErrorCode), without the messages;
--   - a Map or Set of the source is an association list keyed by text; a read of a missing key is
--     `none`, as in `get`. The doctor's sets are the lists of their members;
--   - `#transaction` works on a copy of the state and keeps it only if the operation returns; the
--     model passes the draft on and drops it on an error. `structuredClone` has no counterpart, since
--     values are not shared;
--   - a JavaScript number is a `Number`: a natural number, a negative integer, or anything else
--     (fractional, not finite), as far as the code tells them apart; safe integers are those up to
--     2^53 - 1, and the checks are written out where the source has them;
--   - unknown JavaScript input of the receipt parser is a `Value`;
--   - a task of the receiver is its end, or a piece that changes the world (the store, the locks, the
--     checkpoint) with the task that follows; every call of the store, the mint, the verifier, the
--     clock and the checkpoint is a piece of its own. What it changed before it threw stays changed.
--     The promise that a `try` block returns without awaiting it runs outside the block, as in the
--     source;
--   - a task of the sender (Common/Tasks) takes the sender's world to a result and a world: its
--     records, and the calls of its ports so far. A transport, a wallet or a clock is a function of
--     the number of answers before, so it may answer anything, and may throw, at every call;
--   - the versions and amounts of the oracle's observations are natural numbers, which is what its
--     typed input carries; a receipt with a fractional or negative amount is outside the model;
--   - a balance of the lifecycle oracle is an integer, and `+` and `-` on it round by the parameter
--     `round` of Platform, as numbers beyond 2^53 do;
--   - the key of the gateway's attempts is the list of its four parts, which the code joins by NUL; no
--     method, path or hash that an HTTP server passes on holds a NUL;
--   - a count or occurrence of a gateway rule is a number or absent; an explicit JSON null is outside
--     the model;
--   - a key of a proof in the doctor, the mint and the point joined by a NUL, is the pair of the two; a
--     finding or a violation has no text;
--   - Node's URL class, String.toLowerCase, the base64url codec and the rounding of sums are the
--     parameter `Platform`; the mint and the proof verifier are parameters of Receiver/Recovery.
--
-- Bounds and fuel: all recursion is structural, so no fuel is used but for the digits of a rollover's
-- index, which has fewer digits than its fuel, the index plus one. The sender's loop runs on the number
-- of attempts that are left. A receipt's version has no upper bound other than the safe-integer check of
-- its validation; the redemption counter is capped at 1000 as in the source.
--
-- CBOR, SHA-256, JSON and the conversion of curve points are the parameter `Codec`; the digest that
-- seeds the delays of the sender is a parameter of its ports. `localeCompare` is a parameter of the
-- doctor, and `sort` without a comparison goes by code points.
--
-- Not modelled: the PostgreSQL stores, the HTTP and Nostr servers, proxies and transports,
-- encryption, the queue behind the sender's delivery lock, the oracle's evidence files, the adapters
-- for wallets, the runners and reports.
pub mod Common
pub mod Delivery
pub mod Lifecycle
pub mod Receiver
pub mod Sender
pub mod Oracle
pub mod Relay
pub mod Gateway
pub mod Doctor
pub mod Tests
