-- ===== src/Sender/Send.antt =====
-- apps/reference-sender/src/send-payment.ts: `runAttempts`, `sendPayment` and `resumePayment`.
pub mod Judge
pub mod Build
use cashu_fault_lab.Common.{
  ℕ, zero, suc, ◌+◌, String, Bool, true, false, not, ◌&&◌, ◌||◌, leb, ltb, if◌then◌else◌, List, [],
  ◌∷◌, is_empty, Option, none, some, is_some, Number, nat, is_safe, includes, str_eq, Result, ok,
  err, ensure, throw_if, map_err, get,
}
use cashu_fault_lab.Common.Tasks.{pure, throw, lift, ◌>>=◌, ◌>>◌, attempt}
use cashu_fault_lab.Delivery.Platform.{Platform}
use cashu_fault_lab.Delivery.Codec.{Codec}
use cashu_fault_lab.Delivery.Ids.{parse_protocol_id}
use cashu_fault_lab.Delivery.Amount.{assert_exact_requested_amount}
use cashu_fault_lab.Delivery.Receipt.{DeliveryReceipt}
use cashu_fault_lab.Delivery.Payload.{
  DeliveryPayload, DeliveryMetadata, objects, serialize_delivery_payload,
}
use cashu_fault_lab.Delivery.Fingerprint.{PayloadFingerprintInput, compute_payload_hash}
use cashu_fault_lab.Sender.Types.{
  TransportTarget, TransportResult, SenderPaymentRequest, SenderDeliveryStatus, sending, settled,
  rejected, recovery_required, SenderDeliveryRecord, ReservePayment, ReservedProofSet,
  SendPaymentOutcome, paid, refused, unresolved, SendError, validation, invalid, aggregate,
  SenderPorts, Act, reserved, marked_settled, released, marked_recovery, sent, slept, World,
}
use cashu_fault_lab.Sender.State.{Sending, create_record, save_record, find}
use cashu_fault_lab.Sender.Retry.{retry_delay, check_seed}
use Judge.{AttemptVerdict, settle, refuse, again, judge}
use Build.{
  SendPaymentOptions, validate_max_attempts, payload_for, build_record, later_than, valid_now,
  first_target, reservation,
}

-- transports[Math.min(attempts, transports.length - 1)]. A request that is sent has a transport; for
-- an empty list this is the target given
unfoldable pub target_at : List TransportTarget → ℕ → TransportTarget → TransportTarget
target_at [] n last = last
target_at (t ∷ ts) zero last = t
target_at (t ∷ ts) (suc n) last = target_at ts n t

-- the record of the next attempt
unfoldable pub begun_attempt : SenderDeliveryRecord → SenderDeliveryRecord
begun_attempt r = record r {
  target = target_at r.request.transports r.attempts r.target;
  attempts = r.attempts + 1;
}

unfoldable pub with_status : SenderDeliveryStatus → SenderDeliveryRecord → SenderDeliveryRecord
with_status status r = record r { status = status }

-- the call of a port: what it asks for, then its answer
unfoldable pub use_port : {A : Type 0} → Act → (ℕ → Result SendError A) → Sending A
use_port act port w = (port w.answers, record w { acts = act ∷ w.acts; answers = w.answers + 1 })

unfoldable pub read : {A : Type 0} → (ℕ → A) → Sending A
read port w = (ok (port w.answers), record w { answers = w.answers + 1 })

module _ (ports : SenderPorts) where
  unfoldable pub mark_settled : String → Sending (Unit {0})
  mark_settled id = use_port (marked_settled id) (λ n. ports.mark_settled n id)

  unfoldable pub release_rejected : String → Sending (Unit {0})
  release_rejected id = use_port (released id) (λ n. ports.release_rejected n id)

  unfoldable pub mark_recovery_required : String → Sending (Unit {0})
  mark_recovery_required id = use_port (marked_recovery id) (λ n. ports.mark_recovery_required n id)

  -- the transport's answer, none where it throws
  unfoldable pub dispatch : SenderDeliveryRecord → Sending (Option TransportResult)
  dispatch r =
      attempt
        (do
          result ←
              use_port (sent r.delivery_id r.payload_bytes r.target)
                (λ n. ports.send n r.payload_bytes r.target)
          pure (some result))
        (λ _. pure none)

  unfoldable pub pause : String → ℕ → Sending (Unit {0})
  pause seed local = do
    delay ← lift (map_err (λ _. invalid) (retry_delay local (ports.digest seed local) 250 30000))
    use_port (slept delay) (λ _. ok tt)

  -- after the loop
  unfoldable pub finish : SenderDeliveryRecord → Sending SendPaymentOutcome
  finish r = do
    save_record (with_status recovery_required r)
    mark_recovery_required r.delivery_id
    pure (unresolved r.delivery_id r.receipt)

  -- the wait between two attempts; there is none after the last one
  unfoldable pub try_again :
      String
      → ℕ
      → ℕ
      → (SenderDeliveryRecord → Sending SendPaymentOutcome)
      → SenderDeliveryRecord
      → Sending SendPaymentOutcome
  try_again seed zero local rest r = finish r
  try_again seed (suc left) local rest r = do pause seed local; rest r

  unfoldable pub conclude :
      (SenderDeliveryRecord → Sending SendPaymentOutcome)
      → SenderDeliveryRecord × AttemptVerdict
      → Sending SendPaymentOutcome
  conclude next (r, settle receipt) = do
    save_record (with_status settled r)
    mark_settled r.delivery_id
    pure (paid r.delivery_id receipt)
  conclude next (r, refuse receipt) = do
    save_record (with_status rejected r)
    release_rejected r.delivery_id
    pure (refused r.delivery_id receipt)
  conclude next (r, again retry) = do save_record r; if retry then next r else finish r

unfoldable pub is_final_status : SenderDeliveryStatus → Bool
is_final_status settled = true
is_final_status rejected = true
is_final_status _ = false

-- whether the delivery has its terminal state
unfoldable pub is_finished : Option SenderDeliveryRecord → Bool
is_finished none = false
is_finished (some r) = is_final_status r.status

module _ (platform : Platform) (ports : SenderPorts) where
  -- one pass of the loop's body
  unfoldable pub try_once :
      (SenderDeliveryRecord → Sending SendPaymentOutcome)
      → SenderDeliveryRecord
      → Sending SendPaymentOutcome
  try_once next r = do
    save_record (begun_attempt r)
    result ← dispatch ports (begun_attempt r)
    conclude ports next (judge platform (begun_attempt r) result)

  -- the loop, with the number of attempts that are left and of those made
  unfoldable pub attempts_from : String → ℕ → ℕ → SenderDeliveryRecord → Sending SendPaymentOutcome
  attempts_from seed zero local = finish ports
  attempts_from seed (suc left) local =
      let rest = attempts_from seed left (local + 1) in
      try_once (try_again ports seed left local rest)

  unfoldable pub run_attempts :
      SenderDeliveryRecord → SendPaymentOptions → Sending SendPaymentOutcome
  run_attempts initial options = do
    max_attempts ← lift (validate_max_attempts options.max_attempts)
    lift (map_err (λ _. invalid) (check_seed options.seed))
    attempts_from options.seed max_attempts 0 initial

module _ (ports : SenderPorts) where
  unfoldable pub mark_and_throw : {A : Type 0} → String → SendError → Sending A
  mark_and_throw id error = do
    attempt (mark_recovery_required ports id) (λ mark_error. throw (aggregate error mark_error))
    throw error

  -- unless the delivery is finished
  unfoldable pub mark_recovery_after : {A : Type 0} → String → SendError → Sending A
  mark_recovery_after id error = do
    persisted ← find id
    if is_finished persisted then throw error else mark_and_throw id error

module _ (platform : Platform) (codec : Codec) (ports : SenderPorts) where
  unfoldable pub reserve_exact : SenderPaymentRequest → String → Sending ReservedProofSet
  reserve_exact request id =
      use_port (reserved id) (λ n. ports.reserve_exact n (reservation request id))

  -- the record of the reserved payment, with recovery marked where it cannot be made or stored
  unfoldable pub prepare_record :
      SenderPaymentRequest
      → TransportTarget
      → DeliveryPayload
      → ReservedProofSet
      → Sending SenderDeliveryRecord
  prepare_record request target payload proofs = do
    r ← lift (build_record platform codec request target payload proofs)
    create_record r
    pure r

  -- what is done under the lock of the delivery
  unfoldable pub send_locked :
      SenderPaymentRequest
      → SendPaymentOptions
      → TransportTarget
      → ℕ
      → ℕ
      → String
      → Sending SendPaymentOutcome
  send_locked request options target now expires_at id = do
    existing ← find id
    lift (throw_if (is_some existing) invalid)
    proofs ← reserve_exact request id
    let payload = payload_for request options.memo now expires_at id proofs
    r ← attempt (prepare_record request target payload proofs) (mark_and_throw ports id)
    attempt (run_attempts platform ports r options) (mark_recovery_after ports id)

  unfoldable pub send_payment :
      SenderPaymentRequest → SendPaymentOptions → Sending SendPaymentOutcome
  send_payment request options = do
    lift (map_err validation (parse_protocol_id platform request.id))
    time ← read ports.now
    now ← lift (valid_now time)
    expires_at ← lift (later_than now request.expires_at)
    target ← lift (first_target request)
    lift (validate_max_attempts options.max_attempts)
    lift (map_err (λ _. invalid) (check_seed options.seed))
    id ← read ports.generate_delivery_id
    lift (map_err validation (parse_protocol_id platform id))
    send_locked request options target now expires_at id

module _ (platform : Platform) (ports : SenderPorts) where
  unfoldable pub resume_record :
      SenderDeliveryRecord
      → Option DeliveryReceipt
      → SenderDeliveryStatus
      → SendPaymentOptions
      → Sending SendPaymentOutcome
  resume_record r (some receipt) settled options = do
    mark_settled ports r.delivery_id
    pure (paid r.delivery_id receipt)
  resume_record r (some receipt) rejected options = do
    release_rejected ports r.delivery_id
    pure (refused r.delivery_id receipt)
  resume_record r receipt status options =
      run_attempts platform ports (with_status sending r) options

  unfoldable pub resume_found :
      Option SenderDeliveryRecord → SendPaymentOptions → Sending SendPaymentOutcome
  resume_found none options = throw invalid
  resume_found (some r) options = resume_record r r.receipt r.status options

  unfoldable pub resume_payment : String → SendPaymentOptions → Sending SendPaymentOutcome
  resume_payment id options = do found ← find id; resume_found found options
