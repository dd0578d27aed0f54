-- ===== src/Sender/Safety/Reserved.antt =====
-- `sendPayment` from the reservation of the proofs on.
use mathlib.Core.Path.{subst}
use cashu_fault_lab.Common.{
  ℕ, String, true, false, ◌≡◌, refl, sym, ◌∙◌, Option, none, some, is_some, List, ok, err, Result,
  arith, inr, throw_if, get, any,
}
use cashu_fault_lab.Common.Tasks.{pure, lift}
use cashu_fault_lab.Common.Tasks.Holds.{Holds, bind-Holds, then-Holds, attempt-Holds, lift-Result}
use cashu_fault_lab.Delivery.Platform.{Platform}
use cashu_fault_lab.Delivery.Codec.{Codec}
use cashu_fault_lab.Delivery.Payload.{DeliveryPayload}
use cashu_fault_lab.Sender.Types.{
  SenderDeliveryRecord, SenderPaymentRequest, TransportTarget, ReservedProofSet, World, SenderPorts,
  SendError, SendPaymentOutcome, invalid,
}
use cashu_fault_lab.Sender.State.{find}
use cashu_fault_lab.Sender.Send.{
  use_port, is_finished, is_final_status, prepare_record, reserve_exact, send_locked,
}
use cashu_fault_lab.Sender.Send.Build.{
  SendPaymentOptions, build_record, first_record, reservation, payload_for,
}
use cashu_fault_lab.Sender.Safety.Payments.{build_record-first, first_record-delivery_id}
use cashu_fault_lab.Sender.Safety.Pending.{
  is_mark, Told, Pending, ToldOrPending, create_record-Pending,
}
use cashu_fault_lab.Sender.Safety.Marks.{
  mark_and_throw-Told, mark_recovery_after-Told, run_attempts-AllMark,
}

first_record-is_final :
    (request : SenderPaymentRequest) (id : String) (target : TransportTarget)
    (payload : DeliveryPayload) (bytes : List ℕ) (hash : String)
    → is_final_status (first_record request id target payload bytes hash).status ≡ false
unfolding first_record is_final_status
first_record-is_final request id target payload bytes hash = refl

module _ (platform : Platform) (codec : Codec) (ports : SenderPorts) (id : String) where
  prepare_record-Pending :
      (request : SenderPaymentRequest) (target : TransportTarget) (payload : DeliveryPayload)
      (set : ReservedProofSet) (w : World)
      → payload.delivery.id ≡ id
      → Pending id w
      → Holds
          (λ r v. Pending id v × (is_final_status r.status ≡ false) × (r.delivery_id ≡ id))
          (ToldOrPending id)
          (prepare_record platform codec ports request target payload set w)
  unfolding prepare_record pure
  prepare_record-Pending request target payload set w e h =
      bind-Holds _ _ _ _ _ w
        (lift-Result (Pending id) (ToldOrPending id)
          (build_record platform codec request target payload set) w h (inr h))
        (λ r v k.
          let (bytes, hash, _, _, q) =
            build_record-first platform codec request target payload set r k.0 in
          let f =
            subst (λ z. is_final_status z.status ≡ false) (sym q)
              (first_record-is_final request payload.delivery.id target payload bytes hash) in
          let d =
            subst (λ z. z.delivery_id ≡ id) (sym q)
              (first_record-delivery_id request payload.delivery.id target payload bytes hash
                ∙ e) in
          then-Holds (λ _ u. Pending id u) _ _ _ _ v (create_record-Pending id r v f k.1)
            (λ _ u s. (s, f, d)))

  no-record-lift :
      (found : Option SenderDeliveryRecord) (n : ℕ) (w : World)
      → found ≡ none
      → Pending id w × (w.answers ≡ n)
      → Holds
          (λ _ v. Pending id v × (v.answers ≡ n))
          (Told id)
          (lift {E = SendError} (throw_if (is_some found) invalid) w)
  unfolding lift
  no-record-lift none n w e h = h
  no-record-lift (some r) n w e h = ground arith

  reserve_exact-Pending :
      (request : SenderPaymentRequest) (n : ℕ) (set : ReservedProofSet) (w : World)
      → ports.reserve_exact n (reservation request id) ≡ ok set
      → Pending id w × (w.answers ≡ n)
      → Holds (λ _ v. Pending id v) (Told id) (reserve_exact platform codec ports request id w)
  unfolding reserve_exact use_port
  reserve_exact-Pending request n set w e h = rw (h.1, e) h.0

  absent-Pending : (w : World) → get w.records id ≡ none → Pending id w
  unfolding is_finished
  absent-Pending w e = rw e refl

  Told-world :
      (x : Result SendError SendPaymentOutcome × World)
      → Holds (λ _ v. Told id v) (Told id) x
      → Told id x.1
  Told-world (ok a, v) h = h
  Told-world (err e, v) h = h

  send_locked-Holds :
      (request : SenderPaymentRequest) (options : SendPaymentOptions) (target : TransportTarget)
      (now expires_at : ℕ) (w : World) (set : ReservedProofSet)
      → get w.records id ≡ none
      → ports.reserve_exact w.answers (reservation request id) ≡ ok set
      → Holds
          (λ _ v. Told id v)
          (Told id)
          (send_locked platform codec ports request options target now expires_at id w)
  unfolding send_locked find payload_for
  send_locked-Holds request options target now expires_at w set e f =
      let n = w.answers in
      bind-Holds (λ found v. (found ≡ none) × Pending id v × (v.answers ≡ n)) _ _ _ _ w
        (e, absent-Pending w e, refl)
        (λ found v k.
          then-Holds (λ _ u. Pending id u × (u.answers ≡ n)) _ _ _ _ v
            (no-record-lift found n v k.0 (k.1, k.2))
            (λ _ u g.
              bind-Holds (λ _ t. Pending id t) _ _ _ _ u (reserve_exact-Pending request n set u f g)
                (λ proofs t p.
                  bind-Holds
                    (λ r s.
                      Pending id s × (is_final_status r.status ≡ false) × (r.delivery_id ≡ id))
                    _ _ _ _ t
                    (attempt-Holds _ (ToldOrPending id) _ _ _ t
                      (prepare_record-Pending request target _ proofs t refl p)
                      (λ e s _. mark_and_throw-Told id ports _ e s))
                    (λ r s h.
                      attempt-Holds _ (ToldOrPending id) _ _ _ s
                        (run_attempts-AllMark id platform ports options r s h.2 h.1 h.0)
                        (λ e q k. mark_recovery_after-Told id ports _ e q k)))))

  -- Once the wallet has reserved proofs for a new delivery, then, whatever the wallet, the transport
  -- and the store do afterwards, sendPayment returns or throws only after the wallet was asked to mark
  -- the delivery settled, to release its proofs or to mark it for recovery.
  pub send_locked-Told :
      (request : SenderPaymentRequest) (options : SendPaymentOptions) (target : TransportTarget)
      (now expires_at : ℕ) (w : World) (set : ReservedProofSet)
      → get w.records id ≡ none
      → ports.reserve_exact w.answers (reservation request id) ≡ ok set
      → any
          (is_mark id)
          (send_locked platform codec ports request options target now expires_at id w).1.acts
        ≡ true
  send_locked-Told request options target now expires_at w set e f =
      Told-world _ (send_locked-Holds request options target now expires_at w set e f)
