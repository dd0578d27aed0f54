-- ===== src/Sender/Safety/Calls.antt =====
-- One call of `sendPayment` or `resumePayment` keeps the sender consistent.
use mathlib.Core.Path.{subst}
use cashu_fault_lab.Common.{String, ◌≡◌, refl, sym, Option, none, some, get, arith}
use cashu_fault_lab.Common.Tasks.{pure, throw}
use cashu_fault_lab.Common.Tasks.Holds.{bind-Holds, then-Holds}
use cashu_fault_lab.Delivery.Platform.{Platform}
use cashu_fault_lab.Delivery.Codec.{Codec}
use cashu_fault_lab.Delivery.Receipt.{DeliveryReceipt}
use cashu_fault_lab.Sender.Types.{
  SenderDeliveryStatus, SenderDeliveryRecord, SenderPaymentRequest, World, SenderPorts,
}
use cashu_fault_lab.Sender.State.{find}
use cashu_fault_lab.Sender.Send.{
  mark_settled, release_rejected, with_status, send_payment, resume_record, resume_found,
  resume_payment,
}
use cashu_fault_lab.Sender.Send.Build.{SendPaymentOptions}
use cashu_fault_lab.Sender.Send.Judge.{has_identity}
use cashu_fault_lab.Sender.Safety.Certificates.{Sound, Certified, Consistent}
use cashu_fault_lab.Sender.Safety.Flow.{use_port-Consistent}
use cashu_fault_lab.Sender.Safety.Attempts.{Keeps, run_attempts-Keeps}
use cashu_fault_lab.Sender.Safety.Payments.{
  Unfinished, unfinished-Ready, read-Keeps, lift-Keeps, send_locked-Keeps,
}

module _ (platform : Platform) (codec : Codec) (ports : SenderPorts) where
  pub send_payment-Keeps :
      (request : SenderPaymentRequest) (options : SendPaymentOptions) (w : World)
      → Consistent w
      → Keeps (send_payment platform codec ports request options) w
  unfolding send_payment
  send_payment-Keeps request options w c =
      then-Holds (λ _ v. Consistent v) _ _ _ _ w (lift-Keeps _ w c)
        (λ _ w c.
          bind-Holds (λ _ v. Consistent v) _ _ _ _ w (read-Keeps _ w c)
            (λ time w c.
              bind-Holds (λ _ v. Consistent v) _ _ _ _ w (lift-Keeps _ w c)
                (λ now w c.
                  bind-Holds (λ _ v. Consistent v) _ _ _ _ w (lift-Keeps _ w c)
                    (λ expires_at w c.
                      bind-Holds (λ _ v. Consistent v) _ _ _ _ w (lift-Keeps _ w c)
                        (λ target w c.
                          then-Holds (λ _ v. Consistent v) _ _ _ _ w (lift-Keeps _ w c)
                            (λ _ w c.
                              then-Holds (λ _ v. Consistent v) _ _ _ _ w (lift-Keeps _ w c)
                                (λ _ w c.
                                  bind-Holds (λ _ v. Consistent v) _ _ _ _ w (read-Keeps _ w c)
                                    (λ id w c.
                                      then-Holds (λ _ v. Consistent v) _ _ _ _ w (lift-Keeps _ w c)
                                        (λ _ w c.
                                          send_locked-Keeps platform codec ports id request options
                                            target now expires_at w c)))))))))

-- a record without a receipt is not finished
uncertified-Unfinished :
    (r : SenderDeliveryRecord) → r.receipt ≡ none → Sound r → Unfinished (some r)
unfolding Unfinished
uncertified-Unfinished r e s = (
  (λ x. subst (λ z. Certified z none) x (subst (λ z. Certified r.status z) e s.1)),
  (λ x. subst (λ z. Certified z none) x (subst (λ z. Certified r.status z) e s.1)),
)

module _ (platform : Platform) (ports : SenderPorts) (id : String) where
  resume_record-Keeps :
      (r : SenderDeliveryRecord) (receipt : Option DeliveryReceipt) (status : SenderDeliveryStatus)
      (options : SendPaymentOptions) (w : World)
      → get w.records id ≡ some r
      → r.receipt ≡ receipt
      → r.status ≡ status
      → Consistent w
      → Keeps (resume_record platform ports r receipt status options) w
  unfolding resume_record mark_settled release_rejected pure with_status has_identity Unfinished
  resume_record-Keeps r (some receipt) SenderDeliveryStatus.settled options w f e s c =
      then-Holds (λ _ v. Consistent v) _ _ _ _ w
        (use_port-Consistent _ _ w
          (r, subst (λ z. get w.records z ≡ some r) (sym (c.keyed id r f)) f, s) c)
        (λ _ v k. k)
  resume_record-Keeps r (some receipt) SenderDeliveryStatus.rejected options w f e s c =
      then-Holds (λ _ v. Consistent v) _ _ _ _ w
        (use_port-Consistent _ _ w
          (r, subst (λ z. get w.records z ≡ some r) (sym (c.keyed id r f)) f, s) c)
        (λ _ v k. k)
  resume_record-Keeps r (some receipt) SenderDeliveryStatus.sending options w f e s c =
      run_attempts-Keeps platform ports id _ options w (c.keyed id r f)
        (record { pending = refl; identified = (c.sound id r f).0 })
        (unfinished-Ready id w
          (subst (λ z. Unfinished z) (sym f) (((λ x. ground arith), (λ x. ground arith)))) c)
  resume_record-Keeps r (some receipt) SenderDeliveryStatus.recovery_required options w f e s c =
      run_attempts-Keeps platform ports id _ options w (c.keyed id r f)
        (record { pending = refl; identified = (c.sound id r f).0 })
        (unfinished-Ready id w
          (subst (λ z. Unfinished z) (sym f) (((λ x. ground arith), (λ x. ground arith)))) c)
  resume_record-Keeps r none status options w f e s c =
      run_attempts-Keeps platform ports id _ options w (c.keyed id r f)
        (record { pending = refl; identified = (c.sound id r f).0 })
        (unfinished-Ready id w
          (subst (λ z. Unfinished z) (sym f) (uncertified-Unfinished r e (c.sound id r f))) c)

  resume_found-Keeps :
      (found : Option SenderDeliveryRecord) (options : SendPaymentOptions) (w : World)
      → get w.records id ≡ found
      → Consistent w
      → Keeps (resume_found platform ports found options) w
  unfolding resume_found throw
  resume_found-Keeps none options w e c = c
  resume_found-Keeps (some r) options w e c =
      resume_record-Keeps r r.receipt r.status options w e refl refl c

  pub resume_payment-Keeps :
      (options : SendPaymentOptions) (w : World)
      → Consistent w
      → Keeps (resume_payment platform ports id options) w
  unfolding resume_payment find
  resume_payment-Keeps options w c =
      bind-Holds (λ found v. Consistent v × (get v.records id ≡ found)) _ _ _ _ w (c, refl)
        (λ found v k. resume_found-Keeps found options v k.1 k.0)
