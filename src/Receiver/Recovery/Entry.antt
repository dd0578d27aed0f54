-- ===== src/Receiver/Recovery/Entry.antt =====
-- recoverDelivery and acceptDelivery among other tasks.
use cashu_fault_lab.Common.{String, refl, Option, none, some}
use cashu_fault_lab.Delivery.Platform.{Platform}
use cashu_fault_lab.Delivery.Receipt.{DeliveryReceipt}
use cashu_fault_lab.Receiver.Types.{
  DeliveryRecord, DeliveryPhase, AcceptDeliveryCommand, PrepareResult, prepared, mint_sent,
  recovery_blocked, outputs_persisted, credited, settled, rejected,
}
use cashu_fault_lab.Receiver.Safety.Runs.{call_preflight, call_prepare, perform}
use cashu_fault_lab.Receiver.Recovery.Ports.{Ports}
use cashu_fault_lab.Receiver.Recovery.Tasks.{Task}
use cashu_fault_lab.Receiver.Recovery.Flow.{
  recovered_or_current, recover_delivery, resume_previous, redeem_new, accept_new, accept_known,
  accept_delivery, existing, preparation,
}
use cashu_fault_lab.Receiver.Recovery.Rules.{Respects}
use cashu_fault_lab.Receiver.Recovery.Locks.{
  bind-Respects, pure-Respects, throw-Respects, require-Respects, ask-Respects, asked-Respects,
  lock-Respects,
}
use cashu_fault_lab.Receiver.Recovery.Walk.{call-Fine, then-Fine, start-Respects}
use cashu_fault_lab.Receiver.Recovery.Redeem.{recover_locked_delivery-Fine}

module _ (platform : Platform) (ports : Ports) where
  abbrev Fine : {A : Type 0} → Task A → Type 0
  Fine m = Respects platform none m

  existing-Fine : (x : Option DeliveryRecord) → Fine (existing x)
  unfolding existing
  existing-Fine none = throw-Respects platform none _ _
  existing-Fine (some r) = pure-Respects platform none r

  recovered_or_current-Fine :
      (id : String) (x : Option DeliveryReceipt) → Fine (recovered_or_current platform ports id x)
  unfolding recovered_or_current
  recovered_or_current-Fine id (some receipt) = pure-Respects platform none receipt
  recovered_or_current-Fine id none =
      bind-Respects platform none _ _ (start-Respects platform ports none id) λ found.
        bind-Respects platform none _ _ (existing-Fine found)
          λ r. pure-Respects platform none r.receipt

  -- recoverDelivery
  pub recover_delivery-Respects :
      (id : String) → Respects platform none (recover_delivery platform ports id)
  unfolding recover_delivery
  recover_delivery-Respects id =
      bind-Respects platform none _ _
        (lock-Respects platform id _ (recover_locked_delivery-Fine platform ports id))
        λ x. recovered_or_current-Fine id x

  resume_previous-Fine :
      (phase : DeliveryPhase) (command : AcceptDeliveryCommand) (r : DeliveryRecord)
      → Fine (resume_previous platform ports phase command r)
  unfolding resume_previous
  resume_previous-Fine settled command r = pure-Respects platform none r.receipt
  resume_previous-Fine rejected command r = pure-Respects platform none r.receipt
  resume_previous-Fine prepared command r = recover_delivery-Respects _
  resume_previous-Fine outputs_persisted command r = recover_delivery-Respects _
  resume_previous-Fine credited command r = recover_delivery-Respects _
  resume_previous-Fine mint_sent command r = recover_delivery-Respects _
  resume_previous-Fine recovery_blocked command r = recover_delivery-Respects _

  redeem_new-Fine :
      (command : AcceptDeliveryCommand) (x : PrepareResult)
      → Fine (redeem_new platform ports command x)
  unfolding redeem_new
  redeem_new-Fine command (PrepareResult.duplicate r) = pure-Respects platform none r.receipt
  redeem_new-Fine command (PrepareResult.prepared r) = recover_delivery-Respects _

  accept_known-Fine :
      (command : AcceptDeliveryCommand) (x : Option DeliveryRecord)
      → Fine (accept_known platform ports command x)
  unfolding accept_known accept_new perform
  accept_known-Fine command (some r) = resume_previous-Fine r.phase command r
  accept_known-Fine command none =
      bind-Respects platform none _ _ (ask-Respects platform none _) λ inspected.
        bind-Respects platform none _ _ (ask-Respects platform none _) λ plan.
          bind-Respects platform none _ _ (asked-Respects platform none _) λ now.
            bind-Respects platform none _ _
              (call-Fine platform ports none _
                (call_prepare (preparation command inspected plan now)) (λ s. refl))
              λ x. redeem_new-Fine command x

  -- acceptDelivery
  pub accept_delivery-Respects :
      (command : AcceptDeliveryCommand)
      → Respects platform none (accept_delivery platform ports command)
  unfolding accept_delivery perform
  accept_delivery-Respects command =
      then-Fine platform ports none _ _ (require-Respects platform none _ _) (
        bind-Respects platform none _ _ (asked-Respects platform none _) λ now.
          bind-Respects platform none _ _
            (call-Fine platform ports none _ (call_preflight command now) (λ s. refl))
            λ previous. accept_known-Fine command previous)
