-- ===== src/Receiver/Recovery/Walk.antt =====
-- The parts of recoverDelivery keep to what other tasks rely on.
use cashu_fault_lab.Common.{
  String, ◌≡◌, refl, true, false, Option, none, some, Option-cases, inl, inr, List,
}
use cashu_fault_lab.Delivery.Platform.{Platform}
use cashu_fault_lab.Delivery.Checkpoint.{Checkpoint}
use cashu_fault_lab.Delivery.Receipt.{DeliveryReceipt}
use cashu_fault_lab.Receiver.Types.{
  Thrown, domain, crash, gateway, validation, failure, ExactSwapPlan, DeliveryRecord,
  CommitSettlement,
}
use cashu_fault_lab.Receiver.Store.{StoreState, Operation, transaction}
use cashu_fault_lab.Receiver.Store.Settle.{record_redemption_start, block_recovery}
use cashu_fault_lab.Receiver.Safety.Runs.{
  Call, call_record_redemption_start, call_settle, call_persist, call_credit, call_finalize,
  call_block, call_reject, perform,
}
use cashu_fault_lab.Receiver.Recovery.Ports.{Ports, RestoreResult, recovered, not_found}
use cashu_fault_lab.Receiver.Recovery.Tasks.{Task, call, ◌>>◌}
use cashu_fault_lab.Receiver.Recovery.Flow.{
  current, settle_in_steps, settle_from, settle_with_checkpoints, settlement_of, swap_dispatched,
  swap_failed, swap_noted, resume_persisted, resume_credited, block_unrestored, finish_restore,
  restore_ambiguous, redeem_failed,
}
use cashu_fault_lab.Receiver.Recovery.Rules.{Respects, Leads}
use cashu_fault_lab.Receiver.Recovery.Locks.{
  bind-Respects, then-Respects, bind-Leads, then-Leads, pure-Respects, pure-Leads, throw-Respects,
  throw-Leads, require-Respects, act-Respects, ask-Respects, asked-Respects, pass-Respects,
  call-Respects, read-Respects, exchange-Respects,
}

module _ (platform : Platform) (ports : Ports) (held : Option String) where
  abbrev Fine : {A : Type 0} → Task A → Type 0
  Fine m = Respects platform held m

  pub start-Respects : (id : String) → Fine (call (current id))
  unfolding call current transaction
  start-Respects id = act-Respects platform held _ _ (λ w. refl) (λ w. refl) (λ w. refl)

  pub call-Fine :
      {A : Type 0} (op : Operation A) (c : Call)
      → ((s : StoreState) → (transaction op s).1 ≡ perform platform c s)
      → Fine (call op)
  call-Fine op c h = call-Respects platform held op c h

  pub then-Fine : {A B : Type 0} (m : Task A) (k : Task B) → Fine m → Fine k → Fine (m >> k)
  then-Fine m k hm hk = then-Respects platform held m k hm hk

  settle_in_steps-Fine : (input : CommitSettlement) → Fine (settle_in_steps platform ports input)
  unfolding settle_in_steps perform
  settle_in_steps-Fine input = then-Fine _ _ (pass-Respects platform held _) (
      then-Fine _ _ (call-Fine _ (call_persist input) (λ s. refl)) (
        then-Fine _ _ (pass-Respects platform held _) (
          then-Fine _ _ (call-Fine _ (call_credit input.delivery_id input.now) (λ s. refl)) (
            then-Fine _ _ (pass-Respects platform held _) (
              bind-Respects platform held _ _
                (call-Fine _ (call_finalize input.delivery_id) (λ s. refl))
                λ receipt.
                  then-Fine _ _ (pass-Respects platform held _)
                    (pure-Respects platform held receipt))))))

  settle_from-Fine :
      (c : Option Checkpoint) (input : CommitSettlement) → Fine (settle_from platform ports c input)
  unfolding settle_from perform
  settle_from-Fine none input = call-Fine _ (call_settle input) (λ s. refl)
  settle_from-Fine (some c) input = settle_in_steps-Fine input

  settle_with_checkpoints-Fine :
      (input : CommitSettlement) → Fine (settle_with_checkpoints platform ports input)
  unfolding settle_with_checkpoints
  settle_with_checkpoints-Fine input =
      read-Respects platform held _ (λ w. settle_from-Fine w.checkpoint input)

  settlement_of-Leads :
      (id plan_hash : String) (proofs : List String)
      → Leads platform held (settlement_of platform ports id plan_hash proofs)
  unfolding settlement_of
  settlement_of-Leads id plan_hash proofs =
      bind-Leads platform held _ _ (asked-Respects platform held ports.now)
        λ now. pure-Leads platform held _ (settle_with_checkpoints-Fine _)

  pub swap_failed-Fine : (id : String) (e : Thrown) → Fine (swap_failed platform ports id e)
  unfolding swap_failed perform
  swap_failed-Fine id (gateway false) =
      call-Fine _ (call_reject id "mint_unavailable" true) (λ s. refl)
  swap_failed-Fine id (gateway true) = throw-Respects platform held _ _
  swap_failed-Fine id (validation code) = throw-Respects platform held _ _
  swap_failed-Fine id (domain code) = throw-Respects platform held _ _
  swap_failed-Fine id (crash boundary) = throw-Respects platform held _ _
  swap_failed-Fine id failure = throw-Respects platform held _ _

  start_recorded-Fine : (id : String) → Fine (call (record_redemption_start id))
  unfolding perform
  start_recorded-Fine id = call-Fine _ (call_record_redemption_start id) (λ s. refl)

  swap_dispatched-Fine : (id : String) → Fine (swap_dispatched platform ports id)
  unfolding swap_dispatched
  swap_dispatched-Fine id = then-Fine _ _ (start_recorded-Fine id) (pass-Respects platform held _)

  pub resume_persisted-Leads :
      (id : String) (r : DeliveryRecord)
      → Leads platform held (resume_persisted platform ports id r)
  unfolding resume_persisted
  resume_persisted-Leads id r = elim (Option-cases r.replacement_plan_hash) [
    | inl missing ↦ rw missing (throw-Leads platform held DeliveryReceipt _)
    | inr (h, e) ↦ elim (Option-cases r.replacement_proofs) [
      | inl missing ↦ rw (e, missing) (throw-Leads platform held DeliveryReceipt _)
      | inr (ps, e') ↦ rw (e, e') (settlement_of-Leads id h ps)
    ]
  ]

  pub resume_credited-Leads :
      (id : String) → Leads platform held (resume_credited platform ports id)
  unfolding resume_credited perform
  resume_credited-Leads id = then-Leads platform held _ _ (pass-Respects platform held _) (
      bind-Leads platform held _ _ (call-Fine _ (call_finalize id) (λ s. refl)) λ receipt.
        then-Leads platform held _ _ (pass-Respects platform held _)
          (pure-Leads platform held _ (pure-Respects platform held receipt)))

  blocked-Fine : (id : String) → Fine (call (block_recovery platform id))
  unfolding perform
  blocked-Fine id = call-Fine _ (call_block id) (λ s. refl)

  finish_restore-Leads :
      (id : String) (r : DeliveryRecord) (x : RestoreResult)
      → Leads platform held (finish_restore platform ports id r x)
  unfolding finish_restore block_unrestored
  finish_restore-Leads id r (recovered result) = settlement_of-Leads id _ _
  finish_restore-Leads id r not_found =
      bind-Leads platform held _ _ (ask-Respects platform held _) λ states.
        then-Leads platform held _ _ (require-Respects platform held _ _)
          (pure-Leads platform held _ (blocked-Fine id))

  pub restore_ambiguous-Leads :
      (id : String) (r : DeliveryRecord)
      → Leads platform held (restore_ambiguous platform ports id r)
  unfolding restore_ambiguous
  restore_ambiguous-Leads id r =
      bind-Leads platform held _ _ (asked-Respects platform held _) λ request.
        bind-Leads platform held _ _
          (exchange-Respects platform held _ request (start_recorded-Fine id))
          λ restored. finish_restore-Leads id r restored

  pub redeem_failed-Fine : (id : String) (e : Thrown) → Fine (redeem_failed platform ports id e)
  unfolding redeem_failed
  redeem_failed-Fine id (domain code) = throw-Respects platform held _ _
  redeem_failed-Fine id (crash boundary) = throw-Respects platform held _ _
  redeem_failed-Fine id (gateway b) = blocked-Fine id
  redeem_failed-Fine id (validation code) = blocked-Fine id
  redeem_failed-Fine id failure = blocked-Fine id

  pub swap_noted-Leads :
      (id : String) (plan : ExactSwapPlan) → Leads platform held (swap_noted platform ports id plan)
  unfolding swap_noted
  swap_noted-Leads id plan =
      bind-Leads platform held _ _ (asked-Respects platform held _) λ request.
        bind-Leads platform held _ _
          (exchange-Respects platform held _ request (swap_dispatched-Fine id))
          λ swapped. settlement_of-Leads id _ _
