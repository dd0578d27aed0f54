-- ===== src/Sender/Safety/Attempts.antt =====
-- `runAttempts` keeps the sender consistent.
use mathlib.Core.Path.{subst}
use cashu_fault_lab.Common.{ℕ, zero, suc, ◌+◌, String, true, false, ◌≡◌, refl, sym, ◌∙◌, some, get}
use cashu_fault_lab.Common.Tasks.{pure}
use cashu_fault_lab.Common.Tasks.Holds.{Holds, bind-Holds, then-Holds, lift-Holds}
use cashu_fault_lab.Delivery.Platform.{Platform}
use cashu_fault_lab.Sender.Types.{
  SenderDeliveryStatus, SenderDeliveryRecord, World, SenderPorts, SendPaymentOutcome,
}
use cashu_fault_lab.Sender.State.{Sending}
use cashu_fault_lab.Sender.Send.{
  mark_settled, release_rejected, mark_recovery_required, finish, try_again, conclude, with_status,
  begun_attempt, try_once, attempts_from, run_attempts,
}
use cashu_fault_lab.Sender.Send.Build.{SendPaymentOptions}
use cashu_fault_lab.Sender.Send.Judge.{AttemptVerdict, settle, refuse, again, has_identity}
use cashu_fault_lab.Sender.Safety.Certificates.{Sound, Consistent}
use cashu_fault_lab.Sender.Safety.Judged.{Active, Judged, judge-Judged}
use cashu_fault_lab.Sender.Safety.Flow.{
  Ready, Stored, save_record-Holds, use_port-Consistent, dispatch-Holds, pause-Holds,
}

-- The task keeps the sender consistent, whether it returns or throws.
abbrev pub Keeps : {A : Type 0} → Sending A → World → Type 0
Keeps m w = Holds (λ _ v. Consistent v) Consistent (m w)

-- from any world where the delivery is open, with an active record of it
abbrev pub Continues : String → (SenderDeliveryRecord → Sending SendPaymentOutcome) → Type 0
Continues id next =
    (r : SenderDeliveryRecord) (w : World)
    → r.delivery_id ≡ id
    → Active r
    → Ready id w
    → Keeps (next r) w

pub Active-Sound : (r : SenderDeliveryRecord) → Active r → Sound r
Active-Sound r a = (a.identified, rw a.pending tt)

module _ (ports : SenderPorts) (id : String) where
  finish-Continues : Continues id (finish ports)
  unfolding finish mark_recovery_required pure has_identity with_status
  finish-Continues r w e a h =
      then-Holds (λ _ v. Stored id (with_status SenderDeliveryStatus.recovery_required r) v) _ _ _ _
        w
        (save_record-Holds id (with_status SenderDeliveryStatus.recovery_required r) e
          (a.identified, tt) w h)
        (λ _ v k.
          then-Holds (λ _ u. Consistent u) _ _ _ _ v
            (use_port-Consistent _ _ v tt k.ready.consistent) (λ _ u c. c))

  conclude-Keeps :
      (old : SenderDeliveryRecord) (next : SenderDeliveryRecord → Sending SendPaymentOutcome)
      (j : SenderDeliveryRecord × AttemptVerdict) (w : World)
      → j.0.delivery_id ≡ id
      → Judged old j
      → Continues id next
      → Ready id w
      → Keeps (conclude ports next j) w
  unfolding conclude mark_settled release_rejected pure has_identity with_status
  conclude-Keeps old next (r, settle receipt) w e g k h =
      let r' = with_status SenderDeliveryStatus.settled r in
      then-Holds (λ _ v. Stored id r' v) _ _ _ _ w
        (save_record-Holds id r' e (g.active.identified, rw g.justified.0 g.justified.1) w h)
        (λ _ v s.
          then-Holds (λ _ u. Consistent u) _ _ _ _ v
            (use_port-Consistent _ _ v
              (r', subst (λ z. get v.records z ≡ some r') (sym e) s.found, refl) s.ready.consistent)
            (λ _ u c. c))
  conclude-Keeps old next (r, refuse receipt) w e g k h =
      let r' = with_status SenderDeliveryStatus.rejected r in
      then-Holds (λ _ v. Stored id r' v) _ _ _ _ w
        (save_record-Holds id r' e (g.active.identified, rw g.justified.0 g.justified.1) w h)
        (λ _ v s.
          then-Holds (λ _ u. Consistent u) _ _ _ _ v
            (use_port-Consistent _ _ v
              (r', subst (λ z. get v.records z ≡ some r') (sym e) s.found, refl) s.ready.consistent)
            (λ _ u c. c))
  conclude-Keeps old next (r, again true) w e g k h =
      then-Holds (λ _ v. Stored id r v) _ _ _ _ w
        (save_record-Holds id r e (Active-Sound r g.active) w h) (λ _ v s. k r v e g.active s.ready)
  conclude-Keeps old next (r, again false) w e g k h =
      then-Holds (λ _ v. Stored id r v) _ _ _ _ w
        (save_record-Holds id r e (Active-Sound r g.active) w h)
        (λ _ v s. finish-Continues r v e g.active s.ready)

  try_again-Continues :
      (seed : String) (left local : ℕ) (rest : SenderDeliveryRecord → Sending SendPaymentOutcome)
      → Continues id rest
      → Continues id (try_again ports seed left local rest)
  unfolding try_again
  try_again-Continues seed zero local rest k = finish-Continues
  try_again-Continues seed (suc left) local rest k = λ r w e a h.
      then-Holds (λ _ v. Ready id v) _ _ _ _ w (pause-Holds ports id seed local w h)
        (λ _ v g. k r v e a g)

module _ (platform : Platform) (ports : SenderPorts) (id : String) where
  begun_attempt-Active : (r : SenderDeliveryRecord) → Active r → Active (begun_attempt r)
  unfolding begun_attempt has_identity
  begun_attempt-Active r a = record { pending = a.pending; identified = a.identified }

  begun_attempt-delivery_id :
      (r : SenderDeliveryRecord) → (begun_attempt r).delivery_id ≡ r.delivery_id
  unfolding begun_attempt
  begun_attempt-delivery_id r = refl

  try_once-Continues :
      (next : SenderDeliveryRecord → Sending SendPaymentOutcome)
      → Continues id next
      → Continues id (try_once platform ports next)
  unfolding try_once
  try_once-Continues next k r w e a h =
      let b = begun_attempt-Active r a in
      let e' = begun_attempt-delivery_id r ∙ e in
      then-Holds (λ _ v. Stored id (begun_attempt r) v) _ _ _ _ w
        (save_record-Holds id (begun_attempt r) e' (Active-Sound (begun_attempt r) b) w h)
        (λ _ v s.
          bind-Holds (λ _ u. Ready id u) _ _ _ _ v
            (dispatch-Holds ports id (begun_attempt r) v s.ready)
            (λ answer u g.
              let j = judge-Judged platform (begun_attempt r) answer b in
              conclude-Keeps ports id (begun_attempt r) next _ u (j.same_delivery ∙ e') j k g))

  attempts_from-Continues :
      (seed : String) (left local : ℕ) → Continues id (attempts_from platform ports seed left local)
  unfolding attempts_from
  attempts_from-Continues seed zero local = finish-Continues ports id
  attempts_from-Continues seed (suc left) local = try_once-Continues _ (
      try_again-Continues ports id seed left local _
        (attempts_from-Continues seed left (local + 1)))

  pub run_attempts-Keeps :
      (r : SenderDeliveryRecord) (options : SendPaymentOptions) (w : World)
      → r.delivery_id ≡ id
      → Active r
      → Ready id w
      → Keeps (run_attempts platform ports r options) w
  unfolding run_attempts
  run_attempts-Keeps r options w e a h =
      bind-Holds (λ _ v. Ready id v) _ _ _ _ w (lift-Holds (Ready id) Consistent _ w h h.consistent)
        (λ n v g.
          then-Holds (λ _ u. Ready id u) _ _ _ _ v
            (lift-Holds (Ready id) Consistent _ v g g.consistent)
            (λ _ u i. attempts_from-Continues options.seed n 0 r u e a i))
