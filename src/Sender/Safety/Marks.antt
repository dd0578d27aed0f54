-- ===== src/Sender/Safety/Marks.antt =====
-- Once proofs are reserved, the wallet is told what became of them.
use mathlib.Core.Path.{subst}
use cashu_fault_lab.Common.{
  ℕ, zero, suc, ◌+◌, String, true, false, ◌≡◌, refl, sym, ◌∙◌, Option, arith, get, Bool-cases, inl,
  inr,
}
use cashu_fault_lab.Common.Tasks.{pure, throw}
use cashu_fault_lab.Common.Tasks.Holds.{Holds, bind-Holds, then-Holds, attempt-Holds, lift-Holds}
use cashu_fault_lab.Delivery.Platform.{Platform}
use cashu_fault_lab.Sender.Types.{
  SenderDeliveryStatus, SenderDeliveryRecord, World, SenderPorts, SendError, SendPaymentOutcome,
}
use cashu_fault_lab.Sender.State.{Sending, find}
use cashu_fault_lab.Sender.Send.{
  use_port, mark_settled, release_rejected, mark_recovery_required, dispatch, pause, finish,
  try_again, conclude, with_status, begun_attempt, try_once, attempts_from, run_attempts,
  mark_and_throw, mark_recovery_after, is_finished, is_final_status,
}
use cashu_fault_lab.Sender.Send.Build.{SendPaymentOptions}
use cashu_fault_lab.Sender.Send.Judge.{AttemptVerdict, settle, refuse, again}
use cashu_fault_lab.Sender.Safety.Judged.{judge-Same}
use cashu_fault_lab.Sender.Safety.Sends.{begun_attempt-same}
use cashu_fault_lab.Sender.Safety.Pending.{
  is_mark, Told, Pending, ToldOrPending, save_record-Pending, save_final-Pending, use_port-Pending,
  mark-Told, Marks, mark-Marks, AllMark, is_mark_own,
}

module _ (id : String) (ports : SenderPorts) where
  finish-AllMark : AllMark id (finish ports)
  unfolding finish mark_recovery_required pure with_status is_mark is_final_status
  finish-AllMark r w e f h =
      then-Holds (λ _ v. Pending id v) _ _ _ _ w
        (save_record-Pending id (with_status SenderDeliveryStatus.recovery_required r) w refl h)
        (λ _ v k.
          then-Holds (λ _ u. Told id u) _ _ _ _ v
            (mark-Marks id _ _ v (is_mark_own id r.delivery_id e)) (λ _ u t. t))

  conclude-Marks :
      (next : SenderDeliveryRecord → Sending SendPaymentOutcome) (r : SenderDeliveryRecord)
      (verdict : AttemptVerdict) (w : World)
      → AllMark id next
      → r.delivery_id ≡ id
      → is_final_status r.status ≡ false
      → Pending id w
      → Marks id (conclude ports next (r, verdict)) w
  unfolding conclude mark_settled release_rejected pure is_mark
  conclude-Marks next r (settle receipt) w k e f h =
      then-Holds (λ _ v. Unit {0}) _ _ _ _ w (save_final-Pending id _ w h)
        (λ _ v _.
          then-Holds (λ _ u. Told id u) _ _ _ _ v
            (mark-Marks id _ _ v (is_mark_own id r.delivery_id e)) (λ _ u t. t))
  conclude-Marks next r (refuse receipt) w k e f h =
      then-Holds (λ _ v. Unit {0}) _ _ _ _ w (save_final-Pending id _ w h)
        (λ _ v _.
          then-Holds (λ _ u. Told id u) _ _ _ _ v
            (mark-Marks id _ _ v (is_mark_own id r.delivery_id e)) (λ _ u t. t))
  conclude-Marks next r (again true) w k e f h =
      then-Holds (λ _ v. Pending id v) _ _ _ _ w (save_record-Pending id r w f h)
        (λ _ v p. k r v e f p)
  conclude-Marks next r (again false) w k e f h =
      then-Holds (λ _ v. Pending id v) _ _ _ _ w (save_record-Pending id r w f h)
        (λ _ v p. finish-AllMark r v e f p)

  pause-Pending :
      (seed : String) (local : ℕ) (w : World)
      → Pending id w
      → Holds (λ _ v. Pending id v) (ToldOrPending id) (pause ports seed local w)
  unfolding pause use_port
  pause-Pending seed local w h =
      bind-Holds (λ _ v. Pending id v) _ _ _ _ w
        (lift-Holds (Pending id) (ToldOrPending id) _ w h (inr h)) (λ delay v k. k)

  try_again-AllMark :
      (seed : String) (left local : ℕ) (rest : SenderDeliveryRecord → Sending SendPaymentOutcome)
      → AllMark id rest
      → AllMark id (try_again ports seed left local rest)
  unfolding try_again
  try_again-AllMark seed zero local rest k = finish-AllMark
  try_again-AllMark seed (suc left) local rest k = λ r w e f h.
      then-Holds (λ _ v. Pending id v) _ _ _ _ w (pause-Pending seed local w h)
        (λ _ v p. k r v e f p)

  dispatch-Pending :
      (r : SenderDeliveryRecord) (w : World)
      → Pending id w
      → Holds (λ _ v. Pending id v) (ToldOrPending id) (dispatch ports r w)
  unfolding dispatch pure
  dispatch-Pending r w h =
      attempt-Holds _ (Pending id) _ _ _ w
        (bind-Holds (λ _ v. Pending id v) _ _ _ _ w (use_port-Pending id _ _ w h) (λ result v k. k))
        (λ e v k. k)

  pub mark_and_throw-Told :
      {A : Type 0} (Q : A → World → Type 0) (e : SendError) (w : World)
      → Holds Q (Told id) (mark_and_throw ports id e w)
  unfolding mark_and_throw mark_recovery_required throw is_mark
  mark_and_throw-Told Q e w =
      then-Holds (λ _ v. Told id v) _ _ _ _ w
        (attempt-Holds _ (Told id) _ _ _ w (mark-Told id _ _ w (is_mark_own id id refl))
          (λ e v k. k))
        (λ _ v k. k)

  finished-Told :
      (w : World) (found : Option SenderDeliveryRecord)
      → get w.records id ≡ found
      → is_finished found ≡ true
      → ToldOrPending id w
      → Told id w
  finished-Told w found e f (inl told) = told
  finished-Told w found e f (inr pending) = ground arith

  pub mark_recovery_after-Told :
      {A : Type 0} (Q : A → World → Type 0) (e : SendError) (w : World)
      → ToldOrPending id w
      → Holds Q (Told id) (mark_recovery_after ports id e w)
  unfolding mark_recovery_after find throw
  mark_recovery_after-Told Q e w h =
      bind-Holds (λ found v. (get v.records id ≡ found) × ToldOrPending id v) _ _ _ _ w (refl, h)
        (λ found v k. elim (Bool-cases (is_finished found)) [
          | inl finished ↦ rw finished (finished-Told v found k.0 finished k.1)
          | inr unfinished ↦ rw unfinished (mark_and_throw-Told Q e v)
        ])

begun_attempt-status : (r : SenderDeliveryRecord) → (begun_attempt r).status ≡ r.status
unfolding begun_attempt
begun_attempt-status r = refl

module _ (id : String) (platform : Platform) (ports : SenderPorts) where
  try_once-AllMark :
      (next : SenderDeliveryRecord → Sending SendPaymentOutcome)
      → AllMark id next
      → AllMark id (try_once platform ports next)
  unfolding try_once
  try_once-AllMark next k r w e f h =
      let e' = (begun_attempt-same r).0 ∙ e in
      let f' = subst (λ z. is_final_status z ≡ false) (sym (begun_attempt-status r)) f in
      then-Holds (λ _ v. Pending id v) _ _ _ _ w (save_record-Pending id (begun_attempt r) w f' h)
        (λ _ v p.
          bind-Holds (λ _ u. Pending id u) _ _ _ _ v
            (dispatch-Pending id ports (begun_attempt r) v p)
            (λ answer u q.
              let (i, _, st) = judge-Same platform (begun_attempt r) answer in
              conclude-Marks id ports next _ _ u k (i ∙ e')
                (subst (λ z. is_final_status z ≡ false) (sym st) f') q))

  attempts_from-AllMark :
      (seed : String) (left local : ℕ) → AllMark id (attempts_from platform ports seed left local)
  unfolding attempts_from
  attempts_from-AllMark seed zero local = finish-AllMark id ports
  attempts_from-AllMark seed (suc left) local =
      try_once-AllMark _
        (try_again-AllMark id ports seed left local _ (attempts_from-AllMark seed left (local + 1)))

  pub run_attempts-AllMark :
      (options : SendPaymentOptions) → AllMark id (λ r. run_attempts platform ports r options)
  unfolding run_attempts
  run_attempts-AllMark options r w e f h =
      bind-Holds (λ _ v. Pending id v) _ _ _ _ w
        (lift-Holds (Pending id) (ToldOrPending id) _ w h (inr h))
        (λ n v p.
          then-Holds (λ _ u. Pending id u) _ _ _ _ v
            (lift-Holds (Pending id) (ToldOrPending id) _ v p (inr p))
            (λ _ u q. attempts_from-AllMark options.seed n 0 r u e f q))
