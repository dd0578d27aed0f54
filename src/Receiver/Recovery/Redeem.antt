-- ===== src/Receiver/Recovery/Redeem.antt =====
-- What recoverDelivery does under the lock, among other tasks.
use cashu_fault_lab.Common.{
  ℕ, zero, String, ◌≡◌, ◌⊎◌, ◌≤◌, suc, refl, inl, inr, Option, none, some, get, Result, ok, err,
  arith,
}
use cashu_fault_lab.Delivery.Platform.{Platform}
use cashu_fault_lab.Delivery.Checkpoint.{receiver_before_mint_request}
use cashu_fault_lab.Receiver.Types.{
  Thrown, DeliveryRecord, DeliveryPhase, ExactSwapPlan, prepared, mint_sent, recovery_blocked,
  outputs_persisted, credited, settled, rejected,
}
use cashu_fault_lab.Receiver.Store.{transaction}
use cashu_fault_lab.Receiver.Recovery.Ports.{Ports}
use cashu_fault_lab.Receiver.Recovery.Tasks.{
  World, act, pass, call, attempt, and_then, throw, pure, ◌>>=◌, ◌>>◌,
}
use cashu_fault_lab.Receiver.Recovery.Flow.{
  current, swap_and_settle, swap_recovered, redeem_prepared, redeem, redeem_failed, recover_record,
  recover_locked_delivery, existing, note_swap,
}
use cashu_fault_lab.Receiver.Recovery.Traces.{
  times, Stage, calm, ready, sent, At, Guarded, Move, Keeps, and_then-Keeps,
}
use cashu_fault_lab.Receiver.Recovery.Rules.{
  quiet-Move, Still, Respects, Yields, Leads-stage, attempt-Keeps, quiet-Keeps,
}
use cashu_fault_lab.Receiver.Recovery.Locks.{pure-Respects, pure-Leads}
use cashu_fault_lab.Receiver.Recovery.Walk.{
  swap_noted-Leads, swap_failed-Fine, redeem_failed-Fine, resume_persisted-Leads,
  resume_credited-Leads, restore_ambiguous-Leads,
}
use cashu_fault_lab.Receiver.Recovery.Marks.{Marked, mark-Keeps, note-Keeps}

one_or_none : (n : ℕ) → (n ≡ 0) ⊎ (1 ≤ n)
one_or_none zero = inl refl
one_or_none (suc n) = inr (omega arith)

module _ (platform : Platform) (ports : Ports) where
  swap_recovered-Keeps :
      (id : String) (plan : ExactSwapPlan)
      → Keeps platform (Yields platform (some id)) (sent id) (swap_recovered platform ports id plan)
  unfolding swap_recovered swap_and_settle ◌>>=◌ ◌>>◌
  swap_recovered-Keeps id plan =
      and_then-Keeps platform (Still platform (some id)) (Yields platform (some id)) _ (sent id) _
        (attempt-Keeps platform (some id) (sent id) _ _
          (and_then-Keeps platform (Still platform (some id)) (Yields platform (some id)) _
            (sent id) (note_swap id) (note-Keeps platform id)
            (λ t a e.
              Leads-stage platform (some id) t _ e
                (swap_noted-Leads platform ports (some id) id plan))
            (λ t x e. e))
          (swap_failed-Fine platform ports (some id) id))
        (λ t receipt e.
          Leads-stage platform (some id) t _ e
            (pure-Leads platform (some id) _ (pure-Respects platform (some id) receipt)))
        (λ t x e. e)

  redeem_prepared-Keeps :
      (id : String) (r : DeliveryRecord)
      → Keeps platform (Yields platform (some id)) (ready id) (redeem_prepared platform ports id r)
  unfolding redeem_prepared ◌>>=◌ ◌>>◌ pass
  redeem_prepared-Keeps id r =
      and_then-Keeps platform (λ t x. t ≡ ready id) (Yields platform (some id)) _ (ready id)
        (pass receiver_before_mint_request)
        (quiet-Keeps platform (ready id) _ _ (λ w. refl) (λ w. refl) (λ w. refl))
        (λ t a e. rw e (
          and_then-Keeps platform (Marked platform id) (Yields platform (some id)) _ (ready id) _
            (mark-Keeps platform id)
            (λ u x m. unfold Marked in rw m (swap_recovered-Keeps id r.plan))
            (λ u x m. unfold Marked in m)))
        (λ t x e. rw e refl)

  -- where a task stands after it has read its delivery
  Reads : String → Stage → DeliveryPhase → Type 0
  Reads id s prepared = s ≡ ready id
  Reads id s _ = s ≡ calm (some id)

  module _ (id : String) (r : DeliveryRecord) where
    attempt_redeem :
        (phase : DeliveryPhase) (s : Stage)
        → Keeps platform (Yields platform (some id)) s (redeem platform ports phase id r)
        → Keeps platform
            (Still platform (some id))
            s
            (attempt (redeem platform ports phase id r) (redeem_failed platform ports id))
    attempt_redeem phase s h =
        attempt-Keeps platform (some id) s _ _ h (redeem_failed-Fine platform ports (some id) id)

    recover_record-Keeps :
        (phase : DeliveryPhase) (s : Stage)
        → Reads id s phase
        → Keeps platform (Still platform (some id)) s (recover_record platform ports phase id r)
    unfolding recover_record Reads
    recover_record-Keeps settled s e = rw e (pure-Respects platform (some id) r.receipt)
    recover_record-Keeps rejected s e = rw e (pure-Respects platform (some id) r.receipt)
    recover_record-Keeps prepared s e =
        rw e (attempt_redeem prepared (ready id) (unfold redeem in redeem_prepared-Keeps id r))
    recover_record-Keeps outputs_persisted s e = rw e (
        attempt_redeem outputs_persisted (calm (some id))
          (unfold redeem in resume_persisted-Leads platform ports (some id) id r))
    recover_record-Keeps credited s e = rw e (
        attempt_redeem credited (calm (some id))
          (unfold redeem in resume_credited-Leads platform ports (some id) id))
    recover_record-Keeps mint_sent s e = rw e (
        attempt_redeem mint_sent (calm (some id))
          (unfold redeem in restore_ambiguous-Leads platform ports (some id) id r))
    recover_record-Keeps recovery_blocked s e = rw e (
        attempt_redeem recovery_blocked (calm (some id))
          (unfold redeem in restore_ambiguous-Leads platform ports (some id) id r))

  Found : String → Stage → Result Thrown (Option DeliveryRecord) → Type 0
  Found id s (ok (some r)) = Reads id s r.phase
  Found id s (ok none) = s ≡ calm (some id)
  Found id s (err e) = s ≡ calm (some id)

  -- under the lock, a delivery in phase `prepared` was not swapped
  unswapped :
      (id : String) (w : World) (r : DeliveryRecord)
      → Guarded platform w
      → get w.state.deliveries id ≡ some r
      → r.phase ≡ prepared
      → times id w.swaps ≡ 0
  unswapped id w r g f p = elim (Begun-or-not) [
    | inl none_called ↦ none_called
    | inr called ↦ let (x, f', n) = g.begun id called in absurd (n (ground (arith, f, f')))
  ]
    where
      Begun-or-not : (times id w.swaps ≡ 0) ⊎ (1 ≤ times id w.swaps)
      Begun-or-not = one_or_none (times id w.swaps)

  reads :
      (id : String) (w : World) (found : Option DeliveryRecord)
      → Guarded platform w
      → At (calm (some id)) w
      → get w.state.deliveries id ≡ found
      → (s : Stage) × Move platform (some id) s w w × Found id s (ok found)
  unfolding Found Reads
  reads id w none g a f =
      (calm (some id), quiet-Move platform (calm (some id)) w w g refl refl refl a, refl)
  reads id w (some r) g a f = by_phase r.phase refl
    where
      calm_move : Move platform (some id) (calm (some id)) w w
      calm_move = quiet-Move platform (calm (some id)) w w g refl refl refl a

      by_phase :
          (phase : DeliveryPhase)
          → r.phase ≡ phase
          → (s : Stage) × Move platform (some id) s w w × Reads id s phase
      by_phase prepared p = (
        ready id,
        quiet-Move platform (ready id) w w g refl refl refl (a, unswapped id w r g f p),
        refl,
      )
      by_phase settled p = (calm (some id), calm_move, refl)
      by_phase rejected p = (calm (some id), calm_move, refl)
      by_phase outputs_persisted p = (calm (some id), calm_move, refl)
      by_phase credited p = (calm (some id), calm_move, refl)
      by_phase mint_sent p = (calm (some id), calm_move, refl)
      by_phase recovery_blocked p = (calm (some id), calm_move, refl)

  read-Keeps : (id : String) → Keeps platform (Found id) (calm (some id)) (call (current id))
  unfolding Keeps call act current transaction
  read-Keeps id w g a = reads id w _ g a refl

  recover_existing :
      (id : String) (s : Stage) (found : Option DeliveryRecord)
      → Found id s (ok found)
      → Keeps platform
          (Still platform (some id))
          s
          (existing found >>= λ r. recover_record platform ports r.phase id r)
  unfolding Found existing ◌>>=◌ throw pure and_then
  recover_existing id s none e = unfold Keeps in rw e refl
  recover_existing id s (some r) e = recover_record-Keeps id r r.phase s e

  pub recover_locked_delivery-Fine :
      (id : String) → Respects platform (some id) (recover_locked_delivery platform ports id)
  unfolding recover_locked_delivery ◌>>=◌
  recover_locked_delivery-Fine id =
      and_then-Keeps platform (Found id) (Still platform (some id)) _ (calm (some id)) _
        (read-Keeps id) (λ t found h. unfold ◌>>=◌ in recover_existing id t found h)
        (λ t x e. unfold Found in rw e refl)
