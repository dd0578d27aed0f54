-- ===== src/Receiver/Recovery/Marks.antt =====
-- The marking of a delivery before its swap, and the call of the swap, among other tasks.
use cashu_fault_lab.Common.{
  String, ◌≡◌, refl, inl, inr, Bool-cases, none, some, ◌∷◌, get, get-put, Result, ok, err, arith,
  str_eq, eq_iff, str_eq_refl, Option-cases,
}
use cashu_fault_lab.Delivery.Platform.{Platform}
use cashu_fault_lab.Delivery.Receipt.{DeliveryReceipt}
use cashu_fault_lab.Receiver.Types.{
  Thrown, DeliveryRecord, DeliveryPhase, prepared, mint_sent, recovery_blocked, outputs_persisted,
  credited, settled, rejected,
}
use cashu_fault_lab.Receiver.Store.{StoreState, Operation, transaction, require_delivery}
use cashu_fault_lab.Receiver.Store.Settle.{mark_mint_sent, save}
use cashu_fault_lab.Receiver.Safety.Runs.{call_mark_mint_sent, perform, perform-Advance}
use cashu_fault_lab.Receiver.Recovery.Tasks.{World, act, call}
use cashu_fault_lab.Receiver.Recovery.Flow.{note_swap}
use cashu_fault_lab.Receiver.Recovery.Traces.{
  times, Stage, calm, ready, sent, holds, Begun, At, Guarded, Move, Keeps,
}
use cashu_fault_lab.Receiver.Recovery.Rules.{stored-Move, Still}

module _ (platform : Platform) where
  -- a delivery that was marked is past `prepared`
  marked_from :
      (id : String) (r : DeliveryRecord) (s t : StoreState) (x : DeliveryReceipt)
      (phase : DeliveryPhase)
      → r.phase ≡ phase
      → get s.deliveries id ≡ some r
      → mark_mint_sent platform id s ≡ ok (x, t)
      → Begun id t
  unfolding mark_mint_sent require_delivery save
  marked_from id r s t x prepared p f e = (
    record r { phase = mint_sent; receipt = x },
    ground (
      arith,
      get-put s.deliveries id (record r { phase = mint_sent; receipt = x }) id,
      str_eq_refl id,
    ),
    λ q. cc,
  )
  marked_from id r s t x mint_sent p f e = (r, ground arith, λ q. cc)
  marked_from id r s t x recovery_blocked p f e = (r, ground arith, λ q. cc)
  marked_from id r s t x outputs_persisted p f e = (r, ground arith, λ q. cc)
  marked_from id r s t x credited p f e = (r, ground arith, λ q. cc)
  marked_from id r s t x settled p f e = (r, ground arith, λ q. cc)
  marked_from id r s t x rejected p f e = (r, ground arith, λ q. cc)

  mark-missing :
      (id : String) (s t : StoreState) (x : DeliveryReceipt)
      → get s.deliveries id ≡ none
      → mark_mint_sent platform id s ≡ ok (x, t)
      → ⊥
  unfolding mark_mint_sent require_delivery
  mark-missing id s t x f e = ground arith

  marked_ok :
      (id : String) (s t : StoreState) (x : DeliveryReceipt)
      → mark_mint_sent platform id s ≡ ok (x, t)
      → Begun id t
  marked_ok id s t x e = elim (Option-cases (get s.deliveries id)) [
    | inl missing ↦ absurd (mark-missing id s t x missing e)
    | inr (r, found) ↦ marked_from id r s t x r.phase refl found e
  ]

  transaction-ok :
      {A : Type 0} (op : Operation A) (s : StoreState) (x : A)
      → (transaction op s).0 ≡ ok x
      → op s ≡ ok (x, (transaction op s).1)
  unfolding transaction
  transaction-ok op s x e = ground arith

  marked :
      (id : String) (s : StoreState) (x : DeliveryReceipt)
      → (transaction (mark_mint_sent platform id) s).0 ≡ ok x
      → Begun id (transaction (mark_mint_sent platform id) s).1
  marked id s x e = marked_ok id s _ x (transaction-ok (mark_mint_sent platform id) s x e)

  -- the answer to the mark, and where the task stands then
  unfoldable pub Marked : String → Stage → Result Thrown DeliveryReceipt → Type 0
  Marked id s (ok receipt) = s ≡ sent id
  Marked id s (err e) = holds s ≡ some id

  mark-Move :
      (id : String) (w : World) (x : Result Thrown DeliveryReceipt)
      → Guarded platform w
      → At (ready id) w
      → (transaction (mark_mint_sent platform id) w.state).0 ≡ x
      → (s : Stage) × Move platform
          (some id)
          s
          w
          (record w { state = (transaction (mark_mint_sent platform id) w.state).1 })
        × Marked id s x
  unfolding Marked perform
  mark-Move id w (ok x) g a e =
      let v = record w { state = (transaction (mark_mint_sent platform id) w.state).1 } in
      (
        sent id,
        stored-Move platform (sent id) (some id) w v g refl refl
            (perform-Advance platform (call_mark_mint_sent id) w.state g.inv) refl
            (a.0, a.1, marked id w.state x e),
        refl,
      )
  mark-Move id w (err x) g a e =
      let v = record w { state = (transaction (mark_mint_sent platform id) w.state).1 } in
      (
        ready id,
        stored-Move platform (ready id) (some id) w v g refl refl
            (perform-Advance platform (call_mark_mint_sent id) w.state g.inv) refl a,
        refl,
      )

  pub mark-Keeps :
      (id : String) → Keeps platform (Marked id) (ready id) (call (mark_mint_sent platform id))
  unfolding Keeps call act
  mark-Keeps id w g a = mark-Move id w _ g a refl

  -- the one place where a swap is called for
  note-Move :
      (id : String) (w : World)
      → Guarded platform w
      → At (sent id) w
      → Move platform (some id) (calm (some id)) w (record w { swaps = id ∷ w.swaps })
  unfolding times
  note-Move id w g (held, zero_times, begun) = record {
    guarded = record {
      inv = g.inv;
      once = λ k. ground (arith, eq_iff id k, g.once k);
      begun = λ k n. elim (Bool-cases (str_eq id k)) [
        | inl same ↦ let e : id ≡ k = (eq_iff id k).0 same in rw (← e) begun
        | inr other ↦ g.begun k (ground arith)
      ];
    };
    at = held;
    frame = record {
      kept = λ k other h. (h, ground (arith, eq_iff id k, λ (e : id ≡ k). other (rw e refl)));
      stays = λ k b. b;
    };
    owner = λ k h. inl h;
  }

  pub note-Keeps :
      (id : String) → Keeps platform (Still platform (some id)) (sent id) (note_swap id)
  unfolding Keeps note_swap act
  note-Keeps id w g a = (calm (some id), note-Move id w g a, refl)
