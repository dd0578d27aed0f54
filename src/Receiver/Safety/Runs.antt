-- ===== src/Receiver/Safety/Runs.antt =====
-- Every sequence of transactions, in whatever order the receiver's requests interleave them.
use cashu_fault_lab.Common.{
  String, ◌≡◌, refl, ◌⊎◌, inl, inr, Bool, true, List, [], ◌∷◌, none, some, Option-cases, Bool-cases,
  arith, get, get-put, str_eq, eq_iff, Number, ok, Result-cases,
}
use cashu_fault_lab.Delivery.Platform.{Platform}
use cashu_fault_lab.Receiver.Types.{
  DeliveryRecord, CreatePaymentRequest, AcceptDeliveryCommand, PrepareDelivery, CommitSettlement,
}
use cashu_fault_lab.Receiver.Store.{StoreState, Operation, transaction, require_delivery}
use cashu_fault_lab.Receiver.Store.Requests.{create_request, preflight, require_request}
use cashu_fault_lab.Receiver.Store.Prepare.{prepare}
use cashu_fault_lab.Receiver.Store.Settle.{
  mark_mint_sent, record_redemption_start, persist_settlement_outputs, credit_settlement,
  finalize_settlement, settle, block_recovery, reject,
}
use cashu_fault_lab.Receiver.Safety.{IsRecord, Change, Update, Outcome, Inv, is_paid}
use cashu_fault_lab.Receiver.Safety.Outcomes.{
  mark_mint_sent_phase, record_redemption_start_phase, persist_settlement_outputs_phase,
  credit_settlement_phase, finalize_settlement_phase, settle_phase, block_recovery_phase,
  reject_phase,
}
use cashu_fault_lab.Receiver.Safety.Invariant.{Update-Inv}
use mathlib.Core.Path.{subst}
use cashu_fault_lab.Receiver.Safety.Inserts.{
  prepare-Inv, create_request-Inv, prepare-inserted, insert_record-kept, create_request-deliveries,
}

-- one call of the store, with its arguments
pub data Call : Type 0 where
  call_create : CreatePaymentRequest → Call
  call_preflight : AcceptDeliveryCommand → Number → Call
  call_prepare : PrepareDelivery → Call
  call_mark_mint_sent call_record_redemption_start : String → Call
  call_settle call_persist : CommitSettlement → Call
  call_credit : String → Number → Call
  call_finalize call_block : String → Call
  call_reject : String → String → Bool → Call

module _ (platform : Platform) where
  -- the state after the call's transaction, whether the call returns or throws
  unfoldable pub perform : Call → StoreState → StoreState
  perform (call_create input) s = (transaction (create_request platform input) s).1
  perform (call_preflight command now) s = (transaction (preflight command now) s).1
  perform (call_prepare input) s = (transaction (prepare platform input) s).1
  perform (call_mark_mint_sent id) s = (transaction (mark_mint_sent platform id) s).1
  perform (call_record_redemption_start id) s = (transaction (record_redemption_start id) s).1
  perform (call_settle input) s = (transaction (settle platform input) s).1
  perform (call_persist input) s = (transaction (persist_settlement_outputs input) s).1
  perform (call_credit id now) s = (transaction (credit_settlement id now) s).1
  perform (call_finalize id) s = (transaction (finalize_settlement platform id) s).1
  perform (call_block id) s = (transaction (block_recovery platform id) s).1
  perform (call_reject id detail claims) s = (transaction (reject platform id detail claims) s).1

  unfoldable pub run : List Call → StoreState → StoreState
  unfolding perform
  run [] s = s
  run (c ∷ cs) s = run cs (perform c s)

  -- What a call may do to the store: the invariant holds again, and every delivery that was there
  -- is there, unchanged or changed as allowed, with its credit if it had one.
  pub record Advance (s t : StoreState) : Type 0 where
    pub inv : Inv platform t
    pub history :
        (k : String) (r : DeliveryRecord)
        → get s.deliveries k ≡ some r
        → (r' : DeliveryRecord) × (get t.deliveries k ≡ some r')
          × ((r' ≡ r) ⊎ Change r r')
          × (is_paid r.phase ≡ true → get t.credits k ≡ get s.credits k)

  Advance-refl : (s t : StoreState) → Inv platform s → t ≡ s → Advance s t
  Advance-refl s t inv same = record {
    inv = rw same inv;
    history = λ k r f. (r, ground arith, inl refl, λ p. ground arith);
  }

  Advance-Update :
      (id : String) (s t : StoreState) (r r' : DeliveryRecord)
      → Inv platform s
      → get s.deliveries id ≡ some r
      → Update platform id s t r r'
      → Advance s t
  Advance-Update id s t r r' inv found u = record {
    inv = Update-Inv platform id s t r r' inv found u;
    history = λ k x f. elim (Bool-cases (str_eq id k)) [
      | inl same ↦
          let e : id ≡ k = (eq_iff id k).0 same in
          let w : r ≡ x = ground arith in
          (
            r',
            rw u.saved (ground (arith, get-put s.deliveries id r' k)),
            inr (subst (λ y. Change y r') w u.change),
            λ p. ground (arith, u.credit_kept),
          )
      | inr other ↦ (
        x,
        rw u.saved (ground (arith, get-put s.deliveries id r' k)),
        inl refl,
        λ p. u.credits k other,
      )
    ];
  }

  transaction-Advance :
      {A : Type 0} (op : Operation A) (s : StoreState)
      → Inv platform s
      → ((a : A) (t : StoreState) → op s ≡ ok (a, t) → Advance s t)
      → Advance s (transaction op s).1
  unfolding transaction
  transaction-Advance op s inv h = elim (Result-cases (op s)) [
    | inr (e, bad) ↦ Advance-refl s _ inv (ground arith)
    | inl ((a, t), good) ↦ rw (good, transaction) (h a t good)
  ]

  Outcome-Advance :
      (id : String) (s t : StoreState)
      → Inv platform s
      → (get s.deliveries id ≡ none → ⊥)
      → ((r : DeliveryRecord)
          → get s.deliveries id ≡ some r
          → IsRecord platform id r (get s.credits id)
          → Outcome platform s t r id)
      → Advance s t
  Outcome-Advance id s t inv gone there = elim (Option-cases (get s.deliveries id)) [
    | inl missing ↦ absurd (gone missing)
    | inr (r, found) ↦ elim (there r found (inv.records id r found)) [
      | inl same ↦ Advance-refl s t inv same
      | inr (r', u) ↦ Advance-Update id s t r r' inv found u
    ]
  ]

  prepare-Advance :
      (input : PrepareDelivery) (s : StoreState)
      → Inv platform s
      → Advance s (transaction (prepare platform input) s).1
  prepare-Advance input s inv = transaction-Advance (prepare platform input) s inv λ x t e.
      elim (prepare-inserted platform s input x t e) [
        | inl same ↦ Advance-refl s t inv same
        | inr (fresh, (q, done)) ↦ record {
          inv = prepare-Inv platform s inv input x t e;
          history = λ k r f.
              let (there, same) = insert_record-kept s q input k r fresh f in
              (r, rw done there, inl refl, λ p. rw (done, same) refl);
        }
      ]

  create-Advance :
      (input : CreatePaymentRequest) (s : StoreState)
      → Inv platform s
      → Advance s (transaction (create_request platform input) s).1
  create-Advance input s inv = transaction-Advance (create_request platform input) s inv λ x t e.
      let (d, c) = create_request-deliveries platform s input x t e in
      record {
        inv = create_request-Inv platform s inv input x t e;
        history = λ k r f. (r, rw d f, inl refl, λ p. rw c refl);
      }

  -- Every call of the store, whether it returns or throws, keeps the invariant, keeps every delivery
  -- and its credit, and changes a delivery only as allowed.
  pub perform-Advance : (c : Call) (s : StoreState) → Inv platform s → Advance s (perform c s)
  unfolding perform
  perform-Advance (call_create input) s inv = create-Advance input s inv
  perform-Advance (call_prepare input) s inv = prepare-Advance input s inv
  perform-Advance (call_preflight command now) s inv =
      transaction-Advance (preflight command now) s inv
        λ x t e. Advance-refl s t inv (unfold preflight require_request in ground arith)
  perform-Advance (call_mark_mint_sent id) s inv =
      transaction-Advance (mark_mint_sent platform id) s inv λ x t e.
        Outcome-Advance id s t inv (λ m. unfold mark_mint_sent require_delivery in ground arith)
          λ r f h. mark_mint_sent_phase platform s t r id f h x r.phase refl e
  perform-Advance (call_record_redemption_start id) s inv =
      transaction-Advance (record_redemption_start id) s inv λ x t e.
        Outcome-Advance id s t inv
          (λ m. unfold record_redemption_start require_delivery in ground arith)
          λ r f h. record_redemption_start_phase platform s t r id f h x e
  perform-Advance (call_settle input) s inv =
      transaction-Advance (settle platform input) s inv λ x t e.
        Outcome-Advance input.delivery_id s t inv
          (λ m. unfold settle require_delivery in ground arith)
          λ r f h. settle_phase platform s t r input.delivery_id f h input x r.phase refl refl e
  perform-Advance (call_persist input) s inv =
      transaction-Advance (persist_settlement_outputs input) s inv λ x t e.
        Outcome-Advance input.delivery_id s t inv
          (λ m. unfold persist_settlement_outputs require_delivery in ground arith)
          λ r f h.
            persist_settlement_outputs_phase platform s t r input.delivery_id f h input x r.phase
              refl refl e
  perform-Advance (call_credit id now) s inv =
      transaction-Advance (credit_settlement id now) s inv λ x t e.
        Outcome-Advance id s t inv (λ m. unfold credit_settlement require_delivery in ground arith)
          λ r f h. credit_settlement_phase platform s t r id f h now x r.phase refl e
  perform-Advance (call_finalize id) s inv =
      transaction-Advance (finalize_settlement platform id) s inv λ x t e.
        Outcome-Advance id s t inv
          (λ m. unfold finalize_settlement require_delivery in ground arith)
          λ r f h. finalize_settlement_phase platform s t r id f h x r.phase refl e
  perform-Advance (call_block id) s inv =
      transaction-Advance (block_recovery platform id) s inv λ x t e.
        Outcome-Advance id s t inv (λ m. unfold block_recovery require_delivery in ground arith)
          λ r f h. block_recovery_phase platform s t r id f h x r.phase refl e
  perform-Advance (call_reject id detail claims) s inv =
      transaction-Advance (reject platform id detail claims) s inv λ x t e.
        Outcome-Advance id s t inv (λ m. unfold reject require_delivery in ground arith)
          λ r f h. reject_phase platform s t r id f h detail claims x r.phase refl e

  pub run-Inv : (cs : List Call) (s : StoreState) → Inv platform s → Inv platform (run cs s)
  unfolding run
  run-Inv [] s inv = inv
  run-Inv (c ∷ cs) s inv = run-Inv cs (perform c s) (perform-Advance c s inv).inv
