-- ===== src/Receiver/Safety/Promises.antt =====
-- What the receiver promises to merchants and senders, whatever calls its store has served.
use mathlib.Core.Option.{some-injective}
use cashu_fault_lab.Common.{
  ℕ, String, ◌≡◌, refl, ◌≢◌, ◌⊎◌, inl, inr, true, List, [], ◌∷◌, some, Option-cases, Bool-cases,
  arith, get, Member, sym, ◌∙◌,
}
use cashu_fault_lab.Delivery.Platform.{Platform}
use mathlib.Core.Path.{subst}
use cashu_fault_lab.Delivery.Receipt.{DeliveryReceipt}
use cashu_fault_lab.Delivery.Receipt.Transition.{Step}
use cashu_fault_lab.Delivery.Receipt.Observed.{Later, next, before}
use cashu_fault_lab.Receiver.Store.Settle.{credit_of}
use cashu_fault_lab.Receiver.Types.{DeliveryRecord, PaymentRequestRecord, MerchantCredit, rejected}
use cashu_fault_lab.Receiver.Store.{StoreState, empty_state}
use cashu_fault_lab.Receiver.Safety.{Inv, is_paid, is_final}
use cashu_fault_lab.Receiver.Safety.Invariant.{empty-Inv}
use cashu_fault_lab.Receiver.Safety.Runs.{Call, perform, run, perform-Advance, run-Inv}

module _ (platform : Platform) where
  -- the states that the store can reach
  unfoldable pub reached : List Call → StoreState
  reached cs = run platform cs empty_state

  reached-Inv : (cs : List Call) → Inv platform (reached cs)
  unfolding reached
  reached-Inv cs = run-Inv platform cs empty_state (empty-Inv platform)

-- a credit is that of a paid delivery under its ID
credit_origin :
    (platform : Platform) (s : StoreState) (id : String) (c : MerchantCredit)
    → Inv platform s
    → get s.credits id ≡ some c
    → (x : DeliveryRecord) × (get s.deliveries id ≡ some x)
      × (is_paid x.phase ≡ true)
      × ((n : ℕ) × (c ≡ credit_of x n))
credit_origin platform s id c inv f = elim (Option-cases (get s.deliveries id)) [
  | inl missing ↦ absurd (ground (arith, inv.orphans id))
  | inr (x, found) ↦
      let h = inv.records id x found in
      elim (Bool-cases (is_paid x.phase)) [
        | inr unpaid ↦ absurd (ground (arith, h.unpaid))
        | inl paid ↦ let (n, e) = h.paid paid in (x, found, paid, (n, ground arith))
      ]
]

-- After any calls, two deliveries that are not rejected and name a proof in common are one: no
-- proof backs two payments.
pub proofs_exclusive :
    (platform : Platform) (cs : List Call) (a b claim : String) (x y : DeliveryRecord)
    → get (reached platform cs).deliveries a ≡ some x
    → get (reached platform cs).deliveries b ≡ some y
    → x.phase ≢ rejected
    → y.phase ≢ rejected
    → Member claim x.proof_claim_ids
    → Member claim y.proof_claim_ids
    → a ≡ b
proofs_exclusive platform cs a b claim x y fx fy lx ly mx my =
    let inv = reached-Inv platform cs in
    some-injective a b (sym (inv.claims a claim x fx lx mx) ∙ inv.claims b claim y fy ly my)

-- After any calls, a credit of the merchant belongs to a delivery that is in the store and paid for,
-- and is for the amount of the payment request that the delivery answers.
pub credit_covered :
    (platform : Platform) (cs : List Call) (id : String) (c : MerchantCredit)
    → get (reached platform cs).credits id ≡ some c
    → (x : DeliveryRecord) × (get (reached platform cs).deliveries id ≡ some x)
      × (is_paid x.phase ≡ true)
      × ((q : PaymentRequestRecord) × (get (reached platform cs).requests c.request_id ≡ some q)
          × (c.amount ≡ q.amount)
          × (c.request_id ≡ x.request_id)
          × (c.delivery_id ≡ id))
credit_covered platform cs id c f =
    let inv = reached-Inv platform cs in
    let (x, found, paid, (n, e)) = credit_origin platform (reached platform cs) id c inv f in
    let (q, fq, amount) = inv.bound id x found in
    let h = inv.records id x found in
    (
      x,
      found,
      paid,
      unfold credit_of in (q, ground arith, ground arith, ground arith, ground arith),
    )

-- After any calls, a single-use payment request has been credited for at most one delivery.
pub single_use_credited_once :
    (platform : Platform) (cs : List Call) (a b : String) (c d : MerchantCredit)
    (q : PaymentRequestRecord)
    → get (reached platform cs).credits a ≡ some c
    → get (reached platform cs).credits b ≡ some d
    → c.request_id ≡ d.request_id
    → get (reached platform cs).requests c.request_id ≡ some q
    → q.single_use ≡ true
    → a ≡ b
single_use_credited_once platform cs a b c d q fc fd same fq on =
    let inv = reached-Inv platform cs in
    let (x, fx, px, (n, ex)) = credit_origin platform (reached platform cs) a c inv fc in
    let (y, fy, py, (m, ey)) = credit_origin platform (reached platform cs) b d inv fd in
    let cx : c.request_id ≡ x.request_id = unfold credit_of in ground arith in
    let dy : d.request_id ≡ y.request_id = unfold credit_of in ground arith in
    let held_a = inv.reservations a x q fx (λ e. ground arith) (rw (← cx) fq) on in
    let held_b = inv.reservations b y q fy (λ e. ground arith) (rw (← dy, ← same) fq) on in
    some-injective a b (ground arith)

module _ (platform : Platform) where
  perform_final :
      (c : Call) (s : StoreState) (id : String) (x : DeliveryRecord)
      → Inv platform s
      → get s.deliveries id ≡ some x
      → is_final x.phase ≡ true
      → (y : DeliveryRecord) × (get (perform platform c s).deliveries id ≡ some y)
        × (y.phase ≡ x.phase)
        × (y.receipt ≡ x.receipt)
        × (get (perform platform c s).credits id ≡ get s.credits id)
  perform_final c s id x inv f final =
      let a = perform-Advance platform c s inv in
      let (y, fy, how, kept) = a.history id x f in
      let old = inv.records id x f in
      let new = a.inv.records id y fy in
      let same : (y.phase ≡ x.phase) × (y.receipt ≡ x.receipt) = elim how [
        | inl e ↦ (rw e refl, rw e refl)
        | inr ch ↦ ch.final final
      ] in
      (y, fy, same.0, same.1, ground (arith, kept, old.unpaid, new.unpaid, same))

  run_final :
      (cs : List Call) (s : StoreState) (id : String) (x : DeliveryRecord)
      → Inv platform s
      → get s.deliveries id ≡ some x
      → is_final x.phase ≡ true
      → (y : DeliveryRecord) × (get (run platform cs s).deliveries id ≡ some y)
        × (y.phase ≡ x.phase)
        × (y.receipt ≡ x.receipt)
        × (get (run platform cs s).credits id ≡ get s.credits id)
  unfolding run
  run_final [] s id x inv f final = (x, f, refl, refl, refl)
  run_final (c ∷ cs) s id x inv f final =
      let (y, fy, py, ry, cy) = perform_final c s id x inv f final in
      let (z, fz, pz, rz, cz) =
        run_final cs (perform platform c s) id y (perform-Advance platform c s inv).inv fy
          (rw py final) in
      (z, fz, pz ∙ py, rz ∙ ry, cz ∙ cy)

  Later-Step :
      (a b c : DeliveryReceipt) → (a ≡ b) ⊎ Step a b → (b ≡ c) ⊎ Later b c → (a ≡ c) ⊎ Later a c
  Later-Step a b c (inl e) l = rw e l
  Later-Step a b c (inr s) (inl e) = inr (subst (Later a) e (next s))
  Later-Step a b c (inr s) (inr l) = inr (before a b c s l)

  run_receipts :
      (cs : List Call) (s : StoreState) (id : String) (x : DeliveryRecord)
      → Inv platform s
      → get s.deliveries id ≡ some x
      → (y : DeliveryRecord) × (get (run platform cs s).deliveries id ≡ some y)
        × ((x.receipt ≡ y.receipt) ⊎ Later x.receipt y.receipt)
  unfolding run
  run_receipts [] s id x inv f = (x, f, inl refl)
  run_receipts (c ∷ cs) s id x inv f =
      let a = perform-Advance platform c s inv in
      let (y, fy, how, kept) = a.history id x f in
      let (z, fz, later) = run_receipts cs (perform platform c s) id y a.inv fy in
      let first : (x.receipt ≡ y.receipt) ⊎ Step x.receipt y.receipt = elim how [
        | inl e ↦ inl (rw e refl)
        | inr ch ↦ elim ch.receipt [ inl e ↦ inl (sym e) | inr st ↦ inr st ]
      ] in
      (z, fz, Later-Step x.receipt y.receipt z.receipt first later)

-- Once a delivery is settled or rejected, no later calls change its phase, its receipt or the
-- credit under its ID.
pub final_for_good :
    (platform : Platform) (cs ds : List Call) (id : String) (x : DeliveryRecord)
    → get (reached platform cs).deliveries id ≡ some x
    → is_final x.phase ≡ true
    → (y : DeliveryRecord) × (get (run platform ds (reached platform cs)).deliveries id ≡ some y)
      × (y.phase ≡ x.phase)
      × (y.receipt ≡ x.receipt)
      × (get (run platform ds (reached platform cs)).credits id
          ≡ get (reached platform cs).credits id)
final_for_good platform cs ds id x f final =
    run_final platform ds (reached platform cs) id x (reached-Inv platform cs) f final

-- The receipt of a delivery only moves on: after any more calls it is the same one, or one that the
-- receipt transitions lead to step by step.
pub receipts_move_on :
    (platform : Platform) (cs ds : List Call) (id : String) (x : DeliveryRecord)
    → get (reached platform cs).deliveries id ≡ some x
    → (y : DeliveryRecord) × (get (run platform ds (reached platform cs)).deliveries id ≡ some y)
      × ((x.receipt ≡ y.receipt) ⊎ Later x.receipt y.receipt)
receipts_move_on platform cs ds id x f =
    run_receipts platform ds (reached platform cs) id x (reached-Inv platform cs) f
