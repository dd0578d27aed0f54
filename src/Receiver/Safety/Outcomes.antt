-- ===== src/Receiver/Safety/Outcomes.antt =====
-- Each method of the store that works on one delivery leaves the state alone or is an update of it.
use cashu_fault_lab.Common.{
  String, ◌≡◌, refl, inl, inr, Bool, true, false, List, [], ◌∷◌, some, sym, arith, ok, get,
  get-remove, eq_iff, str_eq, Result-cases, Number, Map, if◌then◌else◌,
}
use cashu_fault_lab.Delivery.Platform.{Platform}
use cashu_fault_lab.Delivery.Receipt.{DeliveryStatus, DeliveryReceipt}
use cashu_fault_lab.Receiver.Types.{
  DeliveryPhase, prepared, mint_sent, recovery_blocked, outputs_persisted, credited, settled,
  rejected, DeliveryRecord, CommitSettlement,
}
use cashu_fault_lab.Receiver.Binding.{assert_safe_integer}
use cashu_fault_lab.Receiver.Store.{StoreState, require_delivery}
use cashu_fault_lab.Receiver.Store.Settle.{
  save, mark_mint_sent, record_redemption_start, persist_settlement_outputs, credit_settlement,
  finalize_settlement, settle, block_recovery, bind_credit, credit_of, release_all,
  release_reservation, release, reject,
}
use cashu_fault_lab.Receiver.Safety.{is_paid, is_final, IsRecord, Update, Outcome}
use cashu_fault_lab.Receiver.Safety.Updates.{
  bind_credit-credit_of, advance-Update, persist-Update, starts-Update, credit-Update,
  settle-Update,
}

-- Releasing the claims of one delivery leaves those of the others.
release_all-other :
    (cs : List String) (id k owner : String) (m : Map String)
    → get m k ≡ some owner
    → str_eq owner id ≡ false
    → get (release_all cs id m) k ≡ some owner
unfolding release_all
release_all-other [] id k owner m g d = g
release_all-other (c ∷ cs) id k owner m g d =
    release_all-other cs id k owner _ (ground (arith, get-remove m c k, eq_iff c k)) d

release_reservation-other :
    (q id k owner : String) (m : Map String)
    → get m k ≡ some owner
    → str_eq owner id ≡ false
    → get (release_reservation q id m) k ≡ some owner
unfolding release_reservation
release_reservation-other q id k owner m g d = ground (arith, get-remove m q k, eq_iff q k)

release-Update :
    (platform : Platform) (s u : StoreState) (r r' : DeliveryRecord) (id : String)
    → r'.phase ≡ rejected
    → Update platform id s u r r'
    → Update platform id s (release r id u) r r'
unfolding release
release-Update platform s u r r' id ph h = record {
  saved = h.saved;
  requests = h.requests;
  change = h.change;
  sound = h.sound;
  credit_kept = h.credit_kept;
  credits = h.credits;
  claims = λ k o g d. elim d [
    | inl other ↦
        release_all-other r.proof_claim_ids id k o u.proof_claims (h.claims k o g (inl other)) other
    | inr live ↦ absurd (live ph)
  ];
  reservations = λ k o g d. elim d [
    | inl other ↦
        release_reservation-other r.request_id id k o u.request_reservations
          (h.reservations k o g (inl other)) other
    | inr live ↦ absurd (live ph)
  ];
}

maybe_release-Update :
    (platform : Platform) (s u : StoreState) (r r' : DeliveryRecord) (id : String) (claims : Bool)
    → r'.phase ≡ rejected
    → Update platform id s u r r'
    → Update platform id s (if claims then release r id u else u) r r'
maybe_release-Update platform s u r r' id true ph h = release-Update platform s u r r' id ph h
maybe_release-Update platform s u r r' id false ph h = h

module _ (platform : Platform) (s t : StoreState) (r : DeliveryRecord) (id : String)
    (found : get s.deliveries id ≡ some r) (h : IsRecord platform id r (get s.credits id)) where
  pub mark_mint_sent_phase :
      (x : DeliveryReceipt) (p : DeliveryPhase)
      → r.phase ≡ p
      → mark_mint_sent platform id s ≡ ok (x, t)
      → Outcome platform s t r id
  unfolding mark_mint_sent require_delivery
  mark_mint_sent_phase x prepared ph e = inr (
    _,
    advance-Update platform s t r id x DeliveryStatus.processing "redeeming" mint_sent h
        (ground arith) refl (ground arith) (cc) (ground arith) (ground arith),
  )
  mark_mint_sent_phase x _ ph e = inl (ground arith)

  pub block_recovery_phase :
      (x : DeliveryReceipt) (p : DeliveryPhase)
      → r.phase ≡ p
      → block_recovery platform id s ≡ ok (x, t)
      → Outcome platform s t r id
  unfolding block_recovery require_delivery
  block_recovery_phase x prepared ph e = inr (
    _,
    advance-Update platform s t r id x DeliveryStatus.processing "recovery_blocked" recovery_blocked
        h (ground arith) refl (ground arith) (cc) (ground arith) (ground arith),
  )
  block_recovery_phase x mint_sent ph e = inr (
    _,
    advance-Update platform s t r id x DeliveryStatus.processing "recovery_blocked" recovery_blocked
        h (ground arith) refl (ground arith) (cc) (ground arith) (ground arith),
  )
  block_recovery_phase x _ ph e = inl (ground arith)

  pub finalize_settlement_phase :
      (x : DeliveryReceipt) (p : DeliveryPhase)
      → r.phase ≡ p
      → finalize_settlement platform id s ≡ ok (x, t)
      → Outcome platform s t r id
  unfolding finalize_settlement require_delivery
  finalize_settlement_phase x credited ph e = inr (
    _,
    advance-Update platform s t r id x DeliveryStatus.settled "settled" settled h (ground arith)
        refl (ground arith) (cc) (ground arith) (ground arith),
  )
  finalize_settlement_phase x _ ph e = inl (ground arith)

  pub persist_settlement_outputs_phase :
      (input : CommitSettlement) (x : DeliveryReceipt) (p : DeliveryPhase)
      → r.phase ≡ p
      → input.delivery_id ≡ id
      → persist_settlement_outputs input s ≡ ok (x, t)
      → Outcome platform s t r id
  unfolding persist_settlement_outputs require_delivery
  persist_settlement_outputs_phase input x mint_sent ph k e =
      inr (_, persist-Update platform s t r id input h (inl ph) (ground arith))
  persist_settlement_outputs_phase input x recovery_blocked ph k e =
      inr (_, persist-Update platform s t r id input h (inr ph) (ground arith))
  persist_settlement_outputs_phase input x _ ph k e = inl (ground arith)

  pub record_redemption_start_phase :
      (x : Unit {0}) → record_redemption_start id s ≡ ok (x, t) → Outcome platform s t r id
  unfolding record_redemption_start require_delivery
  record_redemption_start_phase x e = inr (_, starts-Update platform s t r id h (ground arith))

  pub credit_settlement_phase :
      (time : Number) (x : DeliveryReceipt) (p : DeliveryPhase)
      → r.phase ≡ p
      → credit_settlement id time s ≡ ok (x, t)
      → Outcome platform s t r id
  unfolding credit_settlement require_delivery
  credit_settlement_phase time x outputs_persisted ph e =
      elim (Result-cases (assert_safe_integer time)) [
        | inr (_, bad) ↦ absurd (ground arith)
        | inl (now, good) ↦ elim (Result-cases (bind_credit (get s.credits id) (credit_of r now))) [
          | inr (_, bad) ↦ absurd (ground arith)
          | inl (c, bound) ↦
              let (n, ce, keep) =
                bind_credit-credit_of platform id r (get s.credits id) now c h bound in
              inr (_, credit-Update platform s t r id c n h ph ce (ground arith))
        ]
      ]
  credit_settlement_phase time x _ ph e = inl (ground arith)

  settle_now :
      (input : CommitSettlement) (x : DeliveryReceipt)
      → is_final r.phase ≡ false
      → input.delivery_id ≡ id
      → settle platform input s ≡ ok (x, t)
      → Outcome platform s t r id
  unfolding settle require_delivery
  settle_now input x ph k e = elim (Result-cases (assert_safe_integer input.now)) [
    | inr (_, bad) ↦ absurd (ground arith)
    | inl (now, good) ↦ elim (Result-cases (bind_credit (get s.credits id) (credit_of r now))) [
      | inr (_, bad) ↦ absurd (ground arith)
      | inl (c, bound) ↦
          let (n, ce, keep) =
            bind_credit-credit_of platform id r (get s.credits id) now c h bound in
          inr (
            _,
            settle-Update platform s t r id input x c n h ph ce keep (ground arith) (ground arith),
          )
    ]
  ]

  pub settle_phase :
      (input : CommitSettlement) (x : DeliveryReceipt) (p : DeliveryPhase)
      → r.phase ≡ p
      → input.delivery_id ≡ id
      → settle platform input s ≡ ok (x, t)
      → Outcome platform s t r id
  unfolding settle require_delivery
  settle_phase input x settled ph k e = inl (ground arith)
  settle_phase input x rejected ph k e = inl (ground arith)
  settle_phase input x _ ph k e = settle_now input x (ground arith) k e

  reject_now :
      (detail : String) (claims : Bool) (x : DeliveryReceipt)
      → is_final r.phase ≡ false
      → is_paid r.phase ≡ false
      → reject platform id detail claims s ≡ ok (x, t)
      → Outcome platform s t r id
  unfolding reject require_delivery
  reject_now detail claims x f u e =
      let r' : DeliveryRecord = record r { phase = rejected; receipt = x } in
      let done : t ≡ (if claims then release r id (save id r' s) else save id r' s) =
        ground arith in
      inr (
        r',
        rw done (
            maybe_release-Update platform s (save id r' s) r r' id claims refl (
              advance-Update platform s (save id r' s) r id x DeliveryStatus.rejected detail
                rejected h f refl (sym u) (cc) (ground arith) refl)),
      )

  pub reject_phase :
      (detail : String) (claims : Bool) (x : DeliveryReceipt) (p : DeliveryPhase)
      → r.phase ≡ p
      → reject platform id detail claims s ≡ ok (x, t)
      → Outcome platform s t r id
  unfolding reject require_delivery
  reject_phase detail claims x prepared ph e =
      reject_now detail claims x (ground arith) (ground arith) e
  reject_phase detail claims x mint_sent ph e =
      reject_now detail claims x (ground arith) (ground arith) e
  reject_phase detail claims x _ ph e = inl (ground arith)
