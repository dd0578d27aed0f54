-- ===== src/Receiver/Safety/Updates.antt =====
-- Each method of the store that works on one delivery leaves the state alone or is an update.
use cashu_fault_lab.Common.{
  ℕ, ◌+◌, String, ◌≡◌, ◌≢◌, ◌⊎◌, inl, inr, true, false, Option, none, some, Bool-cases, sym, arith,
  ok, get, put, get-put, str_eq_refl, min,
}
use mathlib.Core.Option.{none-ne-some}
use cashu_fault_lab.Delivery.Platform.{Platform}
use cashu_fault_lab.Delivery.Receipt.{DeliveryStatus, DeliveryReceipt}
use cashu_fault_lab.Receiver.Types.{
  DeliveryPhase, prepared, mint_sent, recovery_blocked, outputs_persisted, credited, settled,
  DeliveryRecord, MerchantCredit, CommitSettlement,
}
use cashu_fault_lab.Receiver.Binding.{next_receipt}
use cashu_fault_lab.Receiver.Store.{StoreState}
use cashu_fault_lab.Receiver.Store.Settle.{save, bind_credit, credit_of, redemption_cap}
use cashu_fault_lab.Receiver.Safety.{is_paid, is_final, status_of, IsRecord, Update}
use cashu_fault_lab.Receiver.Safety.Receipts.{next_receipt-IsNext}

-- the credit that a method saves is the one that it computes, or the one that was there
pub bind_credit-credit_of :
    (platform : Platform) (id : String) (r : DeliveryRecord) (old : Option MerchantCredit) (now : ℕ)
    (c : MerchantCredit)
    → IsRecord platform id r old
    → bind_credit old (credit_of r now) ≡ ok c
    → (n : ℕ) × (c ≡ credit_of r n) × (is_paid r.phase ≡ true → old ≡ some c)
unfolding bind_credit
bind_credit-credit_of platform id r none now c h e =
    (now, ground arith, λ p. let (n, q) = h.paid p in absurd (none-ne-some _ q))
bind_credit-credit_of platform id r (some old) now c h e = elim (Bool-cases (is_paid r.phase)) [
  | inl p ↦ let (n, q) = h.paid p in (n, ground arith, λ _. ground arith)
  | inr u ↦ absurd (none-ne-some _ (sym (h.unpaid u)))
]

module _ (platform : Platform) (s t : StoreState) (r : DeliveryRecord) where
  -- A new receipt and phase, and nothing else.
  pub advance-Update :
      (id : String) (x : DeliveryReceipt) (status : DeliveryStatus) (detail : String)
      (phase : DeliveryPhase)
      → IsRecord platform id r (get s.credits id)
      → is_final r.phase ≡ false
      → status ≡ status_of phase
      → is_paid phase ≡ is_paid r.phase
      → phase ≢ prepared
      → next_receipt platform r.receipt status detail ≡ ok x
      → t ≡ save id (record r { phase = phase; receipt = x }) s
      → Update platform id s t r (record r { phase = phase; receipt = x })
  unfolding save credit_of
  advance-Update id x status detail phase h f st pd np e saved =
      let n = next_receipt-IsNext platform r.receipt status detail x e in
      record {
        saved = ground arith;
        requests = ground arith;
        change = ground arith;
        sound = record {
          keyed = h.keyed;
          receipt_delivery = ground arith;
          receipt_request = ground arith;
          receipt_amount = ground arith;
          valid = n.valid;
          status = ground arith;
          starts = h.starts;
          paid = λ p. let (now, q) = h.paid (ground arith) in (now, ground arith);
          unpaid = λ u. ground arith;
        };
        credit_kept = λ p. ground arith;
        credits = λ k d. ground arith;
        claims = λ k o g d. ground arith;
        reservations = λ k o g d. ground arith;
      }

  -- A new phase and new outputs, with the receipt that was there.
  pub persist-Update :
      (id : String) (input : CommitSettlement)
      → IsRecord platform id r (get s.credits id)
      → (r.phase ≡ mint_sent) ⊎ (r.phase ≡ recovery_blocked)
      → t
        ≡ save id
            (record r {
              phase = outputs_persisted;
              replacement_plan_hash = some input.replacement_plan_hash;
              replacement_proofs = some input.replacement_proofs;
            })
            s
      → Update platform id s t r (record r {
        phase = outputs_persisted;
        replacement_plan_hash = some input.replacement_plan_hash;
        replacement_proofs = some input.replacement_proofs;
      })
  unfolding save
  persist-Update id input h ph saved = record {
    saved = ground arith;
    requests = ground arith;
    change = ground arith;
    sound = record {
      keyed = h.keyed;
      receipt_delivery = h.receipt_delivery;
      receipt_request = h.receipt_request;
      receipt_amount = h.receipt_amount;
      valid = h.valid;
      status = ground arith;
      starts = h.starts;
      paid = λ p. absurd (ground arith);
      unpaid = λ u. ground arith;
    };
    credit_kept = λ p. ground arith;
    credits = λ k d. ground arith;
    claims = λ k o g d. ground arith;
    reservations = λ k o g d. ground arith;
  }

  pub starts-Update :
      (id : String)
      → IsRecord platform id r (get s.credits id)
      → t
        ≡ save id (record r { redemption_starts = min (r.redemption_starts + 1) redemption_cap }) s
      → Update platform id s t r
          (record r { redemption_starts = min (r.redemption_starts + 1) redemption_cap })
  unfolding save redemption_cap credit_of
  starts-Update id h saved = record {
    saved = ground arith;
    requests = ground arith;
    change = ground arith;
    sound = record {
      keyed = h.keyed;
      receipt_delivery = h.receipt_delivery;
      receipt_request = h.receipt_request;
      receipt_amount = h.receipt_amount;
      valid = h.valid;
      status = h.status;
      starts = omega arith;
      paid = λ p. let (now, q) = h.paid p in (now, ground arith);
      unpaid = λ u. ground (arith, h.unpaid u);
    };
    credit_kept = λ p. ground arith;
    credits = λ k d. ground arith;
    claims = λ k o g d. ground arith;
    reservations = λ k o g d. ground arith;
  }

  -- A credit saved with the delivery in phase `credited`.
  pub credit-Update :
      (id : String) (c : MerchantCredit) (now : ℕ)
      → IsRecord platform id r (get s.credits id)
      → r.phase ≡ outputs_persisted
      → c ≡ credit_of r now
      → t ≡ record s {
        credits = put s.credits id c;
        deliveries = put s.deliveries id (record r { phase = credited });
      }
      → Update platform id s t r (record r { phase = credited })
  unfolding credit_of
  credit-Update id c now h ph ce saved = record {
    saved = ground arith;
    requests = ground arith;
    change = ground arith;
    sound = record {
      keyed = h.keyed;
      receipt_delivery = h.receipt_delivery;
      receipt_request = h.receipt_request;
      receipt_amount = h.receipt_amount;
      valid = h.valid;
      status = ground arith;
      starts = h.starts;
      paid = λ p. (now, ground (arith, get-put s.credits id c id, str_eq_refl id));
      unpaid = λ u. absurd (ground arith);
    };
    credit_kept = λ p. absurd (ground arith);
    credits = λ k d. ground (arith, get-put s.credits id c k);
    claims = λ k o g d. ground arith;
    reservations = λ k o g d. ground arith;
  }

  -- A credit, the outputs and the final receipt saved at once.
  pub settle-Update :
      (id : String) (input : CommitSettlement) (x : DeliveryReceipt) (c : MerchantCredit) (now : ℕ)
      → IsRecord platform id r (get s.credits id)
      → is_final r.phase ≡ false
      → c ≡ credit_of r now
      → (is_paid r.phase ≡ true → get s.credits id ≡ some c)
      → next_receipt platform r.receipt DeliveryStatus.settled "settled" ≡ ok x
      → t ≡ record s {
        credits = put s.credits id c;
        deliveries = put s.deliveries id (record r {
          phase = settled;
          replacement_plan_hash = some input.replacement_plan_hash;
          replacement_proofs = some input.replacement_proofs;
          receipt = x;
        });
      }
      → Update platform id s t r (record r {
        phase = settled;
        replacement_plan_hash = some input.replacement_plan_hash;
        replacement_proofs = some input.replacement_proofs;
        receipt = x;
      })
  unfolding credit_of
  settle-Update id input x c now h f ce keep e saved =
      let n = next_receipt-IsNext platform r.receipt DeliveryStatus.settled "settled" x e in
      record {
        saved = ground arith;
        requests = ground arith;
        change = ground arith;
        sound = record {
          keyed = h.keyed;
          receipt_delivery = ground arith;
          receipt_request = ground arith;
          receipt_amount = ground arith;
          valid = n.valid;
          status = ground arith;
          starts = h.starts;
          paid = λ p. (now, ground (arith, get-put s.credits id c id, str_eq_refl id));
          unpaid = λ u. absurd (ground arith);
        };
        credit_kept = λ p. ground (arith, keep p, get-put s.credits id c id, str_eq_refl id);
        credits = λ k d. ground (arith, get-put s.credits id c k);
        claims = λ k o g d. ground arith;
        reservations = λ k o g d. ground arith;
      }
