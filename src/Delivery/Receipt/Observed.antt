-- ===== src/Delivery/Receipt/Observed.antt =====
-- mergeObservedReceipt: what an observer keeps of receipts that arrive late, twice or out of order.
use cashu_fault_lab.Common.{◌<◌, ◌≡◌, false, ◌⊎◌, some, arith, ok}
use cashu_fault_lab.Delivery.Platform.{Platform}
use cashu_fault_lab.Delivery.Receipt.{
  processing, DeliveryReceipt, rejects_blocked, choose_observed, merge_observed_receipt,
}
use cashu_fault_lab.Delivery.Receipt.Valid.{
  SameIdentity, SameIdentity-sym, SameIdentity-trans, same_identity_iff, same_receipt_iff,
  rejects_blocked_iff, IsValid,
}
use cashu_fault_lab.Delivery.Receipt.Transition.{Step}

-- What is kept: the receipt with the higher version, and no way back from a final status.
pub record Kept (previous next kept : DeliveryReceipt) : Type 0 where
  pub identity : SameIdentity previous next
  pub latest :
      ((kept ≡ previous) × ((previous ≡ next) ⊎ (next.status_version < previous.status_version)))
      ⊎ ((kept ≡ next)
          × (previous.status_version < next.status_version)
          × (previous.status ≡ processing))

choose_observed-Kept : (a b r : DeliveryReceipt) → choose_observed a b ≡ ok r → Kept a b r
unfolding choose_observed
choose_observed-Kept a b r e =
    ground (arith, same_identity_iff a b, same_receipt_iff a b, rejects_blocked_iff a b)

-- What mergeObservedReceipt returns is valid and is the receipt with the higher version; it takes
-- the later receipt only of the same delivery, and only while the earlier one is processing.
pub merge_observed_receipt-Kept :
    (platform : Platform) (a b r : DeliveryReceipt)
    → merge_observed_receipt platform (some a) b ≡ ok r
    → Kept a b r × IsValid platform r
unfolding merge_observed_receipt
merge_observed_receipt-Kept platform a b r e = ground (arith, choose_observed-Kept a b r)

-- Merged in either order, two receipts give one result.
merge_observed_receipt_comm :
    (platform : Platform) (a b r s : DeliveryReceipt)
    → merge_observed_receipt platform (some a) b ≡ ok r
    → merge_observed_receipt platform (some b) a ≡ ok s
    → r ≡ s
merge_observed_receipt_comm platform a b r s e f = ground (
  arith,
  merge_observed_receipt-Kept platform a b r e,
  merge_observed_receipt-Kept platform b a s f,
)

-- A receipt that is some steps later.
pub data Later (a : DeliveryReceipt) : DeliveryReceipt → Type 0 where
  next : {b : DeliveryReceipt} → Step a b → Later a b
  more : {b c : DeliveryReceipt} → Later a b → Step b c → Later a c

pub before : (a b c : DeliveryReceipt) → Step a b → Later b c → Later a c
before a b c s (next r) = more (next s) r
before a b c s (more {b = m} l r) = more (before a b m s l) r

record IsAhead (a b : DeliveryReceipt) : Type 0 where
  identity : SameIdentity a b
  live : a.status ≡ processing
  higher : a.status_version < b.status_version

Step-IsAhead : (a b : DeliveryReceipt) → Step a b → IsAhead a b
Step-IsAhead a b s = record { identity = s.identity; live = s.live; higher = omega arith }

IsAhead-trans : (a b c : DeliveryReceipt) → IsAhead a b → IsAhead b c → IsAhead a c
IsAhead-trans a b c p q = record {
  identity = SameIdentity-trans p.identity q.identity;
  live = p.live;
  higher = omega arith;
}

Later-IsAhead : (a b : DeliveryReceipt) → Later a b → IsAhead a b
Later-IsAhead a b (next s) = Step-IsAhead a b s
Later-IsAhead a b (more {b = m} l s) =
    IsAhead-trans a m b (Later-IsAhead a m l) (Step-IsAhead m b s)

choose-IsAhead :
    (a b : DeliveryReceipt)
    → IsAhead a b
    → rejects_blocked a b ≡ false
    → (choose_observed a b ≡ ok b) × (choose_observed b a ≡ ok b)
unfolding choose_observed
choose-IsAhead a b h n = ground (
  arith,
  same_identity_iff a b,
  same_identity_iff b a,
  SameIdentity-sym h.identity,
  same_receipt_iff a b,
)

-- Of two valid receipts of one life the later one is kept, whichever arrives first, unless the
-- earlier one reports a blocked recovery and the later one a rejection.
pub merge_observed_receipt-Later :
    (platform : Platform) (a b : DeliveryReceipt)
    → IsValid platform a
    → IsValid platform b
    → Later a b
    → rejects_blocked a b ≡ false
    → (merge_observed_receipt platform (some a) b ≡ ok b)
      × (merge_observed_receipt platform (some b) a ≡ ok b)
unfolding merge_observed_receipt
merge_observed_receipt-Later platform a b va vb l n =
    ground (arith, choose-IsAhead a b (Later-IsAhead a b l) n)
