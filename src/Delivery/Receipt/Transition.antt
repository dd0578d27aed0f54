-- ===== src/Delivery/Receipt/Transition.antt =====
-- assertReceiptTransition against the steps that the profile allows.
use cashu_fault_lab.Common.{◌+◌, ◌≡◌, ◌≢◌, ◌↔◌, ◌⊎◌, some, arith, eq_iff, ok}
use cashu_fault_lab.Delivery.Platform.{Platform}
use cashu_fault_lab.Delivery.Receipt.{
  processing, rejected, DeliveryReceipt, check_transition, assert_receipt_transition,
}
use cashu_fault_lab.Delivery.Receipt.Valid.{
  SameIdentity, same_identity_iff, same_receipt_iff, rejects_blocked_iff, IsValid,
}

-- One step of a receipt's life: the next version of the same receipt, with a change to show.
pub record Step (previous next : DeliveryReceipt) : Type 0 where
  pub identity : SameIdentity previous next
  pub live : previous.status ≡ processing
  pub version : next.status_version ≡ previous.status_version + 1
  pub changed : next.status ≡ previous.status → next.detail_code ≢ previous.detail_code
  pub unspent : previous.detail_code ≡ "recovery_blocked" → next.status ≢ rejected

check_transition_sound : (a b : DeliveryReceipt) → check_transition a b ≡ ok tt → (a ≡ b) ⊎ Step a b
unfolding check_transition
check_transition_sound a b e = ground (
  arith,
  same_identity_iff a b,
  same_receipt_iff a b,
  rejects_blocked_iff a b,
  eq_iff b.detail_code a.detail_code,
)

check_transition_complete :
    (a b : DeliveryReceipt) → (a ≡ b) ⊎ Step a b → check_transition a b ≡ ok tt
unfolding check_transition
check_transition_complete a b h = ground (
  arith,
  same_identity_iff a b,
  same_receipt_iff a b,
  rejects_blocked_iff a b,
  eq_iff b.detail_code a.detail_code,
)

-- assertReceiptTransition accepts a receipt after another exactly when both are valid and the
-- second repeats the first or is one step of its life.
pub assert_receipt_transition_iff :
    (platform : Platform) (a b : DeliveryReceipt)
    → (assert_receipt_transition platform (some a) b ≡ ok tt)
      ↔ (IsValid platform b × IsValid platform a × ((a ≡ b) ⊎ Step a b))
unfolding assert_receipt_transition
assert_receipt_transition_iff platform a b =
    ground (arith, check_transition_sound a b, check_transition_complete a b)
