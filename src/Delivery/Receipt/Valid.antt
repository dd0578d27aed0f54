-- ===== src/Delivery/Receipt/Valid.antt =====
-- Reading the tests of receipt.ts: when a receipt is valid, and when two receipts agree.
use cashu_fault_lab.Common.{◌≡◌, ◌↔◌, true, arith, eq_iff, ok}
use cashu_fault_lab.Delivery.Platform.{Platform}
use cashu_fault_lab.Delivery.Receipt.{
  rejected, status_eq, DeliveryReceipt, same_identity, same_receipt, has_valid_fields, check_names,
  assert_valid_receipt, rejects_blocked,
}

pub record SameIdentity (a b : DeliveryReceipt) : Type 0 where
  pub profile : a.profile ≡ b.profile
  pub request_id : a.request_id ≡ b.request_id
  pub delivery_id : a.delivery_id ≡ b.delivery_id
  pub payload_hash : a.payload_hash ≡ b.payload_hash
  pub mint : a.mint ≡ b.mint
  pub unit : a.unit ≡ b.unit
  pub amount : a.amount ≡ b.amount

pub SameIdentity-sym : {a b : DeliveryReceipt} → SameIdentity a b → SameIdentity b a
SameIdentity-sym h = ground arith

pub SameIdentity-trans :
    {a b c : DeliveryReceipt} → SameIdentity a b → SameIdentity b c → SameIdentity a c
SameIdentity-trans p q = ground arith

module _ (a b : DeliveryReceipt) where
  pub same_identity_iff : (same_identity a b ≡ true) ↔ SameIdentity a b
  unfolding same_identity
  same_identity_iff = ground (
    arith,
    eq_iff a.profile b.profile,
    eq_iff a.request_id b.request_id,
    eq_iff a.delivery_id b.delivery_id,
    eq_iff a.payload_hash b.payload_hash,
    eq_iff a.mint b.mint,
    eq_iff a.unit b.unit,
  )

  pub status_eq_iff : (status_eq a.status b.status ≡ true) ↔ (a.status ≡ b.status)
  status_eq_iff = ground arith

  -- The receipts that the code calls the same are equal.
  pub same_receipt_iff : (same_receipt a b ≡ true) ↔ (a ≡ b)
  unfolding same_receipt
  same_receipt_iff = ground (arith, same_identity_iff, eq_iff a.detail_code b.detail_code)

  pub rejects_blocked_iff :
      (rejects_blocked a b ≡ true) ↔ ((a.detail_code ≡ "recovery_blocked") × (b.status ≡ rejected))
  unfolding rejects_blocked
  rejects_blocked_iff = ground (arith, eq_iff a.detail_code "recovery_blocked")

module _ (platform : Platform) where
  abbrev pub IsValid : DeliveryReceipt → Type 0
  IsValid r = assert_valid_receipt platform r ≡ ok tt

  pub IsValid-iff :
      (r : DeliveryReceipt)
      → IsValid r ↔ (
          (has_valid_fields r ≡ true)
          × (check_names platform r.request_id r.delivery_id r.mint ≡ ok tt))
  unfolding assert_valid_receipt
  IsValid-iff r = ground arith
