-- ===== src/Receiver/Safety.antt =====
-- What holds of the receiver's store between two transactions: of one delivery, of what one
-- transaction may change of it, and of the whole state.
pub mod Receipts
pub mod Updates
pub mod Outcomes
pub mod Invariant
pub mod Inserted
pub mod Inserts
pub mod Runs
pub mod Promises
use cashu_fault_lab.Common.{
  ℕ, ◌≤◌, String, ◌≡◌, ◌≢◌, ◌⊎◌, Bool, true, false, Option, none, some, List, Member, str_eq, Map,
  get, put,
}
use cashu_fault_lab.Delivery.Platform.{Platform}
use cashu_fault_lab.Delivery.Receipt.{DeliveryStatus}
use cashu_fault_lab.Delivery.Receipt.Valid.{IsValid}
use cashu_fault_lab.Delivery.Receipt.Transition.{Step}
use cashu_fault_lab.Receiver.Types.{
  DeliveryPhase, prepared, mint_sent, recovery_blocked, outputs_persisted, credited, settled,
  rejected, DeliveryRecord, MerchantCredit, PaymentRequestRecord,
}
use cashu_fault_lab.Receiver.Store.{StoreState}
use cashu_fault_lab.Receiver.Store.Settle.{credit_of}

abbrev pub status_of : DeliveryPhase → DeliveryStatus
status_of settled = DeliveryStatus.settled
status_of rejected = DeliveryStatus.rejected
status_of _ = DeliveryStatus.processing

-- the merchant has been credited
abbrev pub is_paid : DeliveryPhase → Bool
is_paid credited = true
is_paid settled = true
is_paid _ = false

abbrev pub is_final : DeliveryPhase → Bool
is_final settled = true
is_final rejected = true
is_final _ = false

module _ (platform : Platform) where
  -- One delivery, under its ID, with the credit that the store has for that ID.
  pub record IsRecord (id : String) (r : DeliveryRecord) (credit : Option MerchantCredit)
      : Type 0 where
    pub keyed : r.delivery_id ≡ id
    pub receipt_delivery : r.receipt.delivery_id ≡ id
    pub receipt_request : r.receipt.request_id ≡ r.request_id
    pub receipt_amount : r.receipt.amount ≡ r.amount
    pub valid : IsValid platform r.receipt
    pub status : r.receipt.status ≡ status_of r.phase
    pub starts : r.redemption_starts ≤ 1000
    pub paid : is_paid r.phase ≡ true → (now : ℕ) × (credit ≡ some (credit_of r now))
    pub unpaid : is_paid r.phase ≡ false → credit ≡ none

-- What a transaction may change of a delivery that is there.
pub record Change (r r' : DeliveryRecord) : Type 0 where
  pub request_id : r'.request_id ≡ r.request_id
  pub delivery_id : r'.delivery_id ≡ r.delivery_id
  pub payload_hash : r'.payload_hash ≡ r.payload_hash
  pub proof_set_hash : r'.proof_set_hash ≡ r.proof_set_hash
  pub proof_claim_ids : r'.proof_claim_ids ≡ r.proof_claim_ids
  pub plan : r'.plan ≡ r.plan
  pub amount : r'.amount ≡ r.amount
  pub receipt : (r'.receipt ≡ r.receipt) ⊎ Step r.receipt r'.receipt
  pub starts : r.redemption_starts ≤ r'.redemption_starts
  pub final : is_final r.phase ≡ true → (r'.phase ≡ r.phase) × (r'.receipt ≡ r.receipt)
  pub paid : is_paid r.phase ≡ true → is_paid r'.phase ≡ true
  pub no_return : r.phase ≢ prepared → r'.phase ≢ prepared

-- What others hold is kept, and what the delivery holds too unless it is rejected.
abbrev pub Keeps : String → DeliveryRecord → Map String → Map String → Type 0
Keeps id r m m' =
    (k owner : String)
    → get m k ≡ some owner
    → (str_eq owner id ≡ false) ⊎ (r.phase ≢ rejected)
    → get m' k ≡ some owner

module _ (platform : Platform) where
  -- A transaction that saves one delivery anew.
  pub record Update (id : String) (s t : StoreState) (r r' : DeliveryRecord) : Type 0 where
    pub saved : t.deliveries ≡ put s.deliveries id r'
    pub requests : t.requests ≡ s.requests
    pub change : Change r r'
    pub sound : IsRecord platform id r' (get t.credits id)
    pub credit_kept : is_paid r.phase ≡ true → get t.credits id ≡ get s.credits id
    pub credits : (k : String) → str_eq id k ≡ false → get t.credits k ≡ get s.credits k
    pub claims : Keeps id r' s.proof_claims t.proof_claims
    pub reservations : Keeps id r' s.request_reservations t.request_reservations

  -- What a method that returns has done to the delivery `r` that was there under `id`.
  abbrev pub Outcome : StoreState → StoreState → DeliveryRecord → String → Type 0
  Outcome s t r id = (t ≡ s) ⊎ ((r' : DeliveryRecord) × Update id s t r r')

  pub record Inv (s : StoreState) : Type 0 where
    pub records :
        (id : String) (r : DeliveryRecord)
        → get s.deliveries id ≡ some r
        → IsRecord platform id r (get s.credits id)
    pub orphans : (id : String) → get s.deliveries id ≡ none → get s.credits id ≡ none
    pub claims :
        (id claim : String) (r : DeliveryRecord)
        → get s.deliveries id ≡ some r
        → r.phase ≢ rejected
        → Member claim r.proof_claim_ids
        → get s.proof_claims claim ≡ some id
    pub reservations :
        (id : String) (r : DeliveryRecord) (q : PaymentRequestRecord)
        → get s.deliveries id ≡ some r
        → r.phase ≢ rejected
        → get s.requests r.request_id ≡ some q
        → q.single_use ≡ true
        → get s.request_reservations r.request_id ≡ some id
    pub requests : (k : String) (q : PaymentRequestRecord) → get s.requests k ≡ some q → q.id ≡ k
    pub bound :
        (id : String) (r : DeliveryRecord)
        → get s.deliveries id ≡ some r
        → (q : PaymentRequestRecord) × (get s.requests r.request_id ≡ some q)
          × (q.amount ≡ r.amount)
