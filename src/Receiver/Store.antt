-- ===== src/Receiver/Store.antt =====
-- apps/reference-receiver/src/adapters/memory-store.ts. Each method runs one `#transaction`: it works
-- on a draft of the state, which replaces the state only if the method returns.
pub mod Requests
pub mod Prepare
pub mod Settle
use cashu_fault_lab.Common.{String, List, [], Map, get, Option, none, some, Result, ok, err, ◌>>=◌}
use cashu_fault_lab.Receiver.Types.{
  invalid_state, Thrown, domain, PaymentRequestRecord, DeliveryRecord, MerchantCredit,
}

pub record StoreState : Type 0 where
  pub requests : Map PaymentRequestRecord
  pub deliveries : Map DeliveryRecord
  pub proof_claims : Map String
  pub request_reservations : Map String
  pub credits : Map MerchantCredit

abbrev pub empty_state : StoreState
empty_state = record {
  requests = [];
  deliveries = [];
  proof_claims = [];
  request_reservations = [];
  credits = [];
}

-- what a method does to its draft
abbrev pub Operation : Type 0 → Type 0
Operation A = StoreState → Result Thrown (A × StoreState)

-- #transaction
unfoldable pub transaction : {A : Type 0} → Operation A → StoreState → Result Thrown A × StoreState
transaction operation state = elim (operation state) [
  | ok (a, draft) ↦ (ok a, draft)
  | err e ↦ (err e, state)
]

-- #requireDelivery
unfoldable pub require_delivery : StoreState → String → Result Thrown DeliveryRecord
require_delivery state id = elim (get state.deliveries id) [
  | none ↦ err (domain invalid_state)
  | some r ↦ ok r
]
