-- ===== src/Oracle/Loop.antt =====
-- packages/oracle/src/invariants.ts: the loop of `assertSafety` over the observations. What it throws
-- is a message, which the model leaves out.
use cashu_fault_lab.Common.{
  ℕ, ◌+◌, String, Bool, true, false, ◌&&◌, not, Option, none, some, List, [], ◌∷◌, ◌++◌, Map, get,
  put, str_eq, ◌==◌, leb, is_safe, includes, if◌then◌else◌, Result, ok, ◌>>=◌, ◌>>◌, ensure,
}
use cashu_fault_lab.Oracle.Model.{
  MintProofState, unspent, OracleReceiptStatus, processing, settled, rejected, OracleCredit,
  OracleReceipt, DeliveryIdentity, Observation, request_observed, delivery_attempted,
  mint_proofs_state, redemption_started, receiver_settled, merchant_credited, receipt_observed,
}

unfoldable pub bool_eq : Bool → Bool → Bool
bool_eq true b = b
bool_eq false b = not b

unfoldable pub same_status : OracleReceiptStatus → OracleReceiptStatus → Bool
same_status processing processing = true
same_status settled settled = true
same_status rejected rejected = true
same_status _ _ = false

unfoldable pub same_delivery : DeliveryIdentity → DeliveryIdentity → Bool
same_delivery left right =
    str_eq left.request_id right.request_id
    && str_eq left.payload_hash right.payload_hash
    && str_eq left.proof_set_hash right.proof_set_hash

unfoldable pub same_credit : OracleCredit → OracleCredit → Bool
same_credit left right =
    str_eq left.credit_id right.credit_id
    && str_eq left.request_id right.request_id
    && str_eq left.delivery_id right.delivery_id
    && left.amount == right.amount
    && str_eq left.unit right.unit

unfoldable pub same_receipt : OracleReceipt → OracleReceipt → Bool
same_receipt left right =
    str_eq left.request_id right.request_id
    && str_eq left.delivery_id right.delivery_id
    && str_eq left.payload_hash right.payload_hash
    && same_status left.status right.status
    && str_eq left.detail_code right.detail_code
    && left.version == right.version
    && left.amount == right.amount
    && str_eq left.unit right.unit

-- a set, with its values in the order of insertion
unfoldable pub add_to_set : String → List String → List String
add_to_set v vs = if includes vs v then vs else vs ++ (v ∷ [])

unfoldable pub or_empty {ℓ} : {A : Type ℓ} → Option (List A) → List A
or_empty none = []
or_empty (some xs) = xs

unfoldable pub add_to_set_map : Map (List String) → String → String → Map (List String)
add_to_set_map m k v = put m k (add_to_set v (or_empty (get m k)))

-- the value that is already there must pass the test
unfoldable pub agrees {ℓ} : {V : Type ℓ} → Option V → (V → Bool) → Bool
agrees none test = true
agrees (some v) test = test v

-- previous ?? value
unfoldable pub or_else {ℓ} : {V : Type ℓ} → Option V → V → V
or_else none v = v
or_else (some previous) v = previous

-- The local variables of assertSafety. `receipt_versions` is searched by the delivery and the version,
-- the two parts of the key.
pub record Ledger : Type 0 where
  pub requests : Map Bool
  pub deliveries : Map DeliveryIdentity
  pub proof_owners : Map String
  pub redemption_starts : Map ℕ
  pub may_be_consumed : List String
  pub settlement_plans : Map String
  pub credits : Map OracleCredit
  pub credits_by_delivery : Map (List String)
  pub credits_by_request : Map (List String)
  pub receipt_versions : List OracleReceipt
  pub receipts_by_delivery : Map (List OracleReceipt)

unfoldable pub empty_ledger : Ledger
empty_ledger = record {
  requests = [];
  deliveries = [];
  proof_owners = [];
  redemption_starts = [];
  may_be_consumed = [];
  settlement_plans = [];
  credits = [];
  credits_by_delivery = [];
  credits_by_request = [];
  receipt_versions = [];
  receipts_by_delivery = [];
}

unfoldable pub find_version : List OracleReceipt → OracleReceipt → Option OracleReceipt
find_version [] r = none
find_version (q ∷ qs) r =
    if str_eq q.delivery_id r.delivery_id && q.version == r.version
    then some q
    else find_version qs r

unfoldable pub note_version :
    Option OracleReceipt → OracleReceipt → List OracleReceipt → List OracleReceipt
note_version none r rs = r ∷ rs
note_version (some previous) r rs = rs

unfoldable pub starts : Option ℕ → ℕ
starts none = 0
starts (some n) = n

unfoldable pub is_identified : Option DeliveryIdentity → String → Bool
is_identified none hash = false
is_identified (some identity) hash = str_eq identity.proof_set_hash hash

unfoldable pub may_consume : MintProofState → Bool
may_consume unspent = false
may_consume _ = true

abbrev pub Checked : Type 0 → Type 0
Checked A = Result (Unit {0}) A

-- one turn of the loop
unfoldable pub check_observation : Ledger → Observation → Checked Ledger
check_observation l (request_observed r) = do
  ensure (agrees (get l.requests r.request_id) (bool_eq r.single_use)) tt
  ok (record l { requests = put l.requests r.request_id r.single_use })
check_observation l (delivery_attempted id identity transport) = do
  ensure (agrees (get l.deliveries id) (λ previous. same_delivery previous identity)) tt
  ensure (agrees (get l.proof_owners identity.proof_set_hash) (λ owner. str_eq owner id)) tt
  ok (record l {
    deliveries = put l.deliveries id (or_else (get l.deliveries id) identity);
    proof_owners = put l.proof_owners identity.proof_set_hash id;
  })
check_observation l (mint_proofs_state hash state) = ok (record l {
  may_be_consumed =
      if may_consume state then add_to_set hash l.may_be_consumed else l.may_be_consumed;
})
check_observation l (redemption_started id hash) = do
  ensure (is_identified (get l.deliveries id) hash) tt
  ensure (leb (starts (get l.redemption_starts id) + 1) 1) tt
  ok (record l {
    redemption_starts = put l.redemption_starts id (starts (get l.redemption_starts id) + 1);
  })
check_observation l (receiver_settled id plan) = do
  ensure (agrees (get l.settlement_plans id) (str_eq plan)) tt
  ok (record l { settlement_plans = put l.settlement_plans id plan })
check_observation l (merchant_credited c) = do
  ensure (agrees (get l.credits c.credit_id) (λ previous. same_credit previous c)) tt
  ok (record l {
    credits = put l.credits c.credit_id (or_else (get l.credits c.credit_id) c);
    credits_by_delivery = add_to_set_map l.credits_by_delivery c.delivery_id c.credit_id;
    credits_by_request = add_to_set_map l.credits_by_request c.request_id c.credit_id;
  })
check_observation l (receipt_observed r) = do
  ensure (is_safe r.version && leb 1 r.version) tt
  ensure (agrees (find_version l.receipt_versions r) (λ previous. same_receipt previous r)) tt
  ok (record l {
    receipt_versions = note_version (find_version l.receipt_versions r) r l.receipt_versions;
    receipts_by_delivery =
        put l.receipts_by_delivery r.delivery_id
          (or_empty (get l.receipts_by_delivery r.delivery_id) ++ (r ∷ []));
  })

unfoldable pub check_all : Ledger → List Observation → Checked Ledger
check_all l [] = ok l
check_all l (o ∷ os) = do next ← check_observation l o; check_all next os
