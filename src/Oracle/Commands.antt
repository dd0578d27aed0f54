-- ===== src/Oracle/Commands.antt =====
-- packages/oracle/src/commands.ts: `applyObservation`.
use cashu_fault_lab.Common.{
  String, Bool, true, false, ◌&&◌, Option, none, some, List, [], ◌∷◌, ◌++◌, any, Map, get, has, put,
  str_eq, ltb, if◌then◌else◌,
}
use cashu_fault_lab.Oracle.Model.{
  OracleTransport, http, nostr, OracleDelivery, OracleReceipt, DeliveryIdentity, Observation,
  request_observed, delivery_attempted, mint_proofs_state, redemption_started, receiver_settled,
  merchant_credited, receipt_observed, OracleModel,
}

unfoldable pub transport_eq : OracleTransport → OracleTransport → Bool
transport_eq http http = true
transport_eq nostr nostr = true
transport_eq _ _ = false

-- new Set([...transports, transport])
unfoldable pub with_transport : List OracleTransport → OracleTransport → List OracleTransport
with_transport ts t = if any (transport_eq t) ts then ts else ts ++ (t ∷ [])

-- map.set(key, value) where the key is new
unfoldable pub put_new {ℓ} : {V : Type ℓ} → Map V → String → V → Map V
put_new m k v = if has m k then m else put m k v

unfoldable pub new_delivery : String → DeliveryIdentity → OracleTransport → OracleDelivery
new_delivery id identity transport = record {
  request_id = identity.request_id;
  delivery_id = id;
  payload_hash = identity.payload_hash;
  proof_set_hash = identity.proof_set_hash;
  transports = transport ∷ [];
  replacement_plan_hash = none;
}

unfoldable pub attempt_delivery :
    Option OracleDelivery
    → String
    → DeliveryIdentity
    → OracleTransport
    → Map OracleDelivery
    → Map OracleDelivery
attempt_delivery none id identity transport deliveries =
    put deliveries id (new_delivery id identity transport)
attempt_delivery (some previous) id identity transport deliveries =
    if str_eq previous.request_id identity.request_id
      && str_eq previous.payload_hash identity.payload_hash
      && str_eq previous.proof_set_hash identity.proof_set_hash
    then put deliveries id
        (record previous { transports = with_transport previous.transports transport })
    else deliveries

-- the plan of the delivery, if it has none
unfoldable pub with_plan : String → OracleDelivery → OracleDelivery
with_plan plan d = elim d.replacement_plan_hash [
  | none ↦ record d { replacement_plan_hash = some plan }
  | some old ↦ d
]

unfoldable pub settle_delivery :
    Option OracleDelivery → String → String → Map OracleDelivery → Map OracleDelivery
settle_delivery none id plan deliveries = deliveries
settle_delivery (some previous) id plan deliveries = put deliveries id (with_plan plan previous)

unfoldable pub keep_receipt :
    Option OracleReceipt → OracleReceipt → Map OracleReceipt → Map OracleReceipt
keep_receipt none receipt receipts = put receipts receipt.delivery_id receipt
keep_receipt (some previous) receipt receipts =
    if ltb previous.version receipt.version
    then put receipts receipt.delivery_id receipt
    else receipts

-- the maps after the observation
unfoldable pub apply_body : OracleModel → Observation → OracleModel
apply_body m (request_observed request) = record m {
  requests = put_new m.requests request.request_id request;
}
apply_body m (delivery_attempted id identity transport) = record m {
  deliveries = attempt_delivery (get m.deliveries id) id identity transport m.deliveries;
  proof_owners = put_new m.proof_owners identity.proof_set_hash id;
}
apply_body m (mint_proofs_state proof_set_hash state) = record m {
  proof_states = put m.proof_states proof_set_hash state;
}
apply_body m (redemption_started id proof_set_hash) = m
apply_body m (receiver_settled id plan) = record m {
  deliveries = settle_delivery (get m.deliveries id) id plan m.deliveries;
}
apply_body m (merchant_credited credit) = record m {
  credits = put_new m.credits credit.credit_id credit;
}
apply_body m (receipt_observed receipt) = record m {
  receipts = keep_receipt (get m.receipts receipt.delivery_id) receipt m.receipts;
}

unfoldable pub apply_observation : OracleModel → Observation → OracleModel
apply_observation m o = record (apply_body m o) { observations = m.observations ++ (o ∷ []) }
