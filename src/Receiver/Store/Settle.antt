-- ===== src/Receiver/Store/Settle.antt =====
-- memory-store.ts: the methods that take a prepared delivery to its end.
use cashu_fault_lab.Common.{
  ℕ, ◌+◌, String, Bool, false, ◌&&◌, not, Option, none, some, List, [], ◌∷◌, ◌==◌, min,
  if◌then◌else◌, str_eq, is_blank, is_empty, Map, get, put, remove, Result, ok, err, ◌>>=◌, ◌>>◌,
  ensure, throw_if, Number,
}
use cashu_fault_lab.Delivery.Platform.{Platform}
use cashu_fault_lab.Delivery.Receipt.{DeliveryReceipt, DeliveryStatus}
use cashu_fault_lab.Receiver.Types.{
  invalid_state, Thrown, domain, DeliveryRecord, prepared, mint_sent, recovery_blocked,
  outputs_persisted, credited, settled, rejected, MerchantCredit, CommitSettlement,
}
use cashu_fault_lab.Receiver.Binding.{assert_safe_integer, next_receipt}
use cashu_fault_lab.Receiver.Store.{StoreState, Operation, require_delivery}

-- draft.deliveries.set(id, r)
unfoldable pub save : String → DeliveryRecord → StoreState → StoreState
save id r draft = record draft { deliveries = put draft.deliveries id r }

unfoldable pub redemption_cap : ℕ
redemption_cap = 1000

unfoldable pub record_redemption_start : String → Operation (Unit {0})
unfolding redemption_cap
record_redemption_start id draft = do
  r ← require_delivery draft id
  let started = record r { redemption_starts = min (r.redemption_starts + 1) redemption_cap }
  elim r.phase [
    | prepared ↦ err (domain invalid_state)
    | rejected ↦ err (domain invalid_state)
    | _ ↦ ok (tt, save id started draft)
  ]

-- record.replacementPlanHash === hash
unfoldable pub has_plan_hash : DeliveryRecord → String → Bool
has_plan_hash r hash = elim r.replacement_plan_hash [ none ↦ false | some h ↦ str_eq h hash ]

-- record.replacementPlanHash !== undefined && record.replacementPlanHash !== hash
unfoldable pub has_other_plan_hash : DeliveryRecord → String → Bool
has_other_plan_hash r hash = elim r.replacement_plan_hash [
  | none ↦ false
  | some h ↦ not (str_eq h hash)
]

unfoldable pub has_outputs : CommitSettlement → Bool
has_outputs input =
    not (is_blank input.replacement_plan_hash) && not (is_empty input.replacement_proofs)

unfoldable pub credit_of : DeliveryRecord → ℕ → MerchantCredit
credit_of r now = record {
  credit_id = r.delivery_id;
  request_id = r.request_id;
  delivery_id = r.delivery_id;
  amount = r.amount;
  unit = r.receipt.unit;
  created_at = now;
}

-- JSON.stringify(a) === JSON.stringify(b)
unfoldable pub same_credit : MerchantCredit → MerchantCredit → Bool
same_credit a b =
    str_eq a.credit_id b.credit_id
    && str_eq a.request_id b.request_id
    && str_eq a.delivery_id b.delivery_id
    && a.amount == b.amount
    && str_eq a.unit b.unit
    && a.created_at == b.created_at

-- previousCredit ?? credit, with the test that the two agree
unfoldable pub bind_credit : Option MerchantCredit → MerchantCredit → Result Thrown MerchantCredit
bind_credit none credit = ok credit
bind_credit (some previous) credit =
    if same_credit previous credit then ok previous else err (domain invalid_state)

unfoldable pub persist_settlement_outputs : CommitSettlement → Operation DeliveryReceipt
persist_settlement_outputs input draft = do
  r ← require_delivery draft input.delivery_id
  let repeated = do
    ensure (has_plan_hash r input.replacement_plan_hash) (domain invalid_state)
    ok (r.receipt, draft)
  let persisted = do
    ensure (has_outputs input) (domain invalid_state)
    assert_safe_integer input.now
    ok (
      r.receipt,
      save r.delivery_id
          (record r {
            phase = outputs_persisted;
            replacement_plan_hash = some input.replacement_plan_hash;
            replacement_proofs = some input.replacement_proofs;
          })
          draft,
    )
  elim r.phase [
    | settled ↦ repeated
    | outputs_persisted ↦ repeated
    | credited ↦ repeated
    | rejected ↦ err (domain invalid_state)
    | prepared ↦ err (domain invalid_state)
    | _ ↦ persisted
  ]

unfoldable pub credit_settlement : String → Number → Operation DeliveryReceipt
credit_settlement id time draft = do
  r ← require_delivery draft id
  let credit_now = do
    now ← assert_safe_integer time
    credit ← bind_credit (get draft.credits r.delivery_id) (credit_of r now)
    ok (
      r.receipt,
      record draft {
        credits = put draft.credits r.delivery_id credit;
        deliveries = put draft.deliveries r.delivery_id (record r { phase = credited });
      },
    )
  elim r.phase [
    | settled ↦ ok (r.receipt, draft)
    | credited ↦ ok (r.receipt, draft)
    | outputs_persisted ↦ credit_now
    | _ ↦ err (domain invalid_state)
  ]

-- draft.proofClaims.delete(claim) for the claims that the delivery holds
unfoldable pub release_all : List String → String → Map String → Map String
release_all [] id claims = claims
release_all (c ∷ cs) id claims = release_all cs id (elim (get claims c) [
  | none ↦ claims
  | some owner ↦ if str_eq owner id then remove claims c else claims
])

unfoldable pub release_reservation : String → String → Map String → Map String
release_reservation request_id id reservations = elim (get reservations request_id) [
  | none ↦ reservations
  | some owner ↦ if str_eq owner id then remove reservations request_id else reservations
]

unfoldable pub release : DeliveryRecord → String → StoreState → StoreState
release r id draft = record draft {
  proof_claims = release_all r.proof_claim_ids id draft.proof_claims;
  request_reservations = release_reservation r.request_id id draft.request_reservations;
}

module _ (platform : Platform) where
  unfoldable pub mark_mint_sent : String → Operation DeliveryReceipt
  mark_mint_sent id draft = do
    r ← require_delivery draft id
    let sent = do
      receipt ← next_receipt platform r.receipt DeliveryStatus.processing "redeeming"
      ok (receipt, save id (record r { phase = mint_sent; receipt = receipt }) draft)
    elim r.phase [ prepared ↦ sent | _ ↦ ok (r.receipt, draft) ]

  unfoldable pub settle : CommitSettlement → Operation DeliveryReceipt
  settle input draft = do
    r ← require_delivery draft input.delivery_id
    let repeated = do
      ensure (has_plan_hash r input.replacement_plan_hash) (domain invalid_state)
      ok (r.receipt, draft)
    let settle_now = do
      throw_if (has_other_plan_hash r input.replacement_plan_hash) (domain invalid_state)
      ensure (has_outputs input) (domain invalid_state)
      now ← assert_safe_integer input.now
      credit ← bind_credit (get draft.credits r.delivery_id) (credit_of r now)
      receipt ← next_receipt platform r.receipt DeliveryStatus.settled "settled"
      ok (
        receipt,
        record draft {
          credits = put draft.credits r.delivery_id credit;
          deliveries = put draft.deliveries r.delivery_id (record r {
            phase = settled;
            replacement_plan_hash = some input.replacement_plan_hash;
            replacement_proofs = some input.replacement_proofs;
            receipt = receipt;
          });
        },
      )
    elim r.phase [
      | settled ↦ repeated
      | rejected ↦ err (domain invalid_state)
      | prepared ↦ err (domain invalid_state)
      | _ ↦ settle_now
    ]

  unfoldable pub finalize_settlement : String → Operation DeliveryReceipt
  finalize_settlement id draft = do
    r ← require_delivery draft id
    let finalized = do
      receipt ← next_receipt platform r.receipt DeliveryStatus.settled "settled"
      ok (receipt, save r.delivery_id (record r { phase = settled; receipt = receipt }) draft)
    elim r.phase [
      | settled ↦ ok (r.receipt, draft)
      | credited ↦ finalized
      | _ ↦ err (domain invalid_state)
    ]

  unfoldable pub block_recovery : String → Operation DeliveryReceipt
  block_recovery id draft = do
    r ← require_delivery draft id
    let blocked = do
      receipt ← next_receipt platform r.receipt DeliveryStatus.processing "recovery_blocked"
      ok (receipt, save id (record r { phase = recovery_blocked; receipt = receipt }) draft)
    elim r.phase [
      | prepared ↦ blocked
      | mint_sent ↦ blocked
      | rejected ↦ err (domain invalid_state)
      | _ ↦ ok (r.receipt, draft)
    ]

  unfoldable pub reject : String → String → Bool → Operation DeliveryReceipt
  reject id detail_code release_claims draft = do
    r ← require_delivery draft id
    let rejected_now = do
      receipt ← next_receipt platform r.receipt DeliveryStatus.rejected detail_code
      let saved = save id (record r { phase = rejected; receipt = receipt }) draft
      ok (receipt, if release_claims then release r id saved else saved)
    elim r.phase [
      | rejected ↦ ok (r.receipt, draft)
      | prepared ↦ rejected_now
      | mint_sent ↦ rejected_now
      | _ ↦ err (domain invalid_state)
    ]
