-- ===== src/Oracle/Invariants.antt =====
-- packages/oracle/src/invariants.ts: `assertSafety` and `assertQuiescentLiveness`.
pub mod Maps
pub mod Agreement
pub mod Credits
use cashu_fault_lab.Common.{
  ℕ, String, Bool, true, false, ◌&&◌, ◌||◌, not, Option, none, some, is_some, List, [], ◌∷◌, all,
  any, length, Map, get, put, has, values, str_eq, ◌==◌, leb, ltb, is_safe, includes, if◌then◌else◌,
  Result, ok, err, ◌>>=◌, ◌>>◌, ensure,
}
use cashu_fault_lab.Oracle.Model.{
  MintProofState, unspent, pending, spent, OracleReceiptStatus, processing, settled, rejected,
  OracleDelivery, OracleCredit, OracleReceipt, DeliveryIdentity, Observation, receipt_observed,
  mint_proofs_state, OracleModel,
}
use cashu_fault_lab.Oracle.Loop.{
  Ledger, empty_ledger, Checked, check_all, same_receipt, same_status, or_empty, agrees,
  is_identified,
}

-- credit.requestId === identity.requestId, for a delivery that was attempted
unfoldable pub is_requested : Option DeliveryIdentity → OracleCredit → Bool
is_requested none credit = false
is_requested (some identity) credit = str_eq credit.request_id identity.request_id

unfoldable pub is_fit_credit : Option DeliveryIdentity → Option OracleCredit → Bool
is_fit_credit identity none = false
is_fit_credit identity (some credit) = is_requested identity credit && is_safe credit.amount

-- the checks of the deliveries that have credits
unfoldable pub check_delivery_credits : Ledger → String × List String → Bool
check_delivery_credits l (id, credit_ids) =
    leb (length credit_ids) 1
    && has l.settlement_plans id
    && all (λ credit_id. is_fit_credit (get l.deliveries id) (get l.credits credit_id)) credit_ids

unfoldable pub is_single_use : Option Bool → Bool
is_single_use none = false
is_single_use (some b) = b

unfoldable pub check_request_credits : Ledger → String × List String → Bool
check_request_credits l (id, credit_ids) =
    not (is_single_use (get l.requests id) && ltb 1 (length credit_ids))

-- [...new Map(history.map((receipt) => [receipt.version, receipt])).values()]
unfoldable pub put_version : List OracleReceipt → OracleReceipt → List OracleReceipt
put_version [] r = r ∷ []
put_version (q ∷ qs) r = if q.version == r.version then r ∷ qs else q ∷ put_version qs r

unfoldable pub unique_versions : List OracleReceipt → List OracleReceipt → List OracleReceipt
unique_versions kept [] = kept
unique_versions kept (r ∷ rs) = unique_versions (put_version kept r) rs

-- the first of the receipts in the order of `sort`, which is stable
unfoldable pub first_by :
    (OracleReceipt → OracleReceipt → Bool) → List OracleReceipt → Option OracleReceipt
first_by before [] = none
first_by before (r ∷ rs) = some (pick r (first_by before rs))
  where
    pick : OracleReceipt → Option OracleReceipt → OracleReceipt
    pick r none = r
    pick r (some q) = if before q r then q else r

unfoldable pub is_older : OracleReceipt → OracleReceipt → Bool
is_older left right = ltb left.version right.version

unfoldable pub is_newer : OracleReceipt → OracleReceipt → Bool
is_newer left right = ltb right.version left.version

unfoldable pub is_terminal_receipt : OracleReceipt → Bool
is_terminal_receipt r = same_status r.status settled || same_status r.status rejected

unfoldable pub filter : (OracleReceipt → Bool) → List OracleReceipt → List OracleReceipt
filter test [] = []
filter test (r ∷ rs) = let rest = filter test rs in if test r then r ∷ rest else rest

unfoldable pub is_of_identity : Option DeliveryIdentity → OracleReceipt → Bool
is_of_identity none r = true
is_of_identity (some identity) r =
    str_eq r.request_id identity.request_id && str_eq r.payload_hash identity.payload_hash

-- no later receipt differs from the terminal one
unfoldable pub has_no_regression : Option OracleReceipt → List OracleReceipt → Bool
has_no_regression none rs = true
has_no_regression (some terminal) rs =
    not (any (λ r. ltb terminal.version r.version && not (same_receipt r terminal)) rs)

unfoldable pub is_paid_by : OracleReceipt → Option OracleCredit → Bool
is_paid_by latest none = false
is_paid_by latest (some credit) =
    str_eq credit.request_id latest.request_id
    && credit.amount == latest.amount
    && str_eq credit.unit latest.unit

unfoldable pub has_one_credit : Ledger → OracleReceipt → List String → Bool
has_one_credit l latest (credit_id ∷ []) = is_paid_by latest (get l.credits credit_id)
has_one_credit l latest _ = false

unfoldable pub may_be_consumed_by : Ledger → Option DeliveryIdentity → Bool
may_be_consumed_by l none = false
may_be_consumed_by l (some identity) = includes l.may_be_consumed identity.proof_set_hash

unfoldable pub check_latest : Ledger → String → OracleReceiptStatus → OracleReceipt → Bool
check_latest l id settled latest =
    has l.settlement_plans id && has_one_credit l latest (or_empty (get l.credits_by_delivery id))
check_latest l id rejected latest = not (may_be_consumed_by l (get l.deliveries id))
check_latest l id processing latest = true

unfoldable pub check_newest : Ledger → String → Option OracleReceipt → Bool
check_newest l id none = true
check_newest l id (some latest) = check_latest l id latest.status latest

unfoldable pub check_history : Ledger → String → List OracleReceipt → Bool
check_history l id unique =
    all (is_of_identity (get l.deliveries id)) unique
    && has_no_regression (first_by is_older (filter is_terminal_receipt unique)) unique
    && check_newest l id (first_by is_newer unique)

unfoldable pub check_receipts : Ledger → String × List OracleReceipt → Bool
check_receipts l (id, history) = check_history l id (unique_versions [] history)

unfoldable pub is_net : OracleReceipt → Option OracleCredit → Bool
is_net r none = true
is_net r (some credit) = credit.amount == r.amount && str_eq credit.unit r.unit

unfoldable pub has_net_credit : Ledger → Option OracleReceipt → List String → Bool
has_net_credit l (some r) (credit_id ∷ []) = is_net r (get l.credits credit_id)
has_net_credit l _ _ = true

-- the settled receipt has the amount of the credit
unfoldable pub check_net_amount : Ledger → String × List OracleReceipt → Bool
check_net_amount l (id, history) =
    has_net_credit l (first_by is_newer (filter (λ r. same_status r.status settled) history))
      (or_empty (get l.credits_by_delivery id))

-- what follows the loop
unfoldable pub check_ledger : Ledger → Checked (Unit {0})
check_ledger l = do
  ensure (all (check_delivery_credits l) l.credits_by_delivery) tt
  ensure (all (check_request_credits l) l.credits_by_request) tt
  ensure (all (check_receipts l) l.receipts_by_delivery) tt
  ensure (all (check_net_amount l) l.receipts_by_delivery) tt

unfoldable pub assert_safety : OracleModel → Checked (Unit {0})
assert_safety m = do l ← check_all empty_ledger m.observations; check_ledger l

unfoldable pub later : Option OracleReceipt → OracleReceipt → Option OracleReceipt
later none r = some r
later (some q) r = if ltb q.version r.version then some r else some q

unfoldable pub latest_receipt :
    List Observation → String → Option OracleReceipt → Option OracleReceipt
latest_receipt [] id latest = latest
latest_receipt (receipt_observed r ∷ os) id latest =
    latest_receipt os id (if str_eq r.delivery_id id then later latest r else latest)
latest_receipt (_ ∷ os) id latest = latest_receipt os id latest

-- a proof set that is not unspent, in the strongest of its states
unfoldable pub is_claimed : List Observation → String → Bool
is_claimed [] hash = false
is_claimed (mint_proofs_state h unspent ∷ os) hash = is_claimed os hash
is_claimed (mint_proofs_state h _ ∷ os) hash = str_eq h hash || is_claimed os hash
is_claimed (_ ∷ os) hash = is_claimed os hash

unfoldable pub is_quiescent : List Observation → OracleDelivery → Option OracleReceipt → Bool
is_quiescent os d none = false
is_quiescent os d (some r) =
    is_terminal_receipt r
    || (str_eq r.detail_code "recovery_blocked" && is_claimed os d.proof_set_hash)

unfoldable pub assert_quiescent_liveness : OracleModel → Checked (Unit {0})
assert_quiescent_liveness m = do
  assert_safety m
  ensure
      (all (λ d. is_quiescent m.observations d (latest_receipt m.observations d.delivery_id none))
        (values m.deliveries))
      tt
