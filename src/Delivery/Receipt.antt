-- ===== src/Delivery/Receipt.antt =====
-- packages/delivery-core/src/receipt.ts. `status_version` and `amount` are naturals: a negative or
-- fractional number of a wire value is refused where it is read.
pub mod Valid
pub mod Transition
pub mod Observed
pub mod Wire
use cashu_fault_lab.Common.{
  ℕ, zero, suc, ◌+◌, String, Bool, true, false, not, ◌&&◌, ◌||◌, Option, none, some, List, [], ◌∷◌,
  ◌==◌, ltb, leb, if◌then◌else◌, str_eq, is_blank, is_hash, includes, is_safe, nat, Result, ok, err,
  ◌>>=◌, ◌>>◌, ensure, throw_if, Value, Fields, undefined, null, exotic, boolean, number, string,
  array, object, field, end, property,
}
use cashu_fault_lab.Delivery.Errors.{
  DeliveryErrorCode, invalid_receipt, receipt_identity_mismatch, status_regression,
  status_version_conflict,
}
use cashu_fault_lab.Delivery.Platform.{Platform}
use cashu_fault_lab.Delivery.Ids.{parse_protocol_id}
use cashu_fault_lab.Delivery.MintUrl.{normalize_mint_url}

pub data DeliveryStatus : Type 0 where
  processing settled rejected : DeliveryStatus

abbrev pub status_eq : DeliveryStatus → DeliveryStatus → Bool
status_eq processing processing = true
status_eq settled settled = true
status_eq rejected rejected = true
status_eq _ _ = false

pub record DeliveryReceipt : Type 0 where
  pub profile : String
  pub request_id : String
  pub delivery_id : String
  pub payload_hash : String
  pub status : DeliveryStatus
  pub status_version : ℕ
  pub mint : String
  pub unit : String
  pub amount : ℕ
  pub detail_code : String

-- STATUS_DETAILS and KNOWN_DETAIL_CODES
status_details : DeliveryStatus → List String
status_details processing = "accepted" ∷ "redeeming" ∷ "recovery_blocked" ∷ []
status_details settled = "settled" ∷ []
status_details rejected = "invalid" ∷ "expired" ∷ "conflict" ∷ []

known_detail_codes : List String
known_detail_codes =
    "accepted" ∷ "redeeming" ∷ "recovery_blocked" ∷ "settled" ∷ "invalid" ∷ "expired" ∷ "conflict"
    ∷ []

unfoldable pub has_valid_detail_code : DeliveryStatus → String → Bool
unfolding status_details known_detail_codes
has_valid_detail_code status detail =
    if is_blank detail
    then false
    else if not (includes known_detail_codes detail)
    then true
    else includes (status_details status) detail

unfoldable pub same_identity : DeliveryReceipt → DeliveryReceipt → Bool
same_identity previous next =
    str_eq previous.profile next.profile
    && str_eq previous.request_id next.request_id
    && str_eq previous.delivery_id next.delivery_id
    && str_eq previous.payload_hash next.payload_hash
    && str_eq previous.mint next.mint
    && str_eq previous.unit next.unit
    && previous.amount == next.amount

unfoldable pub same_receipt : DeliveryReceipt → DeliveryReceipt → Bool
same_receipt previous next =
    same_identity previous next
    && status_eq previous.status next.status
    && previous.status_version == next.status_version
    && str_eq previous.detail_code next.detail_code

-- previous.status === 'settled' || previous.status === 'rejected'
abbrev pub is_terminal : DeliveryStatus → Bool
is_terminal processing = false
is_terminal settled = true
is_terminal rejected = true

-- previous.detailCode === 'recovery_blocked' && next.status === 'rejected'
unfoldable pub rejects_blocked : DeliveryReceipt → DeliveryReceipt → Bool
rejects_blocked previous next =
    str_eq previous.detail_code "recovery_blocked" && status_eq next.status rejected

-- the tests of assertValidReceipt on the fields alone
unfoldable pub has_valid_fields : DeliveryReceipt → Bool
has_valid_fields r =
    str_eq r.profile "cashu-delivery-v1"
    && is_hash r.payload_hash
    && is_safe r.status_version
    && leb 1 r.status_version
    && is_safe r.amount
    && not (is_blank r.unit)
    && not (is_blank r.mint)
    && has_valid_detail_code r.status r.detail_code

-- the tests that follow the validation of both receipts
unfoldable pub check_transition :
    DeliveryReceipt → DeliveryReceipt → Result DeliveryErrorCode (Unit {0})
check_transition previous next =
    if not (same_identity previous next)
    then err receipt_identity_mismatch
    else if same_receipt previous next
    then ok tt
    else if next.status_version == previous.status_version
    then err status_version_conflict
    else if ltb next.status_version previous.status_version || is_terminal previous.status
    then err status_regression
    else if not (next.status_version == previous.status_version + 1)
    then err status_version_conflict
    else if status_eq next.status previous.status && str_eq next.detail_code previous.detail_code
    then err status_version_conflict
    else if rejects_blocked previous next
    then err status_regression
    else ok tt

-- the tests of mergeObservedReceipt that follow the validation of both receipts
unfoldable pub choose_observed :
    DeliveryReceipt → DeliveryReceipt → Result DeliveryErrorCode DeliveryReceipt
choose_observed previous next =
    if not (same_identity previous next)
    then err receipt_identity_mismatch
    else if same_receipt previous next || ltb next.status_version previous.status_version
    then ok previous
    else if next.status_version == previous.status_version
    then err status_version_conflict
    else if is_terminal previous.status || rejects_blocked previous next
    then err status_regression
    else ok next

module _ (platform : Platform) where
  -- the calls of assertValidReceipt that follow its tests
  unfoldable pub check_names : String → String → String → Result DeliveryErrorCode (Unit {0})
  check_names request_id delivery_id mint = do
    parse_protocol_id platform request_id
    parse_protocol_id platform delivery_id
    normalized ← normalize_mint_url platform mint
    ensure (str_eq normalized mint) invalid_receipt

  unfoldable pub assert_valid_receipt : DeliveryReceipt → Result DeliveryErrorCode (Unit {0})
  assert_valid_receipt r = do
    ensure (has_valid_fields r) invalid_receipt
    check_names r.request_id r.delivery_id r.mint

  unfoldable pub assert_receipt_transition :
      Option DeliveryReceipt → DeliveryReceipt → Result DeliveryErrorCode (Unit {0})
  assert_receipt_transition none next = do
    assert_valid_receipt next
    ensure (next.status_version == 1) status_version_conflict
  assert_receipt_transition (some previous) next = do
    assert_valid_receipt next
    assert_valid_receipt previous
    check_transition previous next

  unfoldable pub merge_observed_receipt :
      Option DeliveryReceipt → DeliveryReceipt → Result DeliveryErrorCode DeliveryReceipt
  merge_observed_receipt none next = do assert_valid_receipt next; ok next
  merge_observed_receipt (some previous) next = do
    assert_valid_receipt next
    assert_valid_receipt previous
    choose_observed previous next
