-- ===== src/Receiver/Store/Requests.antt =====
-- memory-store.ts: `reset`, `createRequest` and `preflight`.
use cashu_fault_lab.Common.{
  String, Bool, false, ◌&&◌, ◌||◌, not, Option, none, some, List, [], ◌∷◌, if◌then◌else◌, str_eq,
  is_blank, is_empty, unique, sort, get, put, Result, ok, err, ◌>>=◌, ◌>>◌, throw_if, map_err,
  Number,
}
use cashu_fault_lab.Delivery.Errors.{DeliveryErrorCode}
use cashu_fault_lab.Delivery.Platform.{Platform}
use cashu_fault_lab.Delivery.Ids.{parse_protocol_id}
use cashu_fault_lab.Delivery.MintUrl.{normalize_mint_url}
use cashu_fault_lab.Receiver.Types.{
  invalid_request, request_not_found, delivery_conflict, single_use_conflict, Thrown, validation,
  domain, CreatePaymentRequest, PaymentRequestRecord, AcceptDeliveryCommand, DeliveryRecord,
}
use cashu_fault_lab.Receiver.Binding.{
  assert_safe_integer, is_same_delivery_binding, validate_request_binding, same_request,
}
use cashu_fault_lab.Receiver.Store.{StoreState, empty_state, Operation}

-- the redemption locks are kept beside the state and are cleared as well
unfoldable pub reset : Operation (Unit {0})
reset draft = ok (tt, empty_state)

-- owner && owner !== id
unfoldable pub taken_by_other : Option String → String → Bool
taken_by_other none id = false
taken_by_other (some owner) id = not (is_blank owner) && not (str_eq owner id)

-- previous ?? record, with the test that the two agree
unfoldable pub bind_request :
    Option PaymentRequestRecord → PaymentRequestRecord → Result Thrown PaymentRequestRecord
bind_request none request = ok request
bind_request (some previous) request =
    if same_request previous request then ok previous else err (domain invalid_request)

module _ (platform : Platform) where
  -- input.mints.map(normalizeMintUrl)
  normalize_all : List String → Result DeliveryErrorCode (List String)
  normalize_all [] = ok []
  normalize_all (m ∷ ms) = do
    m' ← normalize_mint_url platform m
    ms' ← normalize_all ms
    ok (m' ∷ ms')

  -- the checks and the record that come before the transaction
  unfoldable pub request_record : CreatePaymentRequest → Result Thrown PaymentRequestRecord
  unfolding normalize_all
  request_record input = do
    id ← map_err validation (parse_protocol_id platform input.id)
    amount ← assert_safe_integer input.amount
    expires_at ← assert_safe_integer input.expires_at
    throw_if (is_blank input.unit || is_empty input.mints) (domain invalid_request)
    mints ← map_err validation (normalize_all input.mints)
    ok (record {
      id = id;
      amount = amount;
      unit = input.unit;
      mints = sort (unique mints);
      single_use = input.single_use;
      expires_at = expires_at;
    })

  unfoldable pub create_request : CreatePaymentRequest → Operation PaymentRequestRecord
  create_request input draft = do
    request ← request_record input
    bound ← bind_request (get draft.requests request.id) request
    ok (bound, record draft { requests = put draft.requests request.id bound })

unfoldable pub require_request : StoreState → String → Result Thrown PaymentRequestRecord
require_request state id = elim (get state.requests id) [
  | none ↦ err (domain request_not_found)
  | some request ↦ ok request
]

unfoldable pub preflight : AcceptDeliveryCommand → Number → Operation (Option DeliveryRecord)
preflight command now draft = elim (get draft.deliveries command.payload.delivery.id) [
  | some previous ↦
      if is_same_delivery_binding previous command
      then ok (some previous, draft)
      else err (domain delivery_conflict)
  | none ↦ do
    request ← require_request draft command.payload.id
    validate_request_binding request command now
    throw_if
        (request.single_use
          && taken_by_other (get draft.request_reservations request.id) command.payload.delivery.id)
        (domain single_use_conflict)
    ok (none, draft)
]
