-- ===== src/Sender/Send/Judge.antt =====
-- apps/reference-sender/src/send-payment.ts: what `runAttempts` makes of a transport's answer.
use cashu_fault_lab.Common.{
  ℕ, ◌-◌, Bool, true, false, not, ◌&&◌, if◌then◌else◌, ◌==◌, str_eq, List, [], ◌∷◌, ◌++◌, length,
  Option, none, some, Number, nat, zero, suc, Result, ok, err,
}
use cashu_fault_lab.Delivery.Errors.{DeliveryErrorCode}
use cashu_fault_lab.Delivery.Platform.{Platform}
use cashu_fault_lab.Delivery.Receipt.{DeliveryReceipt, DeliveryStatus, merge_observed_receipt}
use cashu_fault_lab.Delivery.Receipt.Wire.{parse_delivery_receipt}
use cashu_fault_lab.Sender.Types.{
  TransportResult, SenderDeliveryRecord, SenderAttemptCode, SenderAttemptStage,
}

unfoldable pub is_number : ℕ → Number → Bool
is_number n (nat m) = n == m
is_number n _ = false

-- assertReceiptIdentity does not throw
unfoldable pub has_identity : SenderDeliveryRecord → DeliveryReceipt → Bool
has_identity r receipt =
    str_eq receipt.request_id r.request.id
    && str_eq receipt.delivery_id r.delivery_id
    && str_eq receipt.payload_hash r.payload_hash
    && str_eq receipt.mint r.payload.mint
    && str_eq receipt.unit r.payload.unit
    && is_number receipt.amount r.request.amount

unfoldable pub drop : {A : Type 0} → ℕ → List A → List A
drop zero xs = xs
drop (suc n) [] = []
drop (suc n) (x ∷ xs) = drop n xs

-- list.slice(-n), for a positive n
unfoldable pub last : {A : Type 0} → ℕ → List A → List A
last n xs = drop (length xs - n) xs

unfoldable pub append_diagnostic :
    SenderDeliveryRecord → SenderAttemptCode → SenderAttemptStage → Bool → SenderDeliveryRecord
append_diagnostic r code stage retryable = record r {
  diagnostics = last 20 (
      r.diagnostics
      ++ (record {
        attempt = r.attempts;
        transport = r.target.kind;
        stage = stage;
        code = code;
        retryable = retryable;
      }
          ∷ []));
}

-- The receipt that ends the delivery, or whether another attempt may be made.
pub data AttemptVerdict : Type 0 where
  settle refuse : DeliveryReceipt → AttemptVerdict
  again : Bool → AttemptVerdict

unfoldable pub verdict : DeliveryReceipt → DeliveryStatus → AttemptVerdict
verdict receipt DeliveryStatus.settled = settle receipt
verdict receipt DeliveryStatus.rejected = refuse receipt
verdict receipt DeliveryStatus.processing =
    again (not (str_eq receipt.detail_code "recovery_blocked"))

unfoldable pub judge_merged :
    SenderDeliveryRecord
    → Result DeliveryErrorCode DeliveryReceipt
    → SenderDeliveryRecord × AttemptVerdict
judge_merged r (err e) = (
  append_diagnostic r SenderAttemptCode.receipt_transition_conflict
      SenderAttemptStage.receipt_validation false,
  again false,
)
judge_merged r (ok receipt) = (record r { receipt = some receipt }, verdict receipt receipt.status)

module _ (platform : Platform) where
  unfoldable pub judge_receipt :
      SenderDeliveryRecord
      → Result DeliveryErrorCode DeliveryReceipt
      → SenderDeliveryRecord × AttemptVerdict
  judge_receipt r (err e) = (
    append_diagnostic r SenderAttemptCode.invalid_receipt SenderAttemptStage.receipt_validation
        true,
    again true,
  )
  judge_receipt r (ok observed) =
      if has_identity r observed
      then judge_merged r (merge_observed_receipt platform r.receipt observed)
      else (
        append_diagnostic r SenderAttemptCode.receipt_identity_conflict
            SenderAttemptStage.receipt_validation false,
        again false,
      )

  -- the answer of the transport, none where it threw
  unfoldable pub judge :
      SenderDeliveryRecord → Option TransportResult → SenderDeliveryRecord × AttemptVerdict
  judge r none = (
    append_diagnostic r SenderAttemptCode.transport_failure SenderAttemptStage.transport true,
    again true,
  )
  judge r (some (TransportResult.receipt value)) =
      judge_receipt r (parse_delivery_receipt platform value)
  judge r (some TransportResult.no_response) = (
    append_diagnostic r SenderAttemptCode.transport_failure SenderAttemptStage.transport true,
    again true,
  )
  judge r (some (TransportResult.permanent_failure status code)) = (
    append_diagnostic r SenderAttemptCode.permanent_failure SenderAttemptStage.transport false,
    again false,
  )
