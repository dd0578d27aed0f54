-- ===== src/Receiver/Safety/Receipts.antt =====
-- What nextReceipt returns.
use cashu_fault_lab.Common.{◌+◌, String, ◌≡◌, arith, ok}
use cashu_fault_lab.Delivery.Platform.{Platform}
use cashu_fault_lab.Delivery.Receipt.{DeliveryStatus, DeliveryReceipt}
use cashu_fault_lab.Delivery.Receipt.Valid.{IsValid}
use cashu_fault_lab.Delivery.Receipt.Transition.{Step, assert_receipt_transition_iff}
use cashu_fault_lab.Receiver.Binding.{next_receipt}

abbrev pub advance : DeliveryReceipt → DeliveryStatus → String → DeliveryReceipt
advance previous status detail_code = record previous {
  status = status;
  detail_code = detail_code;
  status_version = previous.status_version + 1;
}

pub record IsNext (platform : Platform) (previous : DeliveryReceipt) (status : DeliveryStatus)
    (detail_code : String) (next : DeliveryReceipt) : Type 0 where
  pub next_lem : next ≡ advance previous status detail_code
  pub step : Step previous next
  pub valid : IsValid platform next

pub next_receipt-IsNext :
    (platform : Platform) (previous : DeliveryReceipt) (status : DeliveryStatus) (detail : String)
    (next : DeliveryReceipt)
    → next_receipt platform previous status detail ≡ ok next
    → IsNext platform previous status detail next
unfolding next_receipt
next_receipt-IsNext platform previous status detail next e =
    ground (arith, assert_receipt_transition_iff platform previous (advance previous status detail))
