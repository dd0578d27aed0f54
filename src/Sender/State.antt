-- ===== src/Sender/State.antt =====
-- apps/reference-sender/src/state.ts: `InMemorySenderState`. An operation of one delivery runs under
-- the delivery's lock, so that no other operation of this delivery is interleaved with it.
use cashu_fault_lab.Common.{
  String, Bool, ◌&&◌, leb, if◌then◌else◌, is_safe, List, length, all, Option, get, has, put, ok,
  err,
}
use cashu_fault_lab.Common.Tasks.{Task}
use cashu_fault_lab.Sender.Types.{
  SenderDeliveryRecord, SenderAttemptDiagnostic, SendError, invalid, World,
}

abbrev pub Sending : Type 0 → Type 0
Sending A = Task World SendError A

unfoldable pub has_valid_attempt : SenderAttemptDiagnostic → Bool
has_valid_attempt d = is_safe d.attempt && leb 1 d.attempt

unfoldable pub are_valid_diagnostics : List SenderAttemptDiagnostic → Bool
are_valid_diagnostics ds = leb (length ds) 20 && all has_valid_attempt ds

unfoldable pub write : SenderDeliveryRecord → Sending (Unit {0})
write r w =
    if are_valid_diagnostics r.diagnostics
    then (ok tt, record w { records = put w.records r.delivery_id r })
    else (err invalid, w)

unfoldable pub create_record : SenderDeliveryRecord → Sending (Unit {0})
create_record r w = if has w.records r.delivery_id then (err invalid, w) else write r w

unfoldable pub save_record : SenderDeliveryRecord → Sending (Unit {0})
save_record r w = if has w.records r.delivery_id then write r w else (err invalid, w)

unfoldable pub find : String → Sending (Option SenderDeliveryRecord)
find id w = (ok (get w.records id), w)
