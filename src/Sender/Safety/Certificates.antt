-- ===== src/Sender/Safety/Certificates.antt =====
-- What the sender's records and its calls of the wallet owe to receipts.
use mathlib.Core.Path.{subst}
use mathlib.Core.Option.{some-injective}
use cashu_fault_lab.Common.{
  ◌+◌, String, Bool, true, false, ◌≡◌, ◌≢◌, refl, sym, ◌∙◌, Option, none, some, ◌∷◌, All, All-zip,
  get, put, get-put, arith, eq_iff, str_eq, if◌then◌else◌,
}
use cashu_fault_lab.Delivery.Receipt.{DeliveryReceipt, DeliveryStatus}
use cashu_fault_lab.Sender.Types.{SenderDeliveryStatus, SenderDeliveryRecord, Act, World}
use cashu_fault_lab.Sender.Send.Judge.{has_identity}

-- A finished record has the receipt that ended it.
abbrev pub Certified : SenderDeliveryStatus → Option DeliveryReceipt → Type 0
Certified SenderDeliveryStatus.settled (some receipt) = receipt.status ≡ DeliveryStatus.settled
Certified SenderDeliveryStatus.settled none = ⊥
Certified SenderDeliveryStatus.rejected (some receipt) = receipt.status ≡ DeliveryStatus.rejected
Certified SenderDeliveryStatus.rejected none = ⊥
Certified _ receipt = Unit

-- The stored receipt is one of this delivery.
abbrev pub Identified : SenderDeliveryRecord → Option DeliveryReceipt → Type 0
Identified r none = Unit
Identified r (some receipt) = has_identity r receipt ≡ true

abbrev pub Sound : SenderDeliveryRecord → Type 0
Sound r = Identified r r.receipt × Certified r.status r.receipt

-- The wallet has been told of a final state only where the record has it.
abbrev pub Warranted : (String → Option SenderDeliveryRecord) → Act → Type 0
Warranted look (Act.marked_settled id) =
    (r : SenderDeliveryRecord) × (look id ≡ some r) × (r.status ≡ SenderDeliveryStatus.settled)
Warranted look (Act.released id) =
    (r : SenderDeliveryRecord) × (look id ≡ some r) × (r.status ≡ SenderDeliveryStatus.rejected)
Warranted look _ = Unit

abbrev pub Spares : String → Act → Type 0
Spares id (Act.marked_settled j) = j ≢ id
Spares id (Act.released j) = j ≢ id
Spares id _ = Unit

-- The wallet has not been told of a final state of the delivery.
abbrev pub Open : String → World → Type 0
Open id w = All (Spares id) w.acts

pub record Consistent (w : World) : Type 0 where
  pub keyed :
      (id : String) (r : SenderDeliveryRecord) → get w.records id ≡ some r → r.delivery_id ≡ id
  pub sound : (id : String) (r : SenderDeliveryRecord) → get w.records id ≡ some r → Sound r
  pub warranted : All (Warranted (get w.records)) w.acts

put-Warranted :
    (w : World) (id : String) (r : SenderDeliveryRecord) (a : Act)
    → Warranted (get w.records) a
    → Spares id a
    → Warranted (get (put w.records id r)) a
put-Warranted w id r (Act.marked_settled j) (s, e, st) h =
    (s, ground (arith, get-put w.records id r j, eq_iff id j), st)
put-Warranted w id r (Act.released j) (s, e, st) h =
    (s, ground (arith, get-put w.records id r j, eq_iff id j), st)
put-Warranted w id r (Act.reserved j) h k = tt
put-Warranted w id r (Act.marked_recovery j) h k = tt
put-Warranted w id r (Act.sent j bytes target) h k = tt
put-Warranted w id r (Act.slept n) h k = tt

put-All_cases :
    (P : String → SenderDeliveryRecord → Type 0) (w : World) (id : String)
    (r : SenderDeliveryRecord)
    → ((j : String) (s : SenderDeliveryRecord) → get w.records j ≡ some s → P j s)
    → P id r
    → (j : String) (s : SenderDeliveryRecord) (same : Bool) → str_eq id j ≡ same
    → (if same then some r else get w.records j) ≡ some s
    → P j s
put-All_cases P w id r h p j s true t e =
    subst (λ z. P j z) (some-injective r s e) (subst (λ z. P z r) (ground (arith, eq_iff id j)) p)
put-All_cases P w id r h p j s false t e = h j s e

-- what holds of the old records and of the new one holds of all
put-All :
    (P : String → SenderDeliveryRecord → Type 0) (w : World) (id : String)
    (r : SenderDeliveryRecord)
    → ((j : String) (s : SenderDeliveryRecord) → get w.records j ≡ some s → P j s)
    → P id r
    → (j : String) (s : SenderDeliveryRecord) → get (put w.records id r) j ≡ some s
    → P j s
put-All P w id r h p j s e =
    put-All_cases P w id r h p j s (str_eq id j) refl (sym (get-put w.records id r j) ∙ e)

pub put-Consistent :
    (w : World) (r : SenderDeliveryRecord)
    → Consistent w
    → Sound r
    → Open r.delivery_id w
    → Consistent (record w { records = put w.records r.delivery_id r })
put-Consistent w r c s o = record {
  keyed = put-All (λ j q. q.delivery_id ≡ j) w r.delivery_id r c.keyed refl;
  sound = put-All (λ j q. Sound q) w r.delivery_id r c.sound s;
  warranted = All-zip (put-Warranted w r.delivery_id r) w.acts c.warranted o;
}

pub act-Consistent :
    (w : World) (a : Act)
    → Consistent w
    → Warranted (get w.records) a
    → Consistent (record w { acts = a ∷ w.acts; answers = w.answers + 1 })
act-Consistent w a c h = record { keyed = c.keyed; sound = c.sound; warranted = (h, c.warranted) }
