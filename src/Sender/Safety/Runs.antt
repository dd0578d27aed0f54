-- ===== src/Sender/Safety/Runs.antt =====
-- Any sequence of payments and resumptions, each with its own wallet, transport and clock.
use mathlib.Core.Path.{subst}
use cashu_fault_lab.Common.{
  String, ◌≡◌, refl, true, false, Bool, Bool-cases, inl, inr, ◌&&◌, any, str_eq, eq_iff, Option,
  none, some, List, [], ◌∷◌, All, Member, All-Member, get, get-empty, ok, err, Result, arith,
}
use cashu_fault_lab.Common.Tasks.Holds.{Holds}
use cashu_fault_lab.Delivery.Platform.{Platform}
use cashu_fault_lab.Delivery.Codec.{Codec}
use cashu_fault_lab.Delivery.Receipt.{DeliveryReceipt, DeliveryStatus}
use cashu_fault_lab.Sender.Types.{
  SenderDeliveryStatus, SenderDeliveryRecord, SenderPaymentRequest, Act, World, SenderPorts,
  SendError, SendPaymentOutcome,
}
use cashu_fault_lab.Sender.Send.{send_payment, resume_payment}
use cashu_fault_lab.Sender.Send.Build.{SendPaymentOptions}
use cashu_fault_lab.Sender.Send.Judge.{has_identity}
use cashu_fault_lab.Sender.Safety.Certificates.{Identified, Certified, Consistent, Warranted}
use cashu_fault_lab.Sender.Safety.Calls.{send_payment-Keeps, resume_payment-Keeps}

no-record : (id : String) (r : SenderDeliveryRecord) → get [] id ≡ some r → ⊥
no-record id r e = ground (arith, get-empty {V = SenderDeliveryRecord} id)

rejected-receipt :
    (r : SenderDeliveryRecord) (stored : Option DeliveryReceipt)
    → r.receipt ≡ stored
    → Identified r stored
    → Certified SenderDeliveryStatus.rejected stored
    → (receipt : DeliveryReceipt) × (r.receipt ≡ some receipt)
      × (receipt.status ≡ DeliveryStatus.rejected)
      × (has_identity r receipt ≡ true)
rejected-receipt r none e i c = absurd c
rejected-receipt r (some receipt) e i c = (receipt, e, c, i)

-- the wallet is told to release the proofs of the delivery, or that it is settled
unfoldable pub is_release : String → Act → Bool
is_release id (Act.released j) = str_eq j id
is_release id _ = false

unfoldable pub is_settlement : String → Act → Bool
is_settlement id (Act.marked_settled j) = str_eq j id
is_settlement id _ = false

abbrev Held : (String → Option SenderDeliveryRecord) → String → SenderDeliveryStatus → Type 0
Held look id status = (r : SenderDeliveryRecord) × (look id ≡ some r) × (r.status ≡ status)

no_two_ends :
    (look : String → Option SenderDeliveryRecord) (id : String)
    → Held look id SenderDeliveryStatus.rejected
    → Held look id SenderDeliveryStatus.settled
    → ⊥
no_two_ends look id (r, e, s) (q, f, t) = ground arith

any-Warranted :
    (look : String → Option SenderDeliveryRecord) (test : Act → Bool) (acts : List Act) (P : Type 0)
    → ((a : Act) → test a ≡ true → Warranted look a → P)
    → any test acts ≡ true
    → All (Warranted look) acts
    → P
any-Warranted look test [] P f h w = ground arith
any-Warranted look test (a ∷ acts) P f h w = elim (Bool-cases (test a)) [
  | inl hit ↦ f a hit w.0
  | inr miss ↦ any-Warranted look test acts P f (ground arith) w.1
]

release-Held :
    (look : String → Option SenderDeliveryRecord) (id : String) (a : Act)
    → is_release id a ≡ true
    → Warranted look a
    → Held look id SenderDeliveryStatus.rejected
unfolding is_release
release-Held look id (Act.released j) h (r, e, s) =
    (r, subst (λ z. look z ≡ some r) (ground (arith, eq_iff j id)) e, s)
release-Held look id (Act.marked_settled j) h w = ground arith
release-Held look id (Act.reserved j) h w = ground arith
release-Held look id (Act.marked_recovery j) h w = ground arith
release-Held look id (Act.sent j bytes target) h w = ground arith
release-Held look id (Act.slept n) h w = ground arith

settlement-Held :
    (look : String → Option SenderDeliveryRecord) (id : String) (a : Act)
    → is_settlement id a ≡ true
    → Warranted look a
    → Held look id SenderDeliveryStatus.settled
unfolding is_settlement
settlement-Held look id (Act.marked_settled j) h (r, e, s) =
    (r, subst (λ z. look z ≡ some r) (ground (arith, eq_iff j id)) e, s)
settlement-Held look id (Act.released j) h w = ground arith
settlement-Held look id (Act.reserved j) h w = ground arith
settlement-Held look id (Act.marked_recovery j) h w = ground arith
settlement-Held look id (Act.sent j bytes target) h w = ground arith
settlement-Held look id (Act.slept n) h w = ground arith

-- one call of the sender
pub data Operation : Type 0 where
  send : SenderPorts → SenderPaymentRequest → SendPaymentOptions → Operation
  resume : SenderPorts → String → SendPaymentOptions → Operation

module _ (platform : Platform) (codec : Codec) where
  unfoldable pub perform : Operation → World → World
  perform (send ports request options) w = (send_payment platform codec ports request options w).1
  perform (resume ports id options) w = (resume_payment platform ports id options w).1

  -- the world after the calls, the first one last in the list
  unfoldable pub perform_all : List Operation → World
  perform_all [] = record { records = []; acts = []; answers = 0 }
  perform_all (o ∷ os) = perform o (perform_all os)

  Keeps-world :
      (x : Result SendError SendPaymentOutcome × World)
      → Holds (λ _ v. Consistent v) Consistent x
      → Consistent x.1
  Keeps-world (ok a, v) h = h
  Keeps-world (err e, v) h = h

  perform-Consistent : (o : Operation) (w : World) → Consistent w → Consistent (perform o w)
  unfolding perform
  perform-Consistent (send ports request options) w c =
      Keeps-world _ (send_payment-Keeps platform codec ports request options w c)
  perform-Consistent (resume ports id options) w c =
      Keeps-world _ (resume_payment-Keeps platform ports id options w c)

  perform_all-Consistent : (os : List Operation) → Consistent (perform_all os)
  unfolding perform_all
  perform_all-Consistent [] = record {
    keyed = λ id r e. absurd (no-record id r e);
    sound = λ id r e. absurd (no-record id r e);
    warranted = tt;
  }
  perform_all-Consistent (o ∷ os) =
      perform-Consistent o (perform_all os) (perform_all-Consistent os)

  -- After any calls of sendPayment and resumePayment, whatever their wallets, transports and clocks
  -- answer, a stored record stands under its delivery ID, a receipt in it is one of this delivery, and
  -- if the record is settled or rejected, it has a receipt with this status.
  pub perform_all-Sound :
      (os : List Operation) (id : String) (r : SenderDeliveryRecord)
      → get (perform_all os).records id ≡ some r
      → (r.delivery_id ≡ id) × Identified r r.receipt × Certified r.status r.receipt
  perform_all-Sound os id r e =
      let c = perform_all-Consistent os in (c.keyed id r e, (c.sound id r e).0, (c.sound id r e).1)

  warrant :
      (os : List Operation) (a : Act)
      → Member a (perform_all os).acts
      → Warranted (get (perform_all os).records) a
  warrant os a m =
      All-Member (Warranted (get (perform_all os).records)) _ m
        (perform_all-Consistent os).warranted

  -- After any calls of sendPayment and resumePayment, a delivery whose proofs the wallet was told to
  -- release has a stored receipt that rejects this delivery.
  pub perform_all-released :
      (os : List Operation) (id : String)
      → Member (Act.released id) (perform_all os).acts
      → (r : SenderDeliveryRecord) × (receipt : DeliveryReceipt) × (get (perform_all os).records id
          ≡ some r)
        × (r.receipt ≡ some receipt)
        × (receipt.status ≡ DeliveryStatus.rejected)
        × (has_identity r receipt ≡ true)
  perform_all-released os id m =
      let (r, found, status) = warrant os (Act.released id) m in
      let s = (perform_all-Consistent os).sound id r found in
      let (receipt, e, t, i) =
        rejected-receipt r r.receipt refl s.0 (subst (λ z. Certified z r.receipt) status s.1) in
      (r, receipt, found, e, t, i)

  -- Over any calls of sendPayment and resumePayment, the wallet is never told both that a delivery is
  -- settled and that its proofs are released.
  pub perform_all-exclusive :
      (os : List Operation) (id : String)
      → (any (is_release id) (perform_all os).acts && any (is_settlement id) (perform_all os).acts)
        ≡ false
  perform_all-exclusive os id =
      let w = (perform_all-Consistent os).warranted in
      elim (Bool-cases (any (is_release id) (perform_all os).acts)) [
        | inr never ↦ rw never refl
        | inl released ↦ elim (Bool-cases (any (is_settlement id) (perform_all os).acts)) [
          | inr never ↦ rw (released, never) refl
          | inl settled ↦ absurd (
              no_two_ends (get (perform_all os).records) id
                (any-Warranted (get (perform_all os).records) (is_release id) (perform_all os).acts
                  _ (release-Held (get (perform_all os).records) id) released w)
                (any-Warranted (get (perform_all os).records) (is_settlement id)
                  (perform_all os).acts _ (settlement-Held (get (perform_all os).records) id)
                  settled w))
        ]
      ]
