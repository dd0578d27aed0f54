-- ===== src/Sender/Safety/Payments.antt =====
-- `sendPayment` and `resumePayment` keep the sender consistent, in any order and with any failures.
use mathlib.Core.Path.{subst}
use cashu_fault_lab.Common.{
  ℕ, String, true, false, ◌≡◌, ◌≢◌, refl, sym, ◌∙◌, Option, none, some, is_some, List, All-map, get,
  Result, ok, bind-eq-ok, ensure, map_err, throw_if, if◌then◌else◌, arith, includes, str_eq, ◌&&◌,
}
use cashu_fault_lab.Common.Tasks.{pure, throw, lift}
use cashu_fault_lab.Common.Tasks.Holds.{
  Holds, bind-Holds, then-Holds, attempt-Holds, lift-Holds, lift-Result,
}
use cashu_fault_lab.Delivery.Platform.{Platform}
use cashu_fault_lab.Delivery.Codec.{Codec}
use cashu_fault_lab.Delivery.Amount.{assert_exact_requested_amount}
use cashu_fault_lab.Delivery.Payload.{DeliveryPayload, serialize_delivery_payload}
use cashu_fault_lab.Delivery.Fingerprint.{compute_payload_hash}
use cashu_fault_lab.Sender.Types.{
  SenderDeliveryStatus, SenderDeliveryRecord, SenderPaymentRequest, TransportTarget,
  ReservedProofSet, Act, World, SenderPorts, SendError, validation, invalid,
}
use cashu_fault_lab.Sender.State.{find}
use cashu_fault_lab.Sender.Send.{
  read, mark_recovery_required, mark_and_throw, mark_recovery_after, is_finished, prepare_record,
  reserve_exact, send_locked,
}
use cashu_fault_lab.Sender.Send.Build.{
  SendPaymentOptions, build_record, first_record, hash_input, payload_for,
}
use cashu_fault_lab.Sender.Send.Judge.{has_identity}
use cashu_fault_lab.Sender.Safety.Certificates.{Warranted, Spares, Consistent}
use cashu_fault_lab.Sender.Safety.Judged.{Active}
use cashu_fault_lab.Sender.Safety.Flow.{
  Ready, Stored, create_record-Holds, use_port-Open, use_port-Consistent,
}
use cashu_fault_lab.Sender.Safety.Attempts.{Keeps, Active-Sound, run_attempts-Keeps}

-- What the wallet may be told of a delivery that has no record, or an unfinished one: nothing final.
unfoldable pub Unfinished : Option SenderDeliveryRecord → Type 0
Unfinished none = Unit
Unfinished (some r) =
    (r.status ≢ SenderDeliveryStatus.settled) × (r.status ≢ SenderDeliveryStatus.rejected)

Warranted-Spares :
    (look : String → Option SenderDeliveryRecord) (id : String) (a : Act)
    → Unfinished (look id)
    → Warranted look a
    → Spares id a
unfolding Unfinished
Warranted-Spares look id (Act.marked_settled j) u (r, e, s) =
    λ same. (subst (λ z. Unfinished z) (subst (λ z. look z ≡ some r) same e) u).0 s
Warranted-Spares look id (Act.released j) u (r, e, s) =
    λ same. (subst (λ z. Unfinished z) (subst (λ z. look z ≡ some r) same e) u).1 s
Warranted-Spares look id (Act.reserved j) u h = tt
Warranted-Spares look id (Act.marked_recovery j) u h = tt
Warranted-Spares look id (Act.sent j bytes target) u h = tt
Warranted-Spares look id (Act.slept n) u h = tt

pub unfinished-Ready :
    (id : String) (w : World) → Unfinished (get w.records id) → Consistent w → Ready id w
unfinished-Ready id w u c = record {
  consistent = c;
  unended = All-map (λ a. Warranted-Spares (get w.records) id a u) w.acts c.warranted;
}

pub read-Keeps : {A : Type 0} (port : ℕ → A) (w : World) → Consistent w → Keeps (read port) w
unfolding read
read-Keeps port w c = record { keyed = c.keyed; sound = c.sound; warranted = c.warranted }

pub lift-Keeps : {A : Type 0} (r : Result SendError A) (w : World) → Consistent w → Keeps (lift r) w
lift-Keeps r w c = lift-Holds Consistent Consistent r w c c

module _ (ports : SenderPorts) (id : String) where
  mark_and_throw-Holds :
      {A : Type 0} (Q : A → World → Type 0) (e : SendError) (w : World)
      → Consistent w
      → Holds Q Consistent (mark_and_throw ports id e w)
  unfolding mark_and_throw mark_recovery_required throw
  mark_and_throw-Holds Q e w c =
      then-Holds (λ _ v. Consistent v) _ _ _ _ w
        (attempt-Holds _ Consistent _ _ _ w (use_port-Consistent _ _ w tt c) (λ e v k. k))
        (λ _ v k. k)

  mark_recovery_after-Holds :
      {A : Type 0} (Q : A → World → Type 0) (e : SendError) (w : World)
      → Consistent w
      → Holds Q Consistent (mark_recovery_after ports id e w)
  unfolding mark_recovery_after find throw
  mark_recovery_after-Holds Q e w c =
      bind-Holds (λ _ v. Consistent v) _ _ _ _ w c
        (λ found v k.
          elim (is_finished found)
            as (λ finished.
              Holds Q Consistent ((if finished then throw e else mark_and_throw ports id e) v)) [
                | true ↦ k
                | false ↦ mark_and_throw-Holds Q e v k
              ])

first_record-Active :
    (request : SenderPaymentRequest) (id : String) (target : TransportTarget)
    (payload : DeliveryPayload) (bytes : List ℕ) (hash : String)
    → Active (first_record request id target payload bytes hash)
unfolding first_record has_identity
first_record-Active request id target payload bytes hash = record {
  pending = refl;
  identified = tt;
}

pub first_record-delivery_id :
    (request : SenderPaymentRequest) (id : String) (target : TransportTarget)
    (payload : DeliveryPayload) (bytes : List ℕ) (hash : String)
    → (first_record request id target payload bytes hash).delivery_id ≡ id
unfolding first_record
first_record-delivery_id request id target payload bytes hash = refl

module _ (platform : Platform) (codec : Codec) where
  pub build_record-first :
      (request : SenderPaymentRequest) (target : TransportTarget) (payload : DeliveryPayload)
      (set : ReservedProofSet) (r : SenderDeliveryRecord)
      → build_record platform codec request target payload set ≡ ok r
      → (bytes : List ℕ) × (hash : String) × (serialize_delivery_payload platform codec payload
          ≡ ok bytes)
        × (compute_payload_hash platform codec (hash_input payload) ≡ ok hash)
        × (r ≡ first_record request payload.delivery.id target payload bytes hash)
  unfolding build_record
  build_record-first request target payload set r e =
      let (_, _, e1) =
        bind-eq-ok
          (ensure (includes request.mints set.mint && str_eq set.unit request.unit) invalid) _ e in
      let (_, _, e2) =
        bind-eq-ok
          (map_err validation (assert_exact_requested_amount set.net_amount request.amount)) _ e1 in
      let (bytes, b, e3) =
        bind-eq-ok (map_err validation (serialize_delivery_payload platform codec payload)) _ e2 in
      let (hash, h, e4) =
        bind-eq-ok (map_err validation (compute_payload_hash platform codec (hash_input payload))) _
          e3 in
      (bytes, hash, ground arith, ground arith, ground arith)

found-Ready :
    (id : String) (found : Option SenderDeliveryRecord) (w : World)
    → Consistent w
    → found ≡ get w.records id
    → Holds
        (λ _ v. Ready id v)
        Consistent
        (lift {E = SendError} (throw_if (is_some found) invalid) w)
unfolding lift Unfinished
found-Ready id none w c e = unfinished-Ready id w (subst (λ z. Unfinished z) e tt) c
found-Ready id (some r) w c e = c

module _ (platform : Platform) (codec : Codec) (ports : SenderPorts) (id : String) where
  prepare_record-Holds :
      (request : SenderPaymentRequest) (target : TransportTarget) (payload : DeliveryPayload)
      (set : ReservedProofSet) (w : World)
      → payload.delivery.id ≡ id
      → Ready id w
      → Holds
          (λ r v. Stored id r v × Active r × (r.delivery_id ≡ id))
          Consistent
          (prepare_record platform codec ports request target payload set w)
  unfolding prepare_record pure
  prepare_record-Holds request target payload set w e h =
      bind-Holds _ _ _ _ _ w
        (lift-Result (Ready id) Consistent (build_record platform codec request target payload set)
          w h h.consistent)
        (λ r v k.
          let (bytes, hash, _, _, q) =
            build_record-first platform codec request target payload set r k.0 in
          let a =
            subst (λ z. Active z) (sym q)
              (first_record-Active request payload.delivery.id target payload bytes hash) in
          let d =
            subst (λ z. z.delivery_id ≡ id) (sym q)
              (first_record-delivery_id request payload.delivery.id target payload bytes hash
                ∙ e) in
          then-Holds (λ _ u. Stored id r u) _ _ _ _ v
            (create_record-Holds id r d (Active-Sound r a) v k.1) (λ _ u s. (s, a, d)))

  pub send_locked-Keeps :
      (request : SenderPaymentRequest) (options : SendPaymentOptions) (target : TransportTarget)
      (now expires_at : ℕ) (w : World)
      → Consistent w
      → Keeps (send_locked platform codec ports request options target now expires_at id) w
  unfolding send_locked find reserve_exact payload_for Unfinished
  send_locked-Keeps request options target now expires_at w c =
      bind-Holds (λ found v. Consistent v × (found ≡ get v.records id)) _ _ _ _ w (c, refl)
        (λ found v k.
          then-Holds (λ _ u. Ready id u) _ _ _ _ v (found-Ready id found v k.0 k.1)
            (λ _ u g.
              bind-Holds (λ _ t. Ready id t) _ _ _ _ u (use_port-Open id _ _ u tt tt g)
                (λ set t g.
                  bind-Holds (λ r s. Stored id r s × Active r × (r.delivery_id ≡ id)) _ _ _ _ t
                    (attempt-Holds _ Consistent _ _ _ t
                      (prepare_record-Holds request target _ set t refl g)
                      (λ e s k. mark_and_throw-Holds ports id _ e s k))
                    (λ r s h.
                      attempt-Holds _ Consistent _ _ _ s
                        (run_attempts-Keeps platform ports id r options s h.2 h.1 h.0.ready)
                        (λ e q k. mark_recovery_after-Holds ports id _ e q k)))))
