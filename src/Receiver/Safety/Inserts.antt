-- ===== src/Receiver/Safety/Inserts.antt =====
-- `prepare` and `createRequest` keep the invariant of the whole store.
use cashu_fault_lab.Common.{
  String, ◌≡◌, ◌⊎◌, inl, inr, none, some, Option-cases, Result-cases, arith, get, put, get-put,
  eq_iff, ok,
}
use cashu_fault_lab.Delivery.Platform.{Platform}
use cashu_fault_lab.Receiver.Types.{
  DeliveryRecord, PaymentRequestRecord, PrepareDelivery, PrepareResult, CreatePaymentRequest,
}
use cashu_fault_lab.Receiver.Store.{StoreState}
use cashu_fault_lab.Receiver.Store.Requests.{
  require_request, request_record, bind_request, create_request,
}
use cashu_fault_lab.Receiver.Store.Prepare.{new_record, insert_record, prepare_new, prepare}
use cashu_fault_lab.Receiver.Safety.{Inv}
use cashu_fault_lab.Receiver.Safety.Inserted.{insert-Inv}

module _ (platform : Platform) (s : StoreState) (inv : Inv platform s) where
  prepare_new-Inv :
      (q : PaymentRequestRecord) (input : PrepareDelivery) (x : PrepareResult) (t : StoreState)
      → get s.requests q.id ≡ some q
      → get s.deliveries input.command.payload.delivery.id ≡ none
      → prepare_new platform q input s ≡ ok (x, t)
      → Inv platform t
  unfolding prepare_new
  prepare_new-Inv q input x t b fresh e =
      let done : t ≡ insert_record q (new_record q input) s = ground arith in
      rw done
        (insert-Inv platform s q input inv b fresh (ground arith) (ground arith) (ground arith))

  pub prepare-Inv :
      (input : PrepareDelivery) (x : PrepareResult) (t : StoreState)
      → prepare platform input s ≡ ok (x, t)
      → Inv platform t
  unfolding prepare require_request
  prepare-Inv input x t e = elim (Option-cases (get s.requests input.command.payload.id)) [
    | inl missing ↦ absurd (ground arith)
    | inr (q, b) ↦ elim (Option-cases (get s.deliveries input.command.payload.delivery.id)) [
      | inr (previous, found) ↦ let same : t ≡ s = ground arith in rw same inv
      | inl fresh ↦
          prepare_new-Inv q input x t (ground (arith, inv.requests input.command.payload.id q b))
            fresh (ground arith)
    ]
  ]

  module _ (q x : PaymentRequestRecord) (bound : bind_request (get s.requests q.id) q ≡ ok x) where
    -- a request that is there stays, and what is added is the new request under its ID
    requests-old :
        (k : String) (y : PaymentRequestRecord)
        → get s.requests k ≡ some y
        → get (put s.requests q.id x) k ≡ some y
    unfolding bind_request
    requests-old k y f = ground (arith, get-put s.requests q.id x k, eq_iff q.id k)

    requests-id :
        (k : String) (y : PaymentRequestRecord) → get (put s.requests q.id x) k ≡ some y → y.id ≡ k
    unfolding bind_request
    requests-id k y f =
        ground
          (arith, get-put s.requests q.id x k, eq_iff q.id k, inv.requests k y, inv.requests q.id x)

    put_request-Inv : Inv platform (record s { requests = put s.requests q.id x })
    put_request-Inv = record {
      records = inv.records;
      orphans = inv.orphans;
      claims = inv.claims;
      reservations = λ id r y f live g on.
          let (y', g', a) = inv.bound id r f in
          inv.reservations id r y f live (ground (arith, requests-old r.request_id y' g')) on;
      requests = requests-id;
      bound = λ id r f. let (y, g, a) = inv.bound id r f in (y, requests-old r.request_id y g, a);
    }

  pub create_request-Inv :
      (input : CreatePaymentRequest) (x : PaymentRequestRecord) (t : StoreState)
      → create_request platform input s ≡ ok (x, t)
      → Inv platform t
  unfolding create_request
  create_request-Inv input x t e = elim (Result-cases (request_record platform input)) [
    | inr (_, bad) ↦ absurd (ground arith)
    | inl (q, good) ↦
        let done : t ≡ record s { requests = put s.requests q.id x } = ground arith in
        rw done (put_request-Inv q x (ground arith))
  ]

-- `prepare` adds a delivery under an ID that is free, or changes nothing.
pub prepare-inserted :
    (platform : Platform) (s : StoreState) (input : PrepareDelivery) (x : PrepareResult)
    (t : StoreState)
    → prepare platform input s ≡ ok (x, t)
    → (t ≡ s)
      ⊎ ((get s.deliveries input.command.payload.delivery.id ≡ none)
          × ((q : PaymentRequestRecord) × (t ≡ insert_record q (new_record q input) s)))
unfolding prepare prepare_new require_request
prepare-inserted platform s input x t e =
    elim (Option-cases (get s.requests input.command.payload.id)) [
      | inl missing ↦ absurd (ground arith)
      | inr (q, b) ↦ elim (Option-cases (get s.deliveries input.command.payload.delivery.id)) [
        | inr (previous, found) ↦ inl (ground arith)
        | inl fresh ↦ inr (fresh, (q, ground arith))
      ]
    ]

pub create_request-deliveries :
    (platform : Platform) (s : StoreState) (input : CreatePaymentRequest) (x : PaymentRequestRecord)
    (t : StoreState)
    → create_request platform input s ≡ ok (x, t)
    → (t.deliveries ≡ s.deliveries) × (t.credits ≡ s.credits)
unfolding create_request
create_request-deliveries platform s input x t e = ground arith

-- Adding a delivery under a free ID leaves the others and every credit.
pub insert_record-kept :
    (s : StoreState) (q : PaymentRequestRecord) (input : PrepareDelivery) (k : String)
    (r : DeliveryRecord)
    → get s.deliveries input.command.payload.delivery.id ≡ none
    → get s.deliveries k ≡ some r
    → (get (insert_record q (new_record q input) s).deliveries k ≡ some r)
      × ((insert_record q (new_record q input) s).credits ≡ s.credits)
unfolding insert_record new_record
insert_record-kept s q input k r fresh f = ground (
  arith,
  get-put s.deliveries input.command.payload.delivery.id (new_record q input) k,
  eq_iff input.command.payload.delivery.id k,
)
