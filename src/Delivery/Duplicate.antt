-- ===== src/Delivery/Duplicate.antt =====
-- packages/delivery-core/src/duplicate.ts
use cashu_fault_lab.Common.{
  String, ◌≡◌, refl, ◌≢◌, Bool, true, false, ◌&&◌, Option, none, some, List, [], ◌∷◌, if◌then◌else◌,
  str_eq, eq_iff, any, arith, Member, here, there, All, All-map, All-zip, All-always,
  any-eq_false_iff, inl, inr, ◌↔◌, Option-cases, Bool-cases,
}

pub record ExistingDeliveryBinding : Type 0 where
  pub request_id : String
  pub delivery_id : String
  pub payload_hash : String
  pub proof_set_hash : String
  pub holds_proof_claim : Bool
  pub holds_request_reservation : Bool

pub data DeliveryClassification : Type 0 where
  new duplicate delivery_conflict proof_conflict single_use_conflict : DeliveryClassification

-- existing.find((item) => item.deliveryId === incoming.deliveryId)
find_delivery : List ExistingDeliveryBinding → String → Option ExistingDeliveryBinding
find_delivery [] id = none
find_delivery (item ∷ items) id =
    if str_eq item.delivery_id id then some item else find_delivery items id

same_binding : ExistingDeliveryBinding → ExistingDeliveryBinding → Bool
same_binding a b =
    str_eq a.payload_hash b.payload_hash
    && str_eq a.proof_set_hash b.proof_set_hash
    && str_eq a.request_id b.request_id

-- the two calls of existing.some
claims_proofs : ExistingDeliveryBinding → ExistingDeliveryBinding → Bool
claims_proofs incoming item =
    item.holds_proof_claim && str_eq item.proof_set_hash incoming.proof_set_hash

reserves_request : ExistingDeliveryBinding → ExistingDeliveryBinding → Bool
reserves_request incoming item =
    item.holds_request_reservation && str_eq item.request_id incoming.request_id

unfoldable pub classify_delivery :
    List ExistingDeliveryBinding → ExistingDeliveryBinding → Bool → DeliveryClassification
unfolding find_delivery same_binding claims_proofs reserves_request
classify_delivery existing incoming single_use =
    elim (find_delivery existing incoming.delivery_id) [
      | some item ↦ if same_binding item incoming then duplicate else delivery_conflict
      | none ↦
          if any (claims_proofs incoming) existing
          then proof_conflict
          else if single_use && any (reserves_request incoming) existing
          then single_use_conflict
          else new
    ]

-- The incoming delivery is new to a binding: it has another ID, it does not take proofs that the
-- binding holds, and it does not take a single-use request that the binding holds.
pub record IsNew (single_use : Bool) (incoming item : ExistingDeliveryBinding) : Type 0 where
  pub other_id : item.delivery_id ≢ incoming.delivery_id
  pub other_proofs : item.holds_proof_claim ≡ true → item.proof_set_hash ≢ incoming.proof_set_hash
  pub other_request :
      single_use ≡ true
      → item.holds_request_reservation ≡ true
      → item.request_id ≢ incoming.request_id

find_none :
    (items : List ExistingDeliveryBinding) (id : String)
    → (find_delivery items id ≡ none) ↔ All (λ item. item.delivery_id ≢ id) items
unfolding find_delivery
find_none [] id = ((λ _. tt), (λ _. refl))
find_none (item ∷ items) id = ground (arith, find_none items id, eq_iff item.delivery_id id)

find_some :
    (items : List ExistingDeliveryBinding) (id : String) (item : ExistingDeliveryBinding)
    → find_delivery items id ≡ some item
    → Member item items × (item.delivery_id ≡ id)
unfolding find_delivery
find_some [] id item e = cc
find_some (x ∷ items) id item e = elim (Bool-cases (str_eq x.delivery_id id)) [
  | inl same ↦ let e' : x ≡ item = ground arith in (rw e' here, (eq_iff _ _).0 (rw e' at same))
  | inr other ↦ let (m, same) = find_some items id item (ground arith) in (there m, same)
]

module _ (single_use : Bool) (incoming : ExistingDeliveryBinding) where
  claims_proofs-false :
      (item : ExistingDeliveryBinding)
      → (claims_proofs incoming item ≡ false)
        ↔ (item.holds_proof_claim ≡ true → item.proof_set_hash ≢ incoming.proof_set_hash)
  unfolding claims_proofs
  claims_proofs-false item = ground (arith, eq_iff item.proof_set_hash incoming.proof_set_hash)

  reserves_request-false :
      (item : ExistingDeliveryBinding)
      → (reserves_request incoming item ≡ false)
        ↔ (item.holds_request_reservation ≡ true → item.request_id ≢ incoming.request_id)
  unfolding reserves_request
  reserves_request-false item = ground (arith, eq_iff item.request_id incoming.request_id)

  free_requests :
      (existing : List ExistingDeliveryBinding)
      → (single_use && any (reserves_request incoming) existing) ≡ false
      → All (λ item. single_use ≡ true → reserves_request incoming item ≡ false) existing
  free_requests existing h = elim (Bool-cases single_use) [
    | inl on ↦
        All-map (λ x q _. q) existing
          ((any-eq_false_iff (reserves_request incoming) existing).0 (ground arith))
    | inr off ↦ All-always (λ x on. cc) existing
  ]

  IsNew-parts :
      (item : ExistingDeliveryBinding)
      → item.delivery_id ≢ incoming.delivery_id
      → (claims_proofs incoming item ≡ false)
        × (single_use ≡ true → reserves_request incoming item ≡ false)
      → IsNew single_use incoming item
  IsNew-parts item id pr = record {
    other_id = id;
    other_proofs = (claims_proofs-false item).0 pr.0;
    other_request = λ on. (reserves_request-false item).0 (pr.1 on);
  }

  new_sound :
      (existing : List ExistingDeliveryBinding)
      → classify_delivery existing incoming single_use ≡ new
      → All (IsNew single_use incoming) existing
  unfolding classify_delivery
  new_sound existing e =
      let ids = (find_none existing incoming.delivery_id).0 (ground arith) in
      let proofs =
        (any-eq_false_iff (claims_proofs incoming) existing).0
          (ground (arith, find_none existing incoming.delivery_id)) in
      let requests = free_requests existing (ground arith) in
      All-zip IsNew-parts existing ids (All-zip (λ x p r. (p, r)) existing proofs requests)

  new_complete :
      (existing : List ExistingDeliveryBinding)
      → All (IsNew single_use incoming) existing
      → classify_delivery existing incoming single_use ≡ new
  unfolding classify_delivery
  new_complete existing h =
      let ids =
        (find_none existing incoming.delivery_id).1 (All-map (λ x n. n.other_id) existing h) in
      let proofs =
        (any-eq_false_iff (claims_proofs incoming) existing).1
          (All-map (λ x n. (claims_proofs-false x).1 n.other_proofs) existing h) in
      elim (Bool-cases single_use) [
        | inl on ↦
            let requests =
              (any-eq_false_iff (reserves_request incoming) existing).1
                (All-map (λ x n. (reserves_request-false x).1 (n.other_request on)) existing h) in
            ground arith
        | inr off ↦ ground arith
      ]

-- A delivery is classified as new exactly when it is new to every existing binding.
pub classify_delivery-new_iff :
    (existing : List ExistingDeliveryBinding) (incoming : ExistingDeliveryBinding)
    (single_use : Bool)
    → (classify_delivery existing incoming single_use ≡ new)
      ↔ All (IsNew single_use incoming) existing
classify_delivery-new_iff existing incoming single_use =
    (new_sound single_use incoming existing, new_complete single_use incoming existing)

-- A delivery that is called a duplicate has an existing binding with its ID, its request and both
-- of its hashes.
classify_delivery-duplicate :
    (existing : List ExistingDeliveryBinding) (incoming : ExistingDeliveryBinding)
    (single_use : Bool)
    → classify_delivery existing incoming single_use ≡ duplicate
    → (item : ExistingDeliveryBinding) × Member item existing
      × (item.delivery_id ≡ incoming.delivery_id)
      × (item.request_id ≡ incoming.request_id)
      × (item.payload_hash ≡ incoming.payload_hash)
      × (item.proof_set_hash ≡ incoming.proof_set_hash)
unfolding classify_delivery same_binding
classify_delivery-duplicate existing incoming single_use e =
    elim (Option-cases (find_delivery existing incoming.delivery_id)) [
      | inl nothing ↦ absurd (ground arith)
      | inr (item, found) ↦
          let (m, same) = find_some existing incoming.delivery_id item found in
          (
            item,
            m,
            same,
            ground (arith, eq_iff item.request_id incoming.request_id),
            ground (arith, eq_iff item.payload_hash incoming.payload_hash),
            ground (arith, eq_iff item.proof_set_hash incoming.proof_set_hash),
          )
    ]
