-- ===== src/Receiver/Safety/Inserted.antt =====
-- The store with a new delivery: its claims, its reservations, its request and its records.
use mathlib.Core.Path.{subst, subst₂, ◌∙◌}
use cashu_fault_lab.Common.{
  String, ◌≡◌, refl, ◌≢◌, ◌⊎◌, inl, inr, true, false, ◌&&◌, List, [], ◌∷◌, none, some, Bool-cases,
  Result-cases, arith, get, put, get-put, eq_iff, str_eq, str_eq_refl, is_blank, any, All-Member,
  any-eq_false_iff, Member, here, there, ok, Map,
}
use cashu_fault_lab.Delivery.Platform.{Platform}
use cashu_fault_lab.Delivery.Ids.{parse_protocol_id}
use cashu_fault_lab.Delivery.Receipt.{DeliveryReceipt, check_names, assert_receipt_transition}
use cashu_fault_lab.Delivery.Receipt.Valid.{IsValid, IsValid-iff}
use cashu_fault_lab.Receiver.Types.{DeliveryRecord, PaymentRequestRecord, PrepareDelivery, rejected}
use cashu_fault_lab.Receiver.Store.{StoreState}
use cashu_fault_lab.Receiver.Store.Requests.{taken_by_other}
use cashu_fault_lab.Receiver.Store.Prepare.{claim_all, first_receipt, new_record, insert_record}
use cashu_fault_lab.Receiver.Safety.{IsRecord, Inv}

parse-not_blank :
    (platform : Platform) (s x : String) → parse_protocol_id platform s ≡ ok x → is_blank s ≡ false
unfolding parse_protocol_id
parse-not_blank platform String.[] x e = cc
parse-not_blank platform (String.◌∷◌ c s) x e = refl

IsValid-not_blank :
    (platform : Platform) (r : DeliveryReceipt)
    → IsValid platform r
    → is_blank r.delivery_id ≡ false
unfolding check_names
IsValid-not_blank platform r v = elim (Result-cases (parse_protocol_id platform r.delivery_id)) [
  | inl (x, e) ↦ parse-not_blank platform r.delivery_id x e
  | inr (x, e) ↦ absurd (ground (arith, IsValid-iff platform r))
]

claim_all-own :
    (cs : List String) (owner k : String) (m : Map String)
    → (get m k ≡ some owner) ⊎ Member k cs
    → get (claim_all cs owner m) k ≡ some owner
unfolding claim_all
claim_all-own [] owner k m (inl g) = g
claim_all-own [] owner k m (inr i) = elim i [ ]
claim_all-own (c ∷ cs) owner k m (inl g) =
    claim_all-own cs owner k (put m c owner) (inl (ground (arith, get-put m c owner k)))
claim_all-own (c ∷ cs) owner k m (inr here) =
    claim_all-own cs owner c (put m c owner)
      (inl (ground (arith, get-put m c owner c, str_eq_refl c)))
claim_all-own (c ∷ cs) owner k m (inr (there i)) = claim_all-own cs owner k (put m c owner) (inr i)

claim_all-other :
    (cs : List String) (owner k : String) (m : Map String)
    → ¬ Member k cs
    → get (claim_all cs owner m) k ≡ get m k
unfolding claim_all
claim_all-other [] owner k m n = refl
claim_all-other (c ∷ cs) owner k m n = elim (Bool-cases (str_eq c k)) [
  | inl same ↦ absurd (n (subst (λ x. Member x (c ∷ cs)) ((eq_iff c k).0 same) here))
  | inr other ↦
      claim_all-other cs owner k (put m c owner) (λ i. n (there i))
      ∙ ground (arith, get-put m c owner k)
]

module _ (platform : Platform) (s : StoreState) (q : PaymentRequestRecord) (input : PrepareDelivery)
    (inv : Inv platform s) (bound : get s.requests q.id ≡ some q)
    (fresh : get s.deliveries input.command.payload.delivery.id ≡ none)
    (free : any
        (λ claim. taken_by_other (get s.proof_claims claim) input.command.payload.delivery.id)
        input.proof_claim_ids
      ≡ false)
    (unreserved : (q.single_use
        && taken_by_other (get s.request_reservations q.id) input.command.payload.delivery.id)
      ≡ false)
    (first : assert_receipt_transition platform none (first_receipt q input) ≡ ok tt) where
  pub id : String
  id = input.command.payload.delivery.id

  -- whoever has a delivery in the store is another one, with a name
  pub others :
      (k : String) (x : DeliveryRecord)
      → get s.deliveries k ≡ some x
      → taken_by_other (some k) id ≡ true
  unfolding id taken_by_other
  others k x e =
      let h = inv.records k x e in
      ground (
        arith,
        IsValid-not_blank platform x.receipt h.valid,
        eq_iff k input.command.payload.delivery.id,
      )

  insert-at :
      (k : String) (x : DeliveryRecord)
      → get (insert_record q (new_record q input) s).deliveries k ≡ some x
      → ((id ≡ k) × (new_record q input ≡ x)) ⊎ (get s.deliveries k ≡ some x)
  unfolding insert_record id new_record
  insert-at k x e = ground (
    arith,
    get-put s.deliveries input.command.payload.delivery.id (new_record q input) k,
    eq_iff input.command.payload.delivery.id k,
  )

  insert-IsRecord : IsRecord platform id (new_record q input) (get s.credits id)
  unfolding new_record first_receipt assert_receipt_transition id
  insert-IsRecord = record {
    keyed = refl;
    receipt_delivery = refl;
    receipt_request = refl;
    receipt_amount = refl;
    valid = ground arith;
    status = refl;
    starts = omega arith;
    paid = λ p. absurd (ground arith);
    unpaid = λ u. inv.orphans id fresh;
  }

  -- nobody holds a claim of the new delivery
  untaken :
      (claim : String)
      → Member claim input.proof_claim_ids
      → taken_by_other (get s.proof_claims claim) id ≡ false
  unfolding id
  untaken claim i =
      All-Member
        (λ c. taken_by_other (get s.proof_claims c) input.command.payload.delivery.id ≡ false)
        input.proof_claim_ids i ((any-eq_false_iff _ input.proof_claim_ids).0 free)

  insert-claims :
      (k claim : String) (x : DeliveryRecord)
      → (get (insert_record q (new_record q input) s).deliveries k ≡ some x)
      → x.phase ≢ rejected
      → Member claim x.proof_claim_ids
      → get (insert_record q (new_record q input) s).proof_claims claim ≡ some k
  unfolding insert_record new_record id
  insert-claims k claim x e live m = elim (insert-at k x e) [
    | inl (p, w) ↦
        subst₂
          (λ k x.
            Member claim x.proof_claim_ids
            → get (claim_all input.proof_claim_ids input.command.payload.delivery.id s.proof_claims)
                claim
              ≡ some k)
          p w
          (λ i.
            claim_all-own input.proof_claim_ids input.command.payload.delivery.id claim
              s.proof_claims (inr i))
          m
    | inr e' ↦
        let kept = inv.claims k claim x e' live m in
        claim_all-other input.proof_claim_ids input.command.payload.delivery.id claim s.proof_claims
          (λ i. absurd (ground (arith, others k x e', kept, untaken claim i)))
        ∙ kept
  ]

  insert-reservations :
      (k : String) (x : DeliveryRecord) (q' : PaymentRequestRecord)
      → get (insert_record q (new_record q input) s).deliveries k ≡ some x
      → x.phase ≢ rejected
      → get s.requests x.request_id ≡ some q'
      → q'.single_use ≡ true
      → get (insert_record q (new_record q input) s).request_reservations x.request_id ≡ some k
  unfolding insert_record new_record id
  insert-reservations k x q' e live f on = elim (insert-at k x e) [
    | inl (p, w) ↦
        let same : x.request_id ≡ q.id = ground arith in
        ground (
          arith,
          get-put s.request_reservations q.id input.command.payload.delivery.id q.id,
          str_eq_refl q.id,
        )
    | inr e' ↦
        let kept = inv.reservations k x q' e' live f on in
        ground (
          arith,
          others k x e',
          kept,
          eq_iff q.id x.request_id,
          get-put s.request_reservations q.id input.command.payload.delivery.id x.request_id,
        )
  ]

  insert-bound :
      (k : String) (x : DeliveryRecord)
      → get (insert_record q (new_record q input) s).deliveries k ≡ some x
      → (q' : PaymentRequestRecord) × (get s.requests x.request_id ≡ some q')
        × (q'.amount ≡ x.amount)
  unfolding new_record
  insert-bound k x e = elim (insert-at k x e) [
    | inl (p, w) ↦ (q, ground arith, ground arith)
    | inr e' ↦ inv.bound k x e'
  ]

  insert-orphans :
      (k : String)
      → get (insert_record q (new_record q input) s).deliveries k ≡ none
      → get s.credits k ≡ none
  unfolding insert_record new_record
  insert-orphans k e = ground (
    arith,
    inv.orphans k,
    get-put s.deliveries input.command.payload.delivery.id (new_record q input) k,
  )

  insert-records :
      (k : String) (x : DeliveryRecord)
      → get (insert_record q (new_record q input) s).deliveries k ≡ some x
      → IsRecord platform k x (get s.credits k)
  insert-records k x e = elim (insert-at k x e) [
    | inl (p, w) ↦ subst₂ (λ k x. IsRecord platform k x (get s.credits k)) p w insert-IsRecord
    | inr e' ↦ inv.records k x e'
  ]

  pub insert-Inv : Inv platform (insert_record q (new_record q input) s)
  unfolding insert_record
  insert-Inv = record {
    records = insert-records;
    orphans = insert-orphans;
    claims = insert-claims;
    reservations = insert-reservations;
    requests = inv.requests;
    bound = insert-bound;
  }
