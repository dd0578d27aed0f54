-- ===== src/Oracle/Invariants/Agreement.antt =====
-- What the loop of `assertSafety` has noted of the observations behind it.
use mathlib.Core.Path.{subst}
use cashu_fault_lab.Common.{
  ◌+◌, String, Bool, true, false, ◌≡◌, refl, sym, ◌&&◌, some, List, [], ◌∷◌, get, put, str_eq,
  arith, Member, here, there, Result, ok, ensure, bind-eq-ok, ok-injective, is_safe, leb,
}
use cashu_fault_lab.Oracle.Model.{
  OracleCredit, Observation, request_observed, delivery_attempted, mint_proofs_state,
  redemption_started, receiver_settled, merchant_credited, receipt_observed,
}
use cashu_fault_lab.Oracle.Loop.{
  Ledger, check_observation, check_all, agrees, add_to_set_map, same_delivery, same_credit,
  same_receipt, bool_eq, find_version, is_identified, starts,
}
use cashu_fault_lab.Oracle.Invariants.Maps.{
  same_delivery-≡, same_credit-≡, same_key, Keeps, put-get, agrees-Keeps, or_else-agrees, Counted,
  add-Counted, keep-Counted,
}

-- What the loop knows after an observation.
abbrev pub Noted : Observation → Ledger → Type 0
Noted (request_observed r) l = get l.requests r.request_id ≡ some r.single_use
Noted (delivery_attempted id identity transport) l =
    (get l.deliveries id ≡ some identity) × (get l.proof_owners identity.proof_set_hash ≡ some id)
Noted (receiver_settled id plan) l = get l.settlement_plans id ≡ some plan
Noted (merchant_credited c) l =
    (get l.credits c.credit_id ≡ some c)
    × Counted l.credits_by_delivery c.delivery_id c.credit_id
    × Counted l.credits_by_request c.request_id c.credit_id
Noted _ l = Unit

pub record Grows (l m : Ledger) : Type 0 where
  pub requests : Keeps l.requests m.requests
  pub deliveries : Keeps l.deliveries m.deliveries
  pub proof_owners : Keeps l.proof_owners m.proof_owners
  pub settlement_plans : Keeps l.settlement_plans m.settlement_plans
  pub credits : Keeps l.credits m.credits
  pub by_delivery :
      (k c : String) → Counted l.credits_by_delivery k c → Counted m.credits_by_delivery k c
  pub by_request :
      (k c : String) → Counted l.credits_by_request k c → Counted m.credits_by_request k c

Grows-refl : (l : Ledger) → Grows l l
Grows-refl l = record {
  requests = λ k v e. e;
  deliveries = λ k v e. e;
  proof_owners = λ k v e. e;
  settlement_plans = λ k v e. e;
  credits = λ k v e. e;
  by_delivery = λ k c h. h;
  by_request = λ k c h. h;
}

Grows-trans : (l m n : Ledger) → Grows l m → Grows m n → Grows l n
Grows-trans l m n g h = record {
  requests = λ k v e. h.requests k v (g.requests k v e);
  deliveries = λ k v e. h.deliveries k v (g.deliveries k v e);
  proof_owners = λ k v e. h.proof_owners k v (g.proof_owners k v e);
  settlement_plans = λ k v e. h.settlement_plans k v (g.settlement_plans k v e);
  credits = λ k v e. h.credits k v (g.credits k v e);
  by_delivery = λ k c e. h.by_delivery k c (g.by_delivery k c e);
  by_request = λ k c e. h.by_request k c (g.by_request k c e);
}

grown-Noted : (o : Observation) (l m : Ledger) → Grows l m → Noted o l → Noted o m
grown-Noted (request_observed r) l m g h = g.requests _ _ h
grown-Noted (delivery_attempted id identity transport) l m g h =
    (g.deliveries _ _ h.0, g.proof_owners _ _ h.1)
grown-Noted (mint_proofs_state hash state) l m g h = tt
grown-Noted (redemption_started id hash) l m g h = tt
grown-Noted (receiver_settled id plan) l m g h = g.settlement_plans _ _ h
grown-Noted (merchant_credited c) l m g h =
    (g.credits _ _ h.0, g.by_delivery _ _ h.1, g.by_request _ _ h.2)
grown-Noted (receipt_observed r) l m g h = tt

pub ensured :
    (b : Bool) (u : Unit {0}) → Path (Result (Unit {0}) (Unit {0})) (ensure b tt) (ok u) → b ≡ true
ensured true u h = refl
ensured false u h = ground arith

bool_eq-≡ : (a b : Bool) → bool_eq a b ≡ true → b ≡ a
unfolding bool_eq
bool_eq-≡ true b h = h
bool_eq-≡ false b h = ground arith

-- the ledger with the credit
abbrev credited : Ledger → OracleCredit → OracleCredit → Ledger
credited l c kept = record l {
  credits = put l.credits c.credit_id kept;
  credits_by_delivery = add_to_set_map l.credits_by_delivery c.delivery_id c.credit_id;
  credits_by_request = add_to_set_map l.credits_by_request c.request_id c.credit_id;
}

abbrev Turn : Observation → Ledger → Ledger → Type 0
Turn o l m = Grows l m × Noted o m

check_observation-Turn :
    (o : Observation) (l m : Ledger) → check_observation l o ≡ ok m → Turn o l m
unfolding check_observation
check_observation-Turn (request_observed r) l m e0 =
    let (_, a1, e1) =
      bind-eq-ok (ensure (agrees (get l.requests r.request_id) (bool_eq r.single_use)) tt) _ e0 in
    subst (λ z. Turn (request_observed r) l z) (ok-injective _ m e1)
      (
        (record {
          requests =
              agrees-Keeps l.requests r.request_id r.single_use (bool_eq r.single_use)
                (λ w h. bool_eq-≡ r.single_use w h)
                (ensured (agrees (get l.requests r.request_id) (bool_eq r.single_use)) _ a1);
          deliveries = λ k v e. e;
          proof_owners = λ k v e. e;
          settlement_plans = λ k v e. e;
          credits = λ k v e. e;
          by_delivery = λ k c h. h;
          by_request = λ k c h. h;
        }),
        put-get l.requests r.request_id r.single_use,
      )
check_observation-Turn (delivery_attempted id identity transport) l m e0 =
    let (_, a1, e1) =
      bind-eq-ok
        (ensure (agrees (get l.deliveries id) (λ previous. same_delivery previous identity)) tt) _
        e0 in
    let (_, a2, e2) =
      bind-eq-ok
        (ensure (agrees (get l.proof_owners identity.proof_set_hash) (λ owner. str_eq owner id)) tt)
        _ e1 in
    let kept =
      or_else-agrees (get l.deliveries id) identity (λ previous. same_delivery previous identity)
        (λ w h. same_delivery-≡ w identity h)
        (ensured (agrees (get l.deliveries id) (λ previous. same_delivery previous identity)) _
          a1) in
    subst (λ z. Turn (delivery_attempted id identity transport) l z) (ok-injective _ m e2)
      (subst
        (λ z. Turn (delivery_attempted id identity transport) l (record l {
          deliveries = put l.deliveries id z;
          proof_owners = put l.proof_owners identity.proof_set_hash id;
        }))
        (sym kept)
        (
          (record {
            requests = λ k v e. e;
            deliveries =
                agrees-Keeps l.deliveries id identity (λ previous. same_delivery previous identity)
                  (λ w h. same_delivery-≡ w identity h)
                  (ensured
                    (agrees (get l.deliveries id) (λ previous. same_delivery previous identity)) _
                    a1);
            proof_owners =
                agrees-Keeps l.proof_owners identity.proof_set_hash id (λ owner. str_eq owner id)
                  (λ w h. same_key w id h)
                  (ensured
                    (agrees (get l.proof_owners identity.proof_set_hash) (λ owner. str_eq owner id))
                    _ a2);
            settlement_plans = λ k v e. e;
            credits = λ k v e. e;
            by_delivery = λ k c h. h;
            by_request = λ k c h. h;
          }),
          (put-get l.deliveries id identity, put-get l.proof_owners identity.proof_set_hash id),
        ))
check_observation-Turn (mint_proofs_state hash state) l m e0 =
    subst (λ z. Turn (mint_proofs_state hash state) l z) (ok-injective _ m e0)
      (
        (record {
          requests = λ k v e. e;
          deliveries = λ k v e. e;
          proof_owners = λ k v e. e;
          settlement_plans = λ k v e. e;
          credits = λ k v e. e;
          by_delivery = λ k c h. h;
          by_request = λ k c h. h;
        }),
        tt,
      )
check_observation-Turn (redemption_started id hash) l m e0 =
    let (_, _, e1) = bind-eq-ok (ensure (is_identified (get l.deliveries id) hash) tt) _ e0 in
    let (_, _, e2) =
      bind-eq-ok (ensure (leb (starts (get l.redemption_starts id) + 1) 1) tt) _ e1 in
    subst (λ z. Turn (redemption_started id hash) l z) (ok-injective _ m e2)
      (
        (record {
          requests = λ k v e. e;
          deliveries = λ k v e. e;
          proof_owners = λ k v e. e;
          settlement_plans = λ k v e. e;
          credits = λ k v e. e;
          by_delivery = λ k c h. h;
          by_request = λ k c h. h;
        }),
        tt,
      )
check_observation-Turn (receiver_settled id plan) l m e0 =
    let (_, a1, e1) =
      bind-eq-ok (ensure (agrees (get l.settlement_plans id) (str_eq plan)) tt) _ e0 in
    subst (λ z. Turn (receiver_settled id plan) l z) (ok-injective _ m e1)
      (
        (record {
          requests = λ k v e. e;
          deliveries = λ k v e. e;
          proof_owners = λ k v e. e;
          settlement_plans =
              agrees-Keeps l.settlement_plans id plan (str_eq plan) (λ w h. sym (same_key plan w h))
                (ensured (agrees (get l.settlement_plans id) (str_eq plan)) _ a1);
          credits = λ k v e. e;
          by_delivery = λ k c h. h;
          by_request = λ k c h. h;
        }),
        put-get l.settlement_plans id plan,
      )
check_observation-Turn (merchant_credited c) l m e0 =
    let (_, a1, e1) =
      bind-eq-ok
        (ensure (agrees (get l.credits c.credit_id) (λ previous. same_credit previous c)) tt) _
        e0 in
    let kept =
      or_else-agrees (get l.credits c.credit_id) c (λ previous. same_credit previous c)
        (λ w h. same_credit-≡ w c h)
        (ensured (agrees (get l.credits c.credit_id) (λ previous. same_credit previous c)) _ a1) in
    subst (λ z. Turn (merchant_credited c) l z) (ok-injective _ m e1)
      (subst (λ z. Turn (merchant_credited c) l (credited l c z)) (sym kept)
        (
          (record {
            requests = λ k v e. e;
            deliveries = λ k v e. e;
            proof_owners = λ k v e. e;
            settlement_plans = λ k v e. e;
            credits =
                agrees-Keeps l.credits c.credit_id c (λ previous. same_credit previous c)
                  (λ w h. same_credit-≡ w c h)
                  (ensured (agrees (get l.credits c.credit_id) (λ previous. same_credit previous c))
                    _ a1);
            by_delivery = keep-Counted l.credits_by_delivery c.delivery_id c.credit_id;
            by_request = keep-Counted l.credits_by_request c.request_id c.credit_id;
          }),
          (
            put-get l.credits c.credit_id c,
            add-Counted l.credits_by_delivery c.delivery_id c.credit_id,
            add-Counted l.credits_by_request c.request_id c.credit_id,
          ),
        ))
check_observation-Turn (receipt_observed r) l m e0 =
    let (_, _, e1) = bind-eq-ok (ensure (is_safe r.version && leb 1 r.version) tt) _ e0 in
    let (_, _, e2) =
      bind-eq-ok
        (ensure (agrees (find_version l.receipt_versions r) (λ previous. same_receipt previous r))
          tt)
        _ e1 in
    subst (λ z. Turn (receipt_observed r) l z) (ok-injective _ m e2)
      (
        (record {
          requests = λ k v e. e;
          deliveries = λ k v e. e;
          proof_owners = λ k v e. e;
          settlement_plans = λ k v e. e;
          credits = λ k v e. e;
          by_delivery = λ k c h. h;
          by_request = λ k c h. h;
        }),
        tt,
      )

-- The loop keeps what it has noted.
check_all-Grows : (os : List Observation) (l m : Ledger) → check_all l os ≡ ok m → Grows l m
unfolding check_all
check_all-Grows [] l m e = subst (λ z. Grows l z) (ok-injective l m e) (Grows-refl l)
check_all-Grows (o ∷ os) l m e =
    let (n, f, g) = bind-eq-ok (check_observation l o) _ e in
    Grows-trans l n m (check_observation-Turn o l n f).0 (check_all-Grows os n m g)

-- Every observation that the loop passed is noted at its end.
pub check_all-Noted :
    {o : Observation} (os : List Observation) (l m : Ledger)
    → Member o os
    → check_all l os ≡ ok m
    → Noted o m
unfolding check_all
check_all-Noted [] l m i e = elim i [ ]
check_all-Noted (o ∷ os) l m here e =
    let (n, f, g) = bind-eq-ok (check_observation l o) _ e in
    grown-Noted o n m (check_all-Grows os n m g) (check_observation-Turn o l n f).1
check_all-Noted (o ∷ os) l m (there i) e =
    let (n, f, g) = bind-eq-ok (check_observation l o) _ e in check_all-Noted os n m i g
