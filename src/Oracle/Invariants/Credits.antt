-- ===== src/Oracle/Invariants/Credits.antt =====
-- What `assertSafety` promises of the observations that it accepts.
use mathlib.Core.Path.{subst}
use mathlib.Core.Option.{some-injective}
use cashu_fault_lab.Common.{
  String, Bool, true, false, ◌≡◌, refl, sym, ◌∙◌, some, List, [], ◌∷◌, Map, get, str_eq, eq_iff,
  arith, includes, all, length, leb, Member, inl, inr, Option-cases, &&_iff, if◌then◌else◌, ok,
  ensure, bind-eq-ok,
}
use cashu_fault_lab.Oracle.Model.{
  OracleTransport, OracleRequest, OracleCredit, request_observed, DeliveryIdentity, Observation,
  delivery_attempted, merchant_credited, OracleModel,
}
use cashu_fault_lab.Oracle.Loop.{Ledger, empty_ledger, check_all, or_empty}
use cashu_fault_lab.Oracle.Invariants.{
  assert_safety, check_ledger, check_delivery_credits, check_request_credits, is_single_use,
}
use cashu_fault_lab.Oracle.Invariants.Maps.{Counted, same_key}
use cashu_fault_lab.Oracle.Invariants.Agreement.{Noted, check_all-Noted, ensured}

abbrev Accepts : OracleModel → Type 0
Accepts m = assert_safety m ≡ ok tt

-- the ledger of an accepted model
record Settled (m : OracleModel) : Type 0 where
  ledger : Ledger
  walked : check_all empty_ledger m.observations ≡ ok ledger
  deliveries_ok : all (check_delivery_credits ledger) ledger.credits_by_delivery ≡ true
  requests_ok : all (check_request_credits ledger) ledger.credits_by_request ≡ true

assert_safety-Settled : (m : OracleModel) → Accepts m → Settled m
unfolding assert_safety check_ledger
assert_safety-Settled m e =
    let (l, w, f) = bind-eq-ok (check_all empty_ledger m.observations) _ e in
    let (_, a, g) =
      bind-eq-ok (ensure (all (check_delivery_credits l) l.credits_by_delivery) tt) _ f in
    let (_, b, h) =
      bind-eq-ok (ensure (all (check_request_credits l) l.credits_by_request) tt) _ g in
    record { ledger = l; walked = w; deliveries_ok = ensured _ _ a; requests_ok = ensured _ _ b }

entry :
    {V : Type 0} (test : String × V → Bool) (m : Map V) (j : String) (w : V) (k : String) (v : V)
    (same : Bool)
    → str_eq j k ≡ same
    → test (j, w) ≡ true
    → (get m k ≡ some v → test (k, v) ≡ true)
    → (if same then some w else get m k) ≡ some v
    → test (k, v) ≡ true
entry test m j w k v true t h ih e =
    subst (λ z. test (k, z) ≡ true) (some-injective w v e)
      (subst (λ z. test (z, w) ≡ true) (same_key j k t) h)
entry test m j w k v false t h ih e = ih e

-- an entry of a map passes what all entries pass
all-get :
    {V : Type 0} (test : String × V → Bool) (m : Map V) (k : String) (v : V)
    → all test m ≡ true
    → get m k ≡ some v
    → test (k, v) ≡ true
unfolding get
all-get test [] k v h e = ground arith
all-get test ((j, w) ∷ m) k v h e =
    let (first, others) = (&&_iff (test (j, w)) (all test m)).0 h in
    entry test m j w k v (str_eq j k) refl first (all-get test m k v others) e

-- two members of a list of one are the same
few-includes :
    (cs : List String) (c d : String)
    → leb (length cs) 1 ≡ true
    → includes cs c ≡ true
    → includes cs d ≡ true
    → c ≡ d
few-includes [] c d h i j = ground arith
few-includes (x ∷ []) c d h i j = ground (arith, eq_iff x c, eq_iff x d)
few-includes (x ∷ y ∷ cs) c d h i j = ground arith

-- two keys that are counted under a set of at most one
unique-Counted :
    (sets : Map (List String)) (k c d : String)
    → ((cs : List String) → get sets k ≡ some cs → leb (length cs) 1 ≡ true)
    → Counted sets k c
    → Counted sets k d
    → c ≡ d
unfolding or_empty
unique-Counted sets k c d few h i = elim (Option-cases (get sets k)) [
  | inl missing ↦ ground arith
  | inr found ↦
      few-includes found.0 c d (few found.0 found.1)
        (subst (λ z. includes (or_empty z) c ≡ true) found.1 h)
        (subst (λ z. includes (or_empty z) d ≡ true) found.1 i)
]

few_by_delivery :
    (l : Ledger) (k : String) (cs : List String)
    → all (check_delivery_credits l) l.credits_by_delivery ≡ true
    → get l.credits_by_delivery k ≡ some cs
    → leb (length cs) 1 ≡ true
unfolding check_delivery_credits
few_by_delivery l k cs h e =
    let passed = all-get (check_delivery_credits l) l.credits_by_delivery k cs h e in ground arith

few_by_request :
    (l : Ledger) (k : String) (cs : List String)
    → all (check_request_credits l) l.credits_by_request ≡ true
    → get l.requests k ≡ some true
    → get l.credits_by_request k ≡ some cs
    → leb (length cs) 1 ≡ true
unfolding check_request_credits is_single_use
few_by_request l k cs h r e =
    let passed = all-get (check_request_credits l) l.credits_by_request k cs h e in ground arith

-- the loop has noted an observation of an accepted model
learned :
    (m : OracleModel) (h : Settled m) {o : Observation} → Member o m.observations → Noted o h.ledger
learned m h i = check_all-Noted m.observations empty_ledger h.ledger i h.walked

-- Where assertSafety accepts, all attempts of a delivery are for one request, with one payload and one
-- proof set.
pub assert_safety-identity :
    (m : OracleModel) (id : String) (a b : DeliveryIdentity) (s t : OracleTransport)
    → assert_safety m ≡ ok tt
    → Member (delivery_attempted id a s) m.observations
    → Member (delivery_attempted id b t) m.observations
    → a ≡ b
assert_safety-identity m id a b s t e i j =
    let h = assert_safety-Settled m e in
    some-injective a b (sym (learned m h i).0 ∙ (learned m h j).0)

-- Where assertSafety accepts, deliveries that were attempted with one proof set are one delivery.
pub assert_safety-owner :
    (m : OracleModel) (id id' : String) (a b : DeliveryIdentity) (s t : OracleTransport)
    → assert_safety m ≡ ok tt
    → Member (delivery_attempted id a s) m.observations
    → Member (delivery_attempted id' b t) m.observations
    → a.proof_set_hash ≡ b.proof_set_hash
    → id ≡ id'
assert_safety-owner m id id' a b s t e i j same =
    let h = assert_safety-Settled m e in
    let p = (learned m h i).1 in
    let q = (learned m h j).1 in
    some-injective id id' (sym (subst (λ z. get h.ledger.proof_owners z ≡ some id) same p) ∙ q)

same-credit :
    (l : Ledger) (c d : OracleCredit)
    → get l.credits c.credit_id ≡ some c
    → get l.credits d.credit_id ≡ some d
    → c.credit_id ≡ d.credit_id
    → c ≡ d
same-credit l c d p q same =
    some-injective c d (sym (subst (λ z. get l.credits z ≡ some c) same p) ∙ q)

-- Where assertSafety accepts, the merchant is credited once for a delivery: all its credits are equal.
pub assert_safety-credit :
    (m : OracleModel) (c d : OracleCredit)
    → assert_safety m ≡ ok tt
    → Member (merchant_credited c) m.observations
    → Member (merchant_credited d) m.observations
    → c.delivery_id ≡ d.delivery_id
    → c ≡ d
assert_safety-credit m c d e i j same =
    let h = assert_safety-Settled m e in
    let p = learned m h i in
    let q = learned m h j in
    same-credit h.ledger c d p.0 q.0 (
      unique-Counted h.ledger.credits_by_delivery d.delivery_id c.credit_id d.credit_id
        (λ cs f. few_by_delivery h.ledger d.delivery_id cs h.deliveries_ok f)
        (subst (λ z. Counted h.ledger.credits_by_delivery z c.credit_id) same p.1) q.1)

-- Where assertSafety accepts, the merchant is credited once for a request that was observed to be
-- single-use, whichever deliveries paid it.
pub assert_safety-single_use :
    (m : OracleModel) (r : OracleRequest) (c d : OracleCredit)
    → assert_safety m ≡ ok tt
    → Member (request_observed r) m.observations
    → r.single_use ≡ true
    → Member (merchant_credited c) m.observations
    → Member (merchant_credited d) m.observations
    → c.request_id ≡ r.request_id
    → d.request_id ≡ r.request_id
    → c ≡ d
assert_safety-single_use m r c d e k u i j cr dr =
    let h = assert_safety-Settled m e in
    let p = learned m h i in
    let q = learned m h j in
    let single = subst (λ z. get h.ledger.requests r.request_id ≡ some z) u (learned m h k) in
    same-credit h.ledger c d p.0 q.0 (
      unique-Counted h.ledger.credits_by_request r.request_id c.credit_id d.credit_id
        (λ cs f. few_by_request h.ledger r.request_id cs h.requests_ok single f)
        (subst (λ z. Counted h.ledger.credits_by_request z c.credit_id) cr p.2)
        (subst (λ z. Counted h.ledger.credits_by_request z d.credit_id) dr q.2))
