-- ===== src/Oracle/Invariants/Maps.antt =====
-- Maps and sets of `assertSafety` that only grow.
use mathlib.Core.Path.{subst}
use cashu_fault_lab.Common.{
  includes-append, String, Bool, true, ◌≡◌, refl, sym, ap, ◌||◌, Option, none, some, List, [], ◌∷◌,
  Map, get, put, get-put, str_eq, eq_iff, ==_iff, arith, includes, inl, inr, Bool-cases,
  if◌then◌else◌,
}
use cashu_fault_lab.Oracle.Model.{OracleCredit, DeliveryIdentity}
use cashu_fault_lab.Oracle.Loop.{
  agrees, or_else, or_empty, add_to_set, add_to_set_map, same_delivery, same_credit,
}

pub same_delivery-≡ : (a b : DeliveryIdentity) → same_delivery a b ≡ true → a ≡ b
unfolding same_delivery
same_delivery-≡ a b h = ground (
  arith,
  eq_iff a.request_id b.request_id,
  eq_iff a.payload_hash b.payload_hash,
  eq_iff a.proof_set_hash b.proof_set_hash,
)

pub same_credit-≡ : (a b : OracleCredit) → same_credit a b ≡ true → a ≡ b
unfolding same_credit
same_credit-≡ a b h = ground (
  arith,
  eq_iff a.credit_id b.credit_id,
  eq_iff a.request_id b.request_id,
  eq_iff a.delivery_id b.delivery_id,
  ==_iff a.amount b.amount,
  eq_iff a.unit b.unit,
)

pub same_key : (k j : String) → str_eq k j ≡ true → k ≡ j
same_key k j h = ground (arith, eq_iff k j)

-- A map keeps the values that it has.
abbrev pub Keeps : {V : Type 0} → Map V → Map V → Type 0
Keeps {V} m n = (k : String) (v : V) → get m k ≡ some v → get n k ≡ some v

-- the values of a new entry agree with the old one
put-Keeps :
    {V : Type 0} (m : Map V) (k : String) (v : V)
    → ((w : V) → get m k ≡ some w → w ≡ v)
    → Keeps m (put m k v)
put-Keeps m k v h j w e = elim (Bool-cases (str_eq k j)) [
  | inl same ↦
      rw (get-put m k v j, same)
        (ap (λ z. some z) (sym (h w (subst (λ z. get m z ≡ some w) (sym (same_key k j same)) e))))
  | inr other ↦ rw (get-put m k v j, other) e
]

pub put-get : {V : Type 0} (m : Map V) (k : String) (v : V) → get (put m k v) k ≡ some v
put-get m k v = ground (arith, get-put m k v k, eq_iff k k)

-- an agreeing old value is the one that is put
pub agrees-Keeps :
    {V : Type 0} (m : Map V) (k : String) (v : V) (test : V → Bool)
    → ((w : V) → test w ≡ true → w ≡ v)
    → agrees (get m k) test ≡ true
    → Keeps m (put m k v)
unfolding agrees
agrees-Keeps m k v test h a = put-Keeps m k v (λ w e. h w (subst (λ o. agrees o test ≡ true) e a))

pub or_else-agrees :
    {V : Type 0} (o : Option V) (v : V) (test : V → Bool)
    → ((w : V) → test w ≡ true → w ≡ v)
    → agrees o test ≡ true
    → or_else o v ≡ v
unfolding agrees or_else
or_else-agrees none v test h a = refl
or_else-agrees (some w) v test h a = h w a

-- the credit is in the set of the key
abbrev pub Counted : Map (List String) → String → String → Type 0
Counted m k c = includes (or_empty (get m k)) c ≡ true

includes-add_to_set :
    (y c : String) (xs : List String) → includes (add_to_set y xs) c ≡ (includes xs c || str_eq y c)
unfolding add_to_set
includes-add_to_set y c xs = ground (arith, eq_iff y c, includes-append xs (y ∷ []) c)

get-add_to_set_map :
    (m : Map (List String)) (k v j : String)
    → or_empty (get (add_to_set_map m k v) j)
      ≡ (if str_eq k j then add_to_set v (or_empty (get m k)) else or_empty (get m j))
unfolding add_to_set_map or_empty
get-add_to_set_map m k v j = ground (arith, get-put m k (add_to_set v (or_empty (get m k))) j)

pub add-Counted : (m : Map (List String)) (k v : String) → Counted (add_to_set_map m k v) k v
add-Counted m k v = ground (
  arith,
  get-add_to_set_map m k v k,
  eq_iff k k,
  eq_iff v v,
  includes-add_to_set v v (or_empty (get m k)),
)

pub keep-Counted :
    (m : Map (List String)) (k v j c : String) → Counted m j c → Counted (add_to_set_map m k v) j c
keep-Counted m k v j c h =
    ground
      (arith, get-add_to_set_map m k v j, eq_iff k j, includes-add_to_set v c (or_empty (get m k)))
