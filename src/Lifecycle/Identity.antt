-- ===== src/Lifecycle/Identity.antt =====
-- packages/wallet-lifecycle-core/src/operation.ts: the form of an operation's identity, described
-- apart from the parser.
use cashu_fault_lab.Common.{
  ◌≡◌, ◌≤◌, ◌↔◌, inl, inr, refl, ℕ, zero, suc, String, Bool, true, ◌==◌, some, List, [], ◌∷◌, ◌++◌,
  All, Member, codes, length, all, is_base64url, is_hash, includes-Member, Member-includes, ok,
  Option-cases, Bool-cases, ap, sym, arith, ==_iff, ◌||◌,
}
use mathlib.Core.Path.{subst}
use cashu_fault_lab.Delivery.Platform.{Platform, Url}
use cashu_fault_lab.Lifecycle.Operation.{
  LifecycleOperationIdentity, lifecycle_operation_kinds, ends_id, parse_operation_id, parse_kind,
  is_word, matches_up_to, parse_unit, parse_intent_hash, is_canonical, parse_mint_url,
  parse_identity,
}

pub all-All {ℓ} :
    {A : Type ℓ} (p : A → Bool) (xs : List A) → (all p xs ≡ true) ↔ All (λ x. p x ≡ true) xs
all-All p [] = ((λ _. tt), (λ _. refl))
all-All p (x ∷ xs) = ground (arith, all-All p xs)

-- the last character of 16 bytes in base64url
pub data IsLast : ℕ → Type 0 where
  last_a : IsLast b'A'
  last_q : IsLast b'Q'
  last_g : IsLast b'g'
  last_w : IsLast b'w'

-- `n` base64url characters, and one that may come last
pub record IsId (n : ℕ) (s : List ℕ) : Type 0 where
  pub front : List ℕ
  pub last : ℕ
  pub split : s ≡ front ++ (last ∷ [])
  pub long : length front ≡ n
  pub class : All (λ c. is_base64url c ≡ true) front
  pub ending : IsLast last

-- An identity with all members of their form.
pub record IsIdentity (platform : Platform) (i : LifecycleOperationIdentity) : Type 0 where
  pub operation_id : IsId 21 (codes i.operation_id)
  pub kind : Member i.kind lifecycle_operation_kinds
  pub mint :
      (url : Url) × (platform.parse_url i.mint ≡ some url)
      × (is_canonical platform i.mint url ≡ true)
  pub unit :
      All (λ c. (is_word c || c == b'-') ≡ true) (codes i.unit)
      × (1 ≤ length (codes i.unit))
      × (length (codes i.unit) ≤ 16)
  pub intent_hash : is_hash i.intent_hash ≡ true

last_lem : (c : ℕ) → (c == b'A' || c == b'Q' || c == b'g' || c == b'w') ≡ true → IsLast c
last_lem c h = elim (Bool-cases (c == b'A')) [
  | inl e ↦ subst IsLast (sym ((==_iff c b'A').0 e)) last_a
  | inr a ↦ elim (Bool-cases (c == b'Q')) [
    | inl e ↦ subst IsLast (sym ((==_iff c b'Q').0 e)) last_q
    | inr q ↦ elim (Bool-cases (c == b'g')) [
      | inl e ↦ subst IsLast (sym ((==_iff c b'g').0 e)) last_g
      | inr g ↦ subst IsLast (sym ((==_iff c b'w').0 (ground arith))) last_w
    ]
  ]
]

last_test : (c : ℕ) → IsLast c → (c == b'A' || c == b'Q' || c == b'g' || c == b'w') ≡ true
last_test _ last_a = refl
last_test _ last_q = refl
last_test _ last_g = refl
last_test _ last_w = refl

ends_id-IsId : (n : ℕ) (s : List ℕ) → ends_id n s ≡ true → IsId n s
unfolding ends_id
ends_id-IsId n [] h = cc
ends_id-IsId zero (c ∷ []) h = record {
  front = [];
  last = c;
  split = refl;
  long = refl;
  class = tt;
  ending = last_lem c (ground arith);
}
ends_id-IsId zero (c ∷ d ∷ s) h = absurd (ground arith)
ends_id-IsId (suc n) (c ∷ s) h =
    let r = ends_id-IsId n s (ground arith) in
    record {
      front = c ∷ r.front;
      last = r.last;
      split = ap (λ z. c ∷ z) r.split;
      long = ap suc r.long;
      class = (ground arith, r.class);
      ending = r.ending;
    }

ends_id-append :
    (front : List ℕ) (last : ℕ)
    → All (λ c. is_base64url c ≡ true) front
    → IsLast last
    → ends_id (length front) (front ++ (last ∷ [])) ≡ true
unfolding ends_id
ends_id-append [] last h e = rw (last_test last e) refl
ends_id-append (c ∷ front) last h e = rw (h.0, ends_id-append front last h.1 e) refl

IsId-ends_id : (n : ℕ) (s : List ℕ) → IsId n s → ends_id n s ≡ true
IsId-ends_id n s r = rw (r.split, ← r.long) (ends_id-append r.front r.last r.class r.ending)

matches_up_to_iff :
    (p : ℕ → Bool) (n : ℕ) (s : String)
    → (matches_up_to p n s ≡ true)
      ↔ (All (λ c. p c ≡ true) (codes s) × (1 ≤ length (codes s)) × (length (codes s) ≤ n))
matches_up_to_iff p n s = ground (arith, all-All p (codes s))

parse_mint_url_iff :
    (platform : Platform) (value : String)
    → (parse_mint_url platform value ≡ ok tt) ↔ (
        (url : Url) × (platform.parse_url value ≡ some url)
        × (is_canonical platform value url ≡ true))
unfolding parse_mint_url
parse_mint_url_iff platform value = (
  λ h. elim (Option-cases (platform.parse_url value)) [
    | inl e ↦ absurd (ground arith)
    | inr (url, e) ↦ (url, e, ground arith)
  ],
  λ (url, e, good). ground arith,
)

-- The five parsers accept exactly the identities of this form.
pub parse_identity_iff :
    (platform : Platform) (i : LifecycleOperationIdentity)
    → (parse_identity platform i ≡ ok tt) ↔ IsIdentity platform i
unfolding parse_identity parse_operation_id parse_kind parse_unit parse_intent_hash
parse_identity_iff platform i = (
  λ h. record {
    operation_id = ends_id-IsId 21 _ (ground arith);
    kind = includes-Member _ _ (ground arith);
    mint = (parse_mint_url_iff platform i.mint).0 (ground arith);
    unit = (matches_up_to_iff _ 16 i.unit).0 (ground arith);
    intent_hash = ground arith;
  },
  λ r. ground (
    arith,
    IsId-ends_id 21 (codes i.operation_id) r.operation_id,
    Member-includes lifecycle_operation_kinds r.kind,
    (parse_mint_url_iff platform i.mint).1 r.mint,
    (matches_up_to_iff (λ c. is_word c || c == b'-') 16 i.unit).1 r.unit,
    r.intent_hash,
  ),
)
