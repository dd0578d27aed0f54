-- ===== src/Common/Search.antt =====
-- What is found in a list: the laws of `any`, `includes`, `filter` and `flat_map`.
use mathlib.Core.Path.{◌≡◌, refl, subst, sym}
use mathlib.Core.Logic.{◌⊎◌, inl, inr}
use mathlib.Core.Bool.{Bool, true, false, ◌||◌}
use mathlib.Core.List.{List, [], ◌∷◌, ◌++◌, map}
use native.Mathlib.Omega.{arith}
use text.Mathlib.TextEquality.{eq_iff}
use Prim.Native.String.{String}
use cashu_fault_lab.Common.Tests.{Bool-cases}
use cashu_fault_lab.Common.Text.{
  str_eq, str_eq_refl, includes, codes, codes_le, insert_sorted, sort, without, unique,
}
use cashu_fault_lab.Common.Lists.{any, filter, flat_map, Member, here, there}

module _ {ℓ} {A : Type ℓ} where
  pub append-eq-nil : (xs ys : List A) → xs ++ ys ≡ [] → (xs ≡ []) × (ys ≡ [])
  append-eq-nil [] ys e = (refl, e)
  append-eq-nil (x ∷ xs) ys e = absurd (cc)

  Member-cons : {x y : A} {xs : List A} → Member x (y ∷ xs) → (x ≡ y) ⊎ Member x xs
  Member-cons here = inl refl
  Member-cons (there m) = inr m

  Member-pick :
      {x y : A} {xs : List A} (keep : Bool)
      → Member x (elim keep [ true ↦ y ∷ xs | false ↦ xs ])
      → (keep ≡ true) × (x ≡ y) ⊎ Member x xs
  Member-pick true m = elim (Member-cons m) [ inl same ↦ inl (refl, same) | inr n ↦ inr n ]
  Member-pick false m = inr m

  module _ (p : A → Bool) where
    pub any-append : (xs ys : List A) → any p (xs ++ ys) ≡ (any p xs || any p ys)
    any-append [] ys = refl
    any-append (x ∷ xs) ys = ground (arith, any-append xs ys)

    -- an element that passes the test
    pub any-Member : (xs : List A) → any p xs ≡ true → (x : A) × Member x xs × (p x ≡ true)
    any-Member [] e = absurd (cc)
    any-Member (x ∷ xs) e = elim (Bool-cases (p x)) [
      | inl hit ↦ (x, here, hit)
      | inr miss ↦ later (any-Member xs (ground arith))
    ]
      where
        later : ((y : A) × Member y xs × (p y ≡ true)) → (y : A) × Member y (x ∷ xs) × (p y ≡ true)
        later (y, m, h) = (y, there m, h)

    pub Member-any : {x : A} (xs : List A) → Member x xs → p x ≡ true → any p xs ≡ true
    Member-any [] m e = elim m [ ]
    Member-any (x ∷ xs) here e = rw e refl
    Member-any (x ∷ xs) (there m) e = ground (arith, Member-any xs m e)

    pub Member-filter : {x : A} (xs : List A) → Member x (filter p xs) → Member x xs × (p x ≡ true)
    Member-filter [] m = elim m [ ]
    Member-filter {x} (y ∷ xs) m = elim (Member-pick (p y) m) [
      | inl (keep, same) ↦ (subst (λ z. Member z (y ∷ xs)) (sym same) here, rw same keep)
      | inr n ↦ let (o, e) = Member-filter xs n in (there o, e)
    ]

    pub filter-eq-nil : {x : A} (xs : List A) → filter p xs ≡ [] → Member x xs → p x ≡ false
    filter-eq-nil [] e m = elim m [ ]
    filter-eq-nil (x ∷ xs) e here = ground arith
    filter-eq-nil (x ∷ xs) e (there m) = filter-eq-nil xs (ground arith) m

module _ {ℓ κ} {A : Type ℓ} {B : Type κ} (f : A → List B) where
  pub flat_map-eq-nil : {x : A} (xs : List A) → flat_map f xs ≡ [] → Member x xs → f x ≡ []
  flat_map-eq-nil [] e m = elim m [ ]
  flat_map-eq-nil (x ∷ xs) e here = (append-eq-nil (f x) (flat_map f xs) e).0
  flat_map-eq-nil (x ∷ xs) e (there m) =
      flat_map-eq-nil xs (append-eq-nil (f x) (flat_map f xs) e).1 m

  module _ (p : B → Bool) where
    pub any-flat_map :
        (xs : List A) → any p (flat_map f xs) ≡ true → (x : A) × Member x xs × (any p (f x) ≡ true)
    any-flat_map [] e = absurd (cc)
    any-flat_map (x ∷ xs) e = elim (Bool-cases (any p (f x))) [
      | inl hit ↦ (x, here, hit)
      | inr miss ↦
          let (y, m, h) = any-flat_map xs (ground (arith, any-append p (f x) (flat_map f xs))) in
          (y, there m, h)
    ]

    pub Member-any-flat_map :
        {x : A} (xs : List A) → Member x xs → any p (f x) ≡ true → any p (flat_map f xs) ≡ true
    Member-any-flat_map [] m e = elim m [ ]
    Member-any-flat_map (x ∷ xs) here e = ground (arith, any-append p (f x) (flat_map f xs))
    Member-any-flat_map (x ∷ xs) (there m) e =
        ground (arith, any-append p (f x) (flat_map f xs), Member-any-flat_map xs m e)

pub includes-Member : (xs : List String) (s : String) → includes xs s ≡ true → Member s xs
includes-Member [] s e = absurd (cc)
includes-Member (x ∷ xs) s e = elim (Bool-cases (str_eq x s)) [
  | inl hit ↦ subst (λ z. Member z (x ∷ xs)) ((eq_iff x s).0 hit) here
  | inr miss ↦ there (includes-Member xs s (ground arith))
]

pub includes-append :
    (xs ys : List String) (s : String) → includes (xs ++ ys) s ≡ (includes xs s || includes ys s)
includes-append [] ys s = refl
includes-append (x ∷ xs) ys s = ground (arith, includes-append xs ys s)

includes-insert_sorted :
    (s : String) (ts : List String) (x : String)
    → includes (insert_sorted s ts) x ≡ (str_eq s x || includes ts x)
unfolding insert_sorted
includes-insert_sorted s [] x = refl
includes-insert_sorted s (t ∷ ts) x = elim (Bool-cases (codes_le (codes s) (codes t))) [
  | inl before ↦ rw (before, insert_sorted) refl
  | inr after ↦ rw (after, insert_sorted) (ground (arith, includes-insert_sorted s ts x))
]

pub includes-sort : (ss : List String) (x : String) → includes (sort ss) x ≡ includes ss x
unfolding sort
includes-sort [] x = refl
includes-sort (s ∷ ss) x = rw (includes-insert_sorted s (sort ss) x, includes-sort ss x) refl

includes-without :
    (s : String) (ts : List String) (x : String)
    → str_eq s x ≡ false
    → includes (without s ts) x ≡ includes ts x
includes-without s [] x e = refl
includes-without s (t ∷ ts) x e = elim (Bool-cases (str_eq t s)) [
  | inl same ↦
      rw (same, without)
        (ground (arith, eq_iff t s, eq_iff s x, eq_iff t x, includes-without s ts x e))
  | inr other ↦ rw (other, without) (ground (arith, includes-without s ts x e))
]

pub includes-unique : (ss : List String) (x : String) → includes (unique ss) x ≡ includes ss x
unfolding unique
includes-unique [] x = refl
includes-unique (s ∷ ss) x = elim (Bool-cases (str_eq s x)) [
  | inl same ↦ rw same refl
  | inr other ↦ rw (other, includes-without s (unique ss) x other, includes-unique ss x) refl
]

pub Member-includes : {s : String} (xs : List String) → Member s xs → includes xs s ≡ true
Member-includes [] m = elim m [ ]
Member-includes (x ∷ xs) here = rw (str_eq_refl x) refl
Member-includes (x ∷ xs) (there m) = ground (arith, Member-includes xs m)

module _ {ℓ} {A : Type ℓ} (name : A → String) where
  -- an element with the name
  pub includes-map :
      (xs : List A) (s : String)
      → includes (map name xs) s ≡ true
      → (x : A) × Member x xs × (name x ≡ s)
  includes-map [] s e = absurd (cc)
  includes-map (x ∷ xs) s e = elim (Bool-cases (str_eq (name x) s)) [
    | inl hit ↦ (x, here, (eq_iff (name x) s).0 hit)
    | inr miss ↦ let (y, m, n) = includes-map xs s (ground arith) in (y, there m, n)
  ]

  pub Member-map : {x : A} (xs : List A) → Member x xs → includes (map name xs) (name x) ≡ true
  Member-map [] m = elim m [ ]
  Member-map (x ∷ xs) here = rw (str_eq_refl (name x)) refl
  Member-map (x ∷ xs) (there m) = ground (arith, Member-map xs m)

module _ {ℓ} {A : Type ℓ} where
  pub Member-append_left : {x : A} {xs : List A} (ys : List A) → Member x xs → Member x (xs ++ ys)
  Member-append_left ys here = here
  Member-append_left ys (there m) = there (Member-append_left ys m)

  pub Member-append_right : {y : A} (xs : List A) {ys : List A} → Member y ys → Member y (xs ++ ys)
  Member-append_right [] m = m
  Member-append_right (x ∷ xs) m = there (Member-append_right xs m)

  pub Member-append :
      {x : A} (xs : List A) {ys : List A} → Member x (xs ++ ys) → Member x xs ⊎ Member x ys
  Member-append [] m = inr m
  Member-append (x ∷ xs) here = inl here
  Member-append (x ∷ xs) (there m) = elim (Member-append xs m) [
    | inl n ↦ inl (there n)
    | inr n ↦ inr n
  ]

  pub Member-kept :
      (p : A → Bool) {x : A} (xs : List A) → Member x xs → p x ≡ true → Member x (filter p xs)
  Member-kept p [] m e = elim m [ ]
  Member-kept p (x ∷ xs) here e = rw (e, filter) here
  Member-kept p (x ∷ xs) (there m) e = elim (Bool-cases (p x)) [
    | inl keep ↦ rw (keep, filter) (there (Member-kept p xs m e))
    | inr drop ↦ rw (drop, filter) (Member-kept p xs m e)
  ]

module _ {ℓ κ} {A : Type ℓ} {B : Type κ} (f : A → List B) where
  pub Member-flat_map :
      {b : B} (xs : List A) → Member b (flat_map f xs) → (x : A) × Member x xs × Member b (f x)
  Member-flat_map [] m = elim m [ ]
  Member-flat_map (x ∷ xs) m = elim (Member-append (f x) m) [
    | inl now ↦ (x, here, now)
    | inr later ↦ let (y, n, o) = Member-flat_map xs later in (y, there n, o)
  ]

  pub flat_map-Member :
      {x : A} {b : B} (xs : List A) → Member x xs → Member b (f x) → Member b (flat_map f xs)
  flat_map-Member [] m n = elim m [ ]
  flat_map-Member (x ∷ xs) here n = Member-append_left (flat_map f xs) n
  flat_map-Member (x ∷ xs) (there m) n = Member-append_right (f x) (flat_map-Member xs m n)
