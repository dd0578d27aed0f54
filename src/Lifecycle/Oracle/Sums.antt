-- ===== src/Lifecycle/Oracle/Sums.antt =====
-- packages/wallet-lifecycle-oracle/src/invariants.ts: what the movements of an evaluation add up to.
use cashu_fault_lab.Common.{
  ℕ, ◌+◌, ◌≤◌, String, true, ◌≡◌, inl, inr, none, Bool-cases, [], ◌∷◌, Map, get, put, get-put,
  str_eq, if◌then◌else◌, max_safe, ℤ, sub_ℕ, arith,
}
use mathlib.Core.Path.{subst}
use cashu_fault_lab.Delivery.Platform.{Platform}
use cashu_fault_lab.Lifecycle.Oracle.Model.{ValueMovement}
use cashu_fault_lab.Lifecycle.Oracle.Balances.{natural, balance_at, balance_key, tracked_account}

-- the amount of a movement on the side of a key
abbrev pub amount_at : String → String → ValueMovement → ℕ
amount_at side key v = if str_eq side key then natural v.amount else 0

-- what the movements paid into an account, and from it
unfoldable pub paid_into : Map ValueMovement → String → ℕ
paid_into [] key = 0
paid_into ((k, v) ∷ m) key = amount_at (balance_key v.unit v.to) key v + paid_into m key

unfoldable pub paid_from : Map ValueMovement → String → ℕ
paid_from [] key = 0
paid_from ((k, v) ∷ m) key = amount_at (balance_key v.unit v.from) key v + paid_from m key

-- the sum of all movements
unfoldable pub total_moved : Map ValueMovement → ℕ
total_moved [] = 0
total_moved ((k, v) ∷ m) = natural v.amount + total_moved m

-- every movement from this account is one of a tracked account
unfoldable pub FromTracked : Map ValueMovement → String → Type 0
FromTracked [] key = Unit {0}
FromTracked ((k, v) ∷ m) key =
    (balance_key v.unit v.from ≡ key → tracked_account v.from ≡ true) × FromTracked m key

module _ (k : String) (v : ValueMovement) where
  pub paid_into-put :
      (m : Map ValueMovement) (key : String)
      → get m k ≡ none
      → paid_into (put m k v) key ≡ paid_into m key + amount_at (balance_key v.unit v.to) key v
  unfolding paid_into put get
  paid_into-put [] key h = omega arith
  paid_into-put ((j, c) ∷ m) key h = ground (arith, paid_into-put m key)

  pub paid_from-put :
      (m : Map ValueMovement) (key : String)
      → get m k ≡ none
      → paid_from (put m k v) key ≡ paid_from m key + amount_at (balance_key v.unit v.from) key v
  unfolding paid_from put get
  paid_from-put [] key h = omega arith
  paid_from-put ((j, c) ∷ m) key h = ground (arith, paid_from-put m key)

  pub total_moved-put :
      (m : Map ValueMovement)
      → get m k ≡ none
      → total_moved (put m k v) ≡ total_moved m + natural v.amount
  unfolding total_moved put get
  total_moved-put [] h = omega arith
  total_moved-put ((j, c) ∷ m) h = ground (arith, total_moved-put m)

  pub FromTracked-put :
      (m : Map ValueMovement) (key : String)
      → get m k ≡ none
      → FromTracked (put m k v) key
      → (balance_key v.unit v.from ≡ key → tracked_account v.from ≡ true) × FromTracked m key
  unfolding FromTracked put get
  FromTracked-put [] key h t = t
  FromTracked-put ((j, c) ∷ m) key h t = elim (Bool-cases (str_eq j k)) [
    | inl hit ↦ absurd (ground arith)
    | inr miss ↦
        let u =
          subst (λ b. FromTracked (if b then (j, v) ∷ m else (j, c) ∷ put m k v) key) miss t in
        let (first, rest) = FromTracked-put m key (ground arith) u.1 in (first, (u.0, rest))
  ]

pub paid_into-le : (m : Map ValueMovement) (key : String) → paid_into m key ≤ total_moved m
unfolding paid_into total_moved
paid_into-le [] key = omega arith
paid_into-le ((j, c) ∷ m) key = ground (arith, paid_into-le m key)

pub paid_from-le : (m : Map ValueMovement) (key : String) → paid_from m key ≤ total_moved m
unfolding paid_from total_moved
paid_from-le [] key = omega arith
paid_from-le ((j, c) ∷ m) key = ground (arith, paid_from-le m key)

pub balance_at-put :
    (m : Map ℤ) (k j : String) (b : ℤ)
    → balance_at (put m k b) j ≡ (if str_eq k j then b else balance_at m j)
unfolding balance_at
balance_at-put m k j b = ground (arith, get-put m k b j)

-- numbers up to 2^53 - 1 on either side of 0 are exact
abbrev pub IsExact : Platform → Type 0
IsExact platform = (a b : ℕ) → a ≤ max_safe → b ≤ max_safe → platform.round (sub_ℕ a b) ≡ sub_ℕ a b
