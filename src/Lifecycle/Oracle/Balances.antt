-- ===== src/Lifecycle/Oracle/Balances.antt =====
-- packages/wallet-lifecycle-oracle/src/invariants.ts: accounts, balances and the movement of value.
use Prim.Native.Char.{code}
use Prim.Native.String.{◌++◌}
use cashu_fault_lab.Common.{
  ℕ, String, Bool, true, false, not, ◌&&◌, ◌||◌, Option, none, some, List, [], ◌∷◌, ◌==◌, leb,
  codes, length, all, is_lower, is_digit, includes, str_eq, Map, get, put, Number, nat, is_safe, ℤ,
  pos, plus, minus, is_negative, if◌then◌else◌, Result, ok, err, ◌>>◌, ensure, throw_if,
}
use cashu_fault_lab.Delivery.Platform.{Platform}
use cashu_fault_lab.Lifecycle.Operation.{
  LifecycleOperationRecord, LifecycleError, is_word, matches_up_to,
}
use cashu_fault_lab.Lifecycle.Oracle.Model.{ValueMovement}

-- what the oracle may answer: a result, or `fail` with a message
abbrev pub Verdict : Type 0 → Type 0
Verdict A = Result (Unit {0}) A

-- a call in `try` whose error becomes a failure
unfoldable pub or_fail : {A : Type 0} → Result LifecycleError A → Verdict A
or_fail (ok a) = ok a
or_fail (err e) = err tt

-- [a-z0-9], [a-z0-9_-], [a-z0-9_.-]
abbrev is_start : ℕ → Bool
is_start c = is_lower c || is_digit c

abbrev is_name : ℕ → Bool
is_name c = is_word c || c == b'-'

abbrev is_dotted : ℕ → Bool
is_dotted c = is_name c || c == b'.'

-- a first character, then up to 63 of the class
matches_name : (ℕ → Bool) → List ℕ → Bool
matches_name class [] = false
matches_name class (c ∷ s) = is_start c && all class s && leb (length s) 63

unfoldable pub is_identifier : String → Bool
unfolding matches_name
is_identifier s = matches_name is_dotted (codes s)

unfoldable pub is_effect_id : String → Bool
unfolding matches_name
is_effect_id s = matches_name is_name (codes s)

unfoldable pub is_unit : String → Bool
is_unit s = matches_up_to is_name 16 s

-- what follows a prefix that a text starts with
unfoldable pub after_prefix : String → String → Option String
after_prefix String.[] s = some s
after_prefix (String.◌∷◌ c p) String.[] = none
after_prefix (String.◌∷◌ c p) (String.◌∷◌ d s) =
    let rest = after_prefix p s in if code c == code d then rest else none

unfoldable pub has_prefix : String → String → Bool
has_prefix p s = elim (after_prefix p s) [ none ↦ false | some rest ↦ true ]

-- /^\/v1\/[a-z0-9/_-]{1,128}$/
unfoldable pub is_path : String → Bool
is_path s = elim (after_prefix "/v1/" s) [
  | none ↦ false
  | some rest ↦ matches_up_to (λ c. is_name c || c == b'/') 128 rest
]

unfoldable pub safe_nonnegative : Number → Bool
safe_nonnegative (nat n) = is_safe n
safe_nonnegative _ = false

unfoldable pub safe_positive : Number → Bool
safe_positive (nat n) = is_safe n && leb 1 n
safe_positive _ = false

-- a number that was found to be a safe integer
abbrev pub natural : Number → ℕ
natural (nat n) = n
natural _ = 0

-- value.split(':')
split_colon : String → List String
split_colon String.[] = "" ∷ []
split_colon (String.◌∷◌ c s) =
    let rest = split_colon s in
    if code c == b':' then "" ∷ rest else elim rest [ [] ↦ [] | p ∷ ps ↦ String.◌∷◌ c p ∷ ps ]

valid_parts : List String → Bool
valid_parts (kind ∷ name ∷ []) =
    includes ("external" ∷ "transfer" ∷ "lightning" ∷ "receiver" ∷ []) kind && is_identifier name
valid_parts (kind ∷ a ∷ b ∷ []) =
    str_eq kind "wallet"
      && is_identifier a
      && includes ("available" ∷ "reserved" ∷ "recoverable" ∷ []) b
    || str_eq kind "fee" && includes ("mint" ∷ "lightning" ∷ []) a && is_identifier b
valid_parts _ = false

unfoldable pub valid_account : String → Bool
unfolding split_colon valid_parts
valid_account value = valid_parts (split_colon value)

unfoldable pub tracked_account : String → Bool
tracked_account value = not (has_prefix "external:" value)

unfoldable pub balance_key : String → String → String
balance_key unit account = unit ++ ("\0" ++ account)

unfoldable pub same_movement : ValueMovement → ValueMovement → Bool
same_movement a b =
    str_eq a.operation_id b.operation_id
    && str_eq a.effect_id b.effect_id
    && str_eq a.unit b.unit
    && natural a.amount == natural b.amount
    && str_eq a.from b.from
    && str_eq a.to b.to

-- balances.get(key) ?? 0
unfoldable pub balance_at : Map ℤ → String → ℤ
balance_at balances key = elim (get balances key) [ none ↦ pos 0 | some b ↦ b ]

unfoldable pub valid_movement : ValueMovement → LifecycleOperationRecord → Bool
valid_movement v operation =
    is_effect_id v.effect_id
    && is_unit v.unit
    && str_eq v.unit operation.unit
    && safe_positive v.amount
    && valid_account v.from
    && valid_account v.to
    && not (str_eq v.from v.to)

module _ (platform : Platform) where
  -- the two sides of a movement
  unfoldable pub withdrawn : Map ℤ → String → ℕ → ℤ
  withdrawn balances key n = platform.round (minus (balance_at balances key) n)

  unfoldable pub deposit : String → ℕ → Map ℤ → Map ℤ
  deposit key n balances = put balances key (platform.round (plus (balance_at balances key) n))

  unfoldable pub move_value : Map ℤ → ValueMovement → LifecycleOperationRecord → Verdict (Map ℤ)
  move_value balances v operation = do
    ensure (valid_movement v operation) tt
    let from = balance_key v.unit v.from
    let to = balance_key v.unit v.to
    let from_balance = withdrawn balances from (natural v.amount)
    throw_if (tracked_account v.from && is_negative from_balance) tt
    ok (deposit to (natural v.amount) (put balances from from_balance))
