-- ===== src/Relay/Rules.antt =====
-- apps/nostr-fault-relay/src/rules.ts: the rules of the relay.
use cashu_fault_lab.Common.{
  ℕ, String, Bool, true, false, ◌&&◌, Option, none, some, Number, nat, leb, str_eq, if◌then◌else◌,
  Result, ok, err, ◌>>=◌,
}

pub data NostrFaultAction : Type 0 where
  duplicate_publish drop_ok delay_history reorder_history disconnect : NostrFaultAction

pub data Phase : Type 0 where
  publish history : Phase

-- The action of an input is any text.
pub record NostrFaultRuleInput : Type 0 where
  pub action : String
  pub count : Option Number
  pub occurrence : Option Number
  pub kind : Option Number
  pub duplicate_count : Option Number
  pub delay_ms : Option Number

-- an input that was validated
pub record NostrFaultRule : Type 0 where
  pub id : String
  pub action : NostrFaultAction
  pub count : ℕ
  pub occurrence : Option ℕ
  pub kind : Option ℕ
  pub duplicate_count : Option ℕ
  pub delay_ms : Option ℕ

abbrev pub Valid : Type 0 → Type 0
Valid A = Result (Unit {0}) A

-- ACTIONS
unfoldable pub parse_action : String → Valid NostrFaultAction
parse_action s =
    if str_eq s "duplicate_publish"
    then ok duplicate_publish
    else if str_eq s "drop_ok"
    then ok drop_ok
    else if str_eq s "delay_history"
    then ok delay_history
    else if str_eq s "reorder_history"
    then ok reorder_history
    else if str_eq s "disconnect"
    then ok disconnect
    else err tt

unfoldable pub in_range : ℕ → ℕ → Number → Valid ℕ
in_range least most (nat n) = if leb least n && leb n most then ok n else err tt
in_range least most _ = err tt

unfoldable pub bounded_integer : Option Number → ℕ → ℕ → Valid ℕ
bounded_integer none fallback maximum = ok fallback
bounded_integer (some n) fallback maximum = in_range 1 maximum n

-- a field that may be missing
unfoldable pub optional : (Number → Valid ℕ) → Option Number → Valid (Option ℕ)
optional check none = ok none
optional check (some n) = do checked ← check n; ok (some checked)

unfoldable pub check_duplicate_count : NostrFaultAction → Option Number → Valid (Option ℕ)
check_duplicate_count duplicate_publish n = optional (in_range 1 100) n
check_duplicate_count _ none = ok none
check_duplicate_count _ (some n) = err tt

unfoldable pub check_delay : NostrFaultAction → Option Number → Valid (Option ℕ)
check_delay delay_history none = err tt
check_delay delay_history (some n) = optional (in_range 0 300000) (some n)
check_delay _ none = ok none
check_delay _ (some n) = err tt

unfoldable pub validate_rule : String → NostrFaultRuleInput → Valid NostrFaultRule
validate_rule id input = do
  action ← parse_action input.action
  count ← bounded_integer input.count 1 10000
  occurrence ← optional (in_range 1 10000) input.occurrence
  kind ← optional (in_range 0 65535) input.kind
  duplicate_count ← check_duplicate_count action input.duplicate_count
  delay_ms ← check_delay action input.delay_ms
  ok (record {
    id = id;
    action = action;
    count = count;
    occurrence = occurrence;
    kind = kind;
    duplicate_count = duplicate_count;
    delay_ms = delay_ms;
  })

unfoldable pub phase : NostrFaultAction → Phase
phase delay_history = history
phase reorder_history = history
phase _ = publish

unfoldable pub phase_eq : Phase → Phase → Bool
phase_eq publish publish = true
phase_eq history history = true
phase_eq _ _ = false
