-- ===== src/Relay/Budget.antt =====
-- How often the relay applies a rule.
use cashu_fault_lab.Common.{
  ℕ, ◌+◌, ◌≤◌, ◌≡◌, refl, String, Bool, true, Option, none, some, List, [], ◌∷◌, ◌++◌, All,
  Bool-cases, inl, inr, arith, Number, nat, negative, other, Value, ok, err, bind-eq-ok,
}
use cashu_fault_lab.Relay.Rules.{
  NostrFaultRuleInput, NostrFaultRule, Phase, Valid, in_range, bounded_integer, optional,
  check_duplicate_count, check_delay, parse_action, validate_rule,
}
use cashu_fault_lab.Relay.Partition.{NostrHistoryPartition, validate_partition}
use cashu_fault_lab.Relay.Control.{
  StoredRule, NostrFaultControl, new_control, is_taken, use_up, take_rules, take, take_publish,
  take_history, clear, clear_partition, set_partition, set_rule, keep_partition, push_rule,
  stored_rule,
}

-- A rule is applied as often as it was used up, out of its count.
pub record Budgeted (s : StoredRule) : Type 0 where
  pub balance : s.remaining + s.applied ≡ s.rule.count
  pub positive : 1 ≤ s.rule.count
  pub bounded : s.rule.count ≤ 10000

pub data Operation : Type 0 where
  set : NostrFaultRuleInput → Operation
  publish : ℕ → Operation
  query clear_all unsplit : Operation
  split : Value → Operation

unfoldable pub perform : (ℕ → String) → Operation → NostrFaultControl → NostrFaultControl
perform rule_id (set input) c = (set_rule rule_id input c).1
perform rule_id (publish kind) c = (take_publish kind c).1
perform rule_id query c = (take_history c).1
perform rule_id clear_all c = clear c
perform rule_id unsplit c = clear_partition c
perform rule_id (split input) c = (set_partition input c).1

-- the control after the operations, the first one last in the list
unfoldable pub perform_all : (ℕ → String) → List Operation → NostrFaultControl
perform_all rule_id [] = new_control
perform_all rule_id (o ∷ os) = perform rule_id o (perform_all rule_id os)

is_taken-remaining :
    (p : Phase) (ordinal : ℕ) (kind : Option ℕ) (s : StoredRule)
    → is_taken p ordinal kind s ≡ true
    → 1 ≤ s.remaining
unfolding is_taken
is_taken-remaining p ordinal kind s h = ground arith

use_up-Budgeted : (s : StoredRule) → 1 ≤ s.remaining → Budgeted s → Budgeted (use_up s)
unfolding use_up
use_up-Budgeted s h b = record {
  balance = omega (arith, b.balance);
  positive = b.positive;
  bounded = b.bounded;
}

take_rules-Budgeted :
    (test : StoredRule → Bool) (ss : List StoredRule)
    → ((s : StoredRule) → test s ≡ true → 1 ≤ s.remaining)
    → All Budgeted ss
    → All Budgeted (take_rules test ss).1
unfolding take_rules
take_rules-Budgeted test [] h b = tt
take_rules-Budgeted test (s ∷ ss) h b = elim (Bool-cases (test s)) [
  | inl taken ↦ rw taken (use_up-Budgeted s (h s taken) b.0, take_rules-Budgeted test ss h b.1)
  | inr skipped ↦ rw skipped (b.0, take_rules-Budgeted test ss h b.1)
]

in_range-le :
    (least most : ℕ) (n : Number) (k : ℕ) → in_range least most n ≡ ok k → (least ≤ k) × (k ≤ most)
unfolding in_range
in_range-le least most (nat n) k e = ground arith
in_range-le least most (negative n) k e = ground arith
in_range-le least most other k e = ground arith

bounded_integer-le :
    (n : Option Number) (k : ℕ) → bounded_integer n 1 10000 ≡ ok k → (1 ≤ k) × (k ≤ 10000)
unfolding bounded_integer
bounded_integer-le none k e = ground arith
bounded_integer-le (some n) k e = in_range-le 1 10000 n k e

validate_rule-count :
    (id : String) (input : NostrFaultRuleInput) (rule : NostrFaultRule)
    → validate_rule id input ≡ ok rule
    → (1 ≤ rule.count) × (rule.count ≤ 10000)
unfolding validate_rule
validate_rule-count id input rule e =
    let (a, _, e1) = bind-eq-ok (parse_action input.action) _ e in
    let (count, c, e2) = bind-eq-ok (bounded_integer input.count 1 10000) _ e1 in
    let (o, _, e3) = bind-eq-ok (optional (in_range 1 10000) input.occurrence) _ e2 in
    let (k, _, e4) = bind-eq-ok (optional (in_range 0 65535) input.kind) _ e3 in
    let (d, _, e5) = bind-eq-ok (check_duplicate_count a input.duplicate_count) _ e4 in
    let (m, _, e6) = bind-eq-ok (check_delay a input.delay_ms) _ e5 in
    ground (arith, bounded_integer-le input.count count c)

All-append :
    (xs : List StoredRule) (y : StoredRule)
    → All Budgeted xs
    → Budgeted y
    → All Budgeted (xs ++ (y ∷ []))
All-append [] y h b = (b, tt)
All-append (x ∷ xs) y h b = (h.0, All-append xs y h.1 b)

push_rule-Budgeted :
    (r : Valid NostrFaultRule) (c : NostrFaultControl)
    → ((rule : NostrFaultRule) → r ≡ ok rule → (1 ≤ rule.count) × (rule.count ≤ 10000))
    → All Budgeted c.rules
    → All Budgeted (push_rule r c).1.rules
unfolding push_rule stored_rule
push_rule-Budgeted (ok rule) c h b =
    let (low, high) = h rule refl in
    All-append c.rules _ b (record { balance = omega arith; positive = low; bounded = high })
push_rule-Budgeted (err e) c h b = b

keep_partition-Budgeted :
    (r : Valid NostrHistoryPartition) (c : NostrFaultControl)
    → All Budgeted c.rules
    → All Budgeted (keep_partition r c).1.rules
unfolding keep_partition
keep_partition-Budgeted (ok p) c b = b
keep_partition-Budgeted (err e) c b = b

perform-Budgeted :
    (rule_id : ℕ → String) (o : Operation) (c : NostrFaultControl)
    → All Budgeted c.rules
    → All Budgeted (perform rule_id o c).rules
unfolding perform take_publish take_history take clear clear_partition set_partition set_rule
perform-Budgeted rule_id (set input) c b =
    push_rule-Budgeted (validate_rule (rule_id c.next_id) input) _
      (λ rule e. validate_rule-count (rule_id c.next_id) input rule e) b
perform-Budgeted rule_id (publish kind) c b =
    take_rules-Budgeted _ c.rules (λ s h. is_taken-remaining _ _ _ s h) b
perform-Budgeted rule_id query c b =
    take_rules-Budgeted _ c.rules (λ s h. is_taken-remaining _ _ _ s h) b
perform-Budgeted rule_id clear_all c b = tt
perform-Budgeted rule_id unsplit c b = b
perform-Budgeted rule_id (split input) c b = keep_partition-Budgeted (validate_partition input) c b

-- After any operations of NostrFaultControl, every rule has been applied as often as it was used up,
-- its count is at most 10000, and so it is applied at most `count` times.
pub perform_all-Budgeted :
    (rule_id : ℕ → String) (os : List Operation) → All Budgeted (perform_all rule_id os).rules
unfolding perform_all new_control
perform_all-Budgeted rule_id [] = tt
perform_all-Budgeted rule_id (o ∷ os) =
    perform-Budgeted rule_id o _ (perform_all-Budgeted rule_id os)
