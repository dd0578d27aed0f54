-- ===== src/Tests/Relay.antt =====
-- A rule of the relay that is set and used up.
use cashu_fault_lab.Common.{ℕ, String, ◌≡◌, refl, none, some, List, [], ◌∷◌, All, map, nat}
use cashu_fault_lab.Relay.Rules.{
  NostrFaultRuleInput, parse_action, in_range, bounded_integer, optional, check_duplicate_count,
  check_delay, validate_rule, phase, phase_eq,
}
use cashu_fault_lab.Relay.Control.{
  new_control, allows, is_taken, use_up, take_rules, take, take_publish, take_history, clear,
  clear_partition, keep_partition, set_partition, stored_rule, push_rule, set_rule, evidence_of,
  snapshot,
}
use cashu_fault_lab.Relay.Budget.{
  Operation, set, publish, Budgeted, perform, perform_all, perform_all-Budgeted,
}

abbrev input : NostrFaultRuleInput
input = record {
  action = "drop_ok";
  count = some (nat 2);
  occurrence = none;
  kind = some (nat 1059);
  duplicate_count = none;
  delay_ms = none;
}

abbrev operations : List Operation
operations = publish 1059 ∷ publish 1 ∷ publish 1059 ∷ set input ∷ []

abbrev rule_id : ℕ → String
rule_id _ = "nostr-rule-1"

used_up : map (λ s. s.remaining) (perform_all rule_id operations).rules ≡ 0 ∷ []
unfolding perform perform_all parse_action in_range bounded_integer optional check_duplicate_count
    check_delay validate_rule phase phase_eq new_control allows is_taken use_up take_rules take
    take_publish take_history clear clear_partition keep_partition set_partition stored_rule
    push_rule set_rule evidence_of snapshot
used_up = refl

perform_all-Budgeted_example : All Budgeted (perform_all rule_id operations).rules
perform_all-Budgeted_example = perform_all-Budgeted rule_id operations
