-- ===== src/Relay/Control.antt =====
-- apps/nostr-fault-relay/src/rules.ts: `NostrFaultControl`.
use cashu_fault_lab.Common.{
  ℕ, ◌+◌, ◌-◌, String, Bool, true, false, ◌&&◌, Option, none, some, List, [], ◌∷◌, ◌++◌, map, ◌==◌,
  ltb, if◌then◌else◌, Value, ok, err,
}
use cashu_fault_lab.Relay.Rules.{
  NostrFaultRuleInput, NostrFaultRule, NostrFaultAction, Phase, publish, history, phase, phase_eq,
  validate_rule, Valid,
}
use cashu_fault_lab.Relay.Partition.{NostrHistoryPartition, validate_partition}

pub record StoredRule : Type 0 where
  pub rule : NostrFaultRule
  pub remaining : ℕ
  pub applied : ℕ

pub record NostrFaultControl : Type 0 where
  pub rules : List StoredRule
  pub next_id : ℕ
  pub publish_attempts : ℕ
  pub history_queries : ℕ
  pub partition : Option NostrHistoryPartition

unfoldable pub new_control : NostrFaultControl
new_control = record {
  rules = [];
  next_id = 1;
  publish_attempts = 0;
  history_queries = 0;
  partition = none;
}

-- a condition of a rule that may be missing
unfoldable pub allows : Option ℕ → Option ℕ → Bool
allows none actual = true
allows (some wanted) none = false
allows (some wanted) (some actual) = wanted == actual

unfoldable pub is_taken : Phase → ℕ → Option ℕ → StoredRule → Bool
is_taken wanted_phase ordinal kind s =
    ltb 0 s.remaining
    && phase_eq (phase s.rule.action) wanted_phase
    && allows s.rule.occurrence (some ordinal)
    && allows s.rule.kind kind

unfoldable pub use_up : StoredRule → StoredRule
use_up s = record s { remaining = s.remaining - 1; applied = s.applied + 1 }

-- the rules that match, and all rules afterwards
unfoldable pub take_rules :
    (StoredRule → Bool) → List StoredRule → List NostrFaultRule × List StoredRule
take_rules test [] = ([], [])
take_rules test (s ∷ ss) =
    let rest = take_rules test ss in
    if test s then (s.rule ∷ rest.0, use_up s ∷ rest.1) else (rest.0, s ∷ rest.1)

unfoldable pub take :
    Phase → ℕ → Option ℕ → NostrFaultControl → List NostrFaultRule × NostrFaultControl
take wanted_phase ordinal kind c =
    let (matched, rules) = take_rules (is_taken wanted_phase ordinal kind) c.rules in
    (matched, record c { rules = rules })

unfoldable pub take_publish : ℕ → NostrFaultControl → List NostrFaultRule × NostrFaultControl
take_publish kind c =
    take publish (c.publish_attempts + 1) (some kind)
      (record c { publish_attempts = c.publish_attempts + 1 })

unfoldable pub take_history : NostrFaultControl → List NostrFaultRule × NostrFaultControl
take_history c =
    take history (c.history_queries + 1) none (record c { history_queries = c.history_queries + 1 })

unfoldable pub clear : NostrFaultControl → NostrFaultControl
clear c = record c { rules = []; partition = none }

unfoldable pub clear_partition : NostrFaultControl → NostrFaultControl
clear_partition c = record c { partition = none }

unfoldable pub keep_partition :
    Valid NostrHistoryPartition
    → NostrFaultControl
    → Valid NostrHistoryPartition × NostrFaultControl
keep_partition (ok p) c = (ok p, record c { partition = some p })
keep_partition (err e) c = (err e, c)

unfoldable pub set_partition :
    Value → NostrFaultControl → Valid NostrHistoryPartition × NostrFaultControl
set_partition input c = keep_partition (validate_partition input) c

unfoldable pub stored_rule : NostrFaultRule → StoredRule
stored_rule rule = record { rule = rule; remaining = rule.count; applied = 0 }

unfoldable pub push_rule :
    Valid NostrFaultRule → NostrFaultControl → Valid String × NostrFaultControl
push_rule (ok rule) c = (ok rule.id, record c { rules = c.rules ++ (stored_rule rule ∷ []) })
push_rule (err e) c = (err e, c)

-- the text of a number, `nostr-rule-${n}`, is a parameter
unfoldable pub set_rule :
    (ℕ → String) → NostrFaultRuleInput → NostrFaultControl → Valid String × NostrFaultControl
set_rule rule_id input c =
    push_rule (validate_rule (rule_id c.next_id) input) (record c { next_id = c.next_id + 1 })

pub record NostrFaultRuleEvidence : Type 0 where
  pub id : String
  pub action : NostrFaultAction
  pub remaining : ℕ
  pub applied : ℕ

unfoldable pub evidence_of : StoredRule → NostrFaultRuleEvidence
evidence_of s = record {
  id = s.rule.id;
  action = s.rule.action;
  remaining = s.remaining;
  applied = s.applied;
}

-- the rules of the snapshot
unfoldable pub snapshot : NostrFaultControl → List NostrFaultRuleEvidence
snapshot c = map evidence_of c.rules
