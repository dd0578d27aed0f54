-- ===== src/Gateway/Control.antt =====
-- apps/http-fault-gateway/src/control.ts: `GatewayControl`. Attempts are counted by the four parts of
-- their key.
use cashu_fault_lab.Common.{
  ℕ, ◌+◌, ◌-◌, String, Bool, true, false, ◌&&◌, Option, none, some, List, [], ◌∷◌, ◌++◌, length,
  ◌==◌, ltb, str_eq, if◌then◌else◌, ok, err,
}
use cashu_fault_lab.Gateway.Rules.{
  FaultPhase, FaultAction, drop, delay, duplicate, reorder, status, stale_response, truncate,
  FaultRuleInput, FaultRule, RequestMetadata, Valid, validate_rule, rule_matches,
}

pub record RuleState : Type 0 where
  pub rule : FaultRule
  pub remaining : ℕ
  pub applied : ℕ

pub record Counters : Type 0 where
  pub inbound : ℕ
  pub forwarded : ℕ
  pub responded : ℕ
  pub dropped : ℕ
  pub delayed : ℕ
  pub duplicates : ℕ
  pub reordered : ℕ
  pub status_injected : ℕ
  pub stale_responses : ℕ
  pub truncated : ℕ

unfoldable pub no_counts : Counters
no_counts = record {
  inbound = 0;
  forwarded = 0;
  responded = 0;
  dropped = 0;
  delayed = 0;
  duplicates = 0;
  reordered = 0;
  status_injected = 0;
  stale_responses = 0;
  truncated = 0;
}

pub record GatewayControl : Type 0 where
  pub sequence : ℕ
  pub generation : ℕ
  pub rules : List RuleState
  pub attempts : List (List String × ℕ)
  pub requests : List RequestMetadata
  pub counters : Counters

unfoldable pub new_gateway : GatewayControl
new_gateway = record {
  sequence = 0;
  generation = 0;
  rules = [];
  attempts = [];
  requests = [];
  counters = no_counts;
}

unfoldable pub enqueue : FaultRule → GatewayControl → GatewayControl
enqueue rule c = record c {
  rules = c.rules ++ (record { rule = rule; remaining = rule.count; applied = 0 } ∷ []);
}

unfoldable pub add_rule : Valid FaultRule → GatewayControl → Valid FaultRule × GatewayControl
add_rule (ok rule) c = (ok rule, enqueue rule c)
add_rule (err e) c = (err e, c)

-- the text of a number, `http-rule-${n}`, is a parameter
unfoldable pub set_rule :
    (ℕ → String) → FaultRuleInput → GatewayControl → Valid FaultRule × GatewayControl
set_rule rule_id input c =
    add_rule (validate_rule (rule_id (c.sequence + 1)) input)
      (record c { sequence = c.sequence + 1 })

unfoldable pub clear_rules : GatewayControl → GatewayControl
clear_rules c = record c { rules = [] }

unfoldable pub reset : GatewayControl → GatewayControl
reset c = record (clear_rules c) {
  generation = c.generation + 1;
  attempts = [];
  counters = no_counts;
  requests = [];
}

unfoldable pub or_dash : Option String → String
or_dash none = "-"
or_dash (some s) = s

-- the parts of the key, which the code joins by NUL
unfoldable pub attempt_key : RequestMetadata → List String
attempt_key m = m.method ∷ m.path ∷ or_dash m.delivery_id_hash ∷ or_dash m.operation_id_hash ∷ []

unfoldable pub same_texts : List String → List String → Bool
same_texts [] [] = true
same_texts (s ∷ ss) (t ∷ ts) = str_eq s t && same_texts ss ts
same_texts _ _ = false

-- attempts.get(key) ?? 0
unfoldable pub attempts_of : List (List String × ℕ) → List String → ℕ
attempts_of [] key = 0
attempts_of ((k, n) ∷ m) key = if same_texts k key then n else attempts_of m key

-- attempts.set(key, n)
unfoldable pub set_attempts : List (List String × ℕ) → List String → ℕ → List (List String × ℕ)
set_attempts [] key n = (key, n) ∷ []
set_attempts ((k, i) ∷ m) key n =
    if same_texts k key then (k, n) ∷ m else (k, i) ∷ set_attempts m key n

-- shift, of a list that is full
unfoldable pub make_room : List RequestMetadata → List RequestMetadata
make_room [] = []
make_room (r ∷ rs) = if length (r ∷ rs) == 1024 then rs else r ∷ rs

-- the ordinal of the argument is not read
unfoldable pub begin : RequestMetadata → GatewayControl → RequestMetadata × GatewayControl
begin input c =
    let ordinal = attempts_of c.attempts (attempt_key input) + 1 in
    let metadata = record input { attempt_ordinal = ordinal } in
    (
      metadata,
      record c {
        counters = record c.counters { inbound = c.counters.inbound + 1 };
        attempts = set_attempts c.attempts (attempt_key input) ordinal;
        requests = make_room c.requests ++ (metadata ∷ []);
      },
    )

unfoldable pub apply_once : RuleState → RuleState
apply_once s = record s { remaining = s.remaining - 1; applied = s.applied + 1 }

-- the first rule that passes the test, used up by one
unfoldable pub take_first : (RuleState → Bool) → List RuleState → Option FaultRule × List RuleState
take_first test [] = (none, [])
take_first test (s ∷ ss) =
    let rest = take_first test ss in
    if test s then (some s.rule, apply_once s ∷ ss) else (rest.0, s ∷ rest.1)

module _ (to_upper_case operation_id_hash : String → String) where
  unfoldable pub is_candidate : FaultPhase → RequestMetadata → RuleState → Bool
  is_candidate phase metadata s =
      ltb 0 s.remaining && rule_matches to_upper_case operation_id_hash s.rule phase metadata

  unfoldable pub take :
      FaultPhase → RequestMetadata → GatewayControl → Option FaultRule × GatewayControl
  take phase metadata c =
      let (taken, rules) = take_first (is_candidate phase metadata) c.rules in
      (taken, record c { rules = rules })

unfoldable pub record_forward : ℕ → GatewayControl → GatewayControl
record_forward count c = record c {
  counters = record c.counters { forwarded = c.counters.forwarded + count };
}

unfoldable pub record_response : GatewayControl → GatewayControl
record_response c = record c {
  counters = record c.counters { responded = c.counters.responded + 1 };
}

unfoldable pub count_action : FaultAction → ℕ → Counters → Counters
count_action drop extra n = record n { dropped = n.dropped + 1 }
count_action delay extra n = record n { delayed = n.delayed + 1 }
count_action duplicate extra n = record n { duplicates = n.duplicates + extra }
count_action reorder extra n = record n { reordered = n.reordered + 1 }
count_action status extra n = record n { status_injected = n.status_injected + 1 }
count_action stale_response extra n = record n { stale_responses = n.stale_responses + 1 }
count_action truncate extra n = record n { truncated = n.truncated + 1 }

unfoldable pub record_action : FaultAction → ℕ → GatewayControl → GatewayControl
record_action action extra c = record c { counters = count_action action extra c.counters }
