-- ===== src/Gateway/Bounds.antt =====
-- How often the gateway applies a rule, and how many requests it remembers.
use cashu_fault_lab.Common.{
  ℕ, ◌+◌, ◌≤◌, ◌≡◌, refl, String, Bool, true, Option, none, some, List, [], ◌∷◌, ◌++◌, length,
  length-append, All, Bool-cases, inl, inr, arith, Number, nat, negative, other, ok, err,
  bind-eq-ok, ensure, is_safe_nonnegative,
}
use cashu_fault_lab.Gateway.Rules.{
  FaultPhase, FaultAction, FaultRuleInput, FaultRule, RequestMetadata, Valid, rule_fields,
  has_known_fields, parse_phase, parse_action, positive_integer, validate_rule, if_given,
  is_between, fits_action, is_fit_match,
}
use cashu_fault_lab.Gateway.Control.{
  RuleState, GatewayControl, new_gateway, enqueue, add_rule, set_rule, clear_rules, reset,
  make_room, begin, apply_once, take_first, is_candidate, take, record_forward, record_response,
  record_action,
}

pub record Budgeted (s : RuleState) : Type 0 where
  pub balance : s.remaining + s.applied ≡ s.rule.count
  pub positive : 1 ≤ s.rule.count
  pub bounded : s.rule.count ≤ 10000

pub data Operation : Type 0 where
  set : FaultRuleInput → Operation
  clear start_over responded : Operation
  started : RequestMetadata → Operation
  asked : FaultPhase → RequestMetadata → Operation
  forwarded : ℕ → Operation
  acted : FaultAction → ℕ → Operation

module _ (to_upper_case operation_id_hash : String → String) (rule_id : ℕ → String) where
  unfoldable pub perform : Operation → GatewayControl → GatewayControl
  perform (set input) c = (set_rule rule_id input c).1
  perform clear c = clear_rules c
  perform start_over c = reset c
  perform responded c = record_response c
  perform (started input) c = (begin input c).1
  perform (asked phase metadata) c = (take to_upper_case operation_id_hash phase metadata c).1
  perform (forwarded count) c = record_forward count c
  perform (acted action extra) c = record_action action extra c

  -- the control after the operations, the first one last in the list
  unfoldable pub perform_all : List Operation → GatewayControl
  perform_all [] = new_gateway
  perform_all (o ∷ os) = perform o (perform_all os)

record Bounded (c : GatewayControl) : Type 0 where
  rules : All Budgeted c.rules
  requests : length c.requests ≤ 1024

positive_integer-le :
    (n : Option Number) (k : ℕ) → positive_integer n 1 ≡ ok k → (1 ≤ k) × (k ≤ 10000)
unfolding positive_integer
positive_integer-le none k e = ground arith
positive_integer-le (some (nat n)) k e = ground arith
positive_integer-le (some (negative n)) k e = ground arith
positive_integer-le (some other) k e = ground arith

validate_rule-count :
    (id : String) (input : FaultRuleInput) (rule : FaultRule)
    → validate_rule id input ≡ ok rule
    → (1 ≤ rule.count) × (rule.count ≤ 10000)
unfolding validate_rule
validate_rule-count id input rule e =
    let (_, _, e1) = bind-eq-ok (ensure (has_known_fields input.keys rule_fields) tt) _ e in
    let (phase, _, e2) = bind-eq-ok (parse_phase input.phase) _ e1 in
    let (action, _, e3) = bind-eq-ok (parse_action input.action) _ e2 in
    let (count, c, e4) = bind-eq-ok (positive_integer input.count 1) _ e3 in
    let (_, _, e5) = bind-eq-ok (ensure (if_given (is_between 1 10000) input.occurrence) tt) _ e4 in
    let (_, _, e6) = bind-eq-ok (ensure (if_given is_safe_nonnegative input.delay_ms) tt) _ e5 in
    let (_, _, e7) = bind-eq-ok (ensure (fits_action action phase input) tt) _ e6 in
    let (_, _, e8) = bind-eq-ok (ensure (if_given is_fit_match input.match_on) tt) _ e7 in
    ground (arith, positive_integer-le input.count count c)

All-append :
    (xs : List RuleState) (y : RuleState)
    → All Budgeted xs
    → Budgeted y
    → All Budgeted (xs ++ (y ∷ []))
All-append [] y h b = (b, tt)
All-append (x ∷ xs) y h b = (h.0, All-append xs y h.1 b)

apply_once-Budgeted : (s : RuleState) → 1 ≤ s.remaining → Budgeted s → Budgeted (apply_once s)
unfolding apply_once
apply_once-Budgeted s h b = record {
  balance = omega (arith, b.balance);
  positive = b.positive;
  bounded = b.bounded;
}

take_first-Budgeted :
    (test : RuleState → Bool) (ss : List RuleState)
    → ((s : RuleState) → test s ≡ true → 1 ≤ s.remaining)
    → All Budgeted ss
    → All Budgeted (take_first test ss).1
unfolding take_first
take_first-Budgeted test [] h b = tt
take_first-Budgeted test (s ∷ ss) h b = elim (Bool-cases (test s)) [
  | inl taken ↦ rw taken (apply_once-Budgeted s (h s taken) b.0, b.1)
  | inr skipped ↦ rw skipped (b.0, take_first-Budgeted test ss h b.1)
]

make_room-le : (rs : List RequestMetadata) → length rs ≤ 1024 → length (make_room rs) ≤ 1023
unfolding make_room
make_room-le [] h = omega arith
make_room-le (r ∷ rs) h = ground arith

add_rule-Bounded :
    (r : Valid FaultRule) (c : GatewayControl)
    → ((rule : FaultRule) → r ≡ ok rule → (1 ≤ rule.count) × (rule.count ≤ 10000))
    → Bounded c
    → Bounded (add_rule r c).1
unfolding add_rule enqueue
add_rule-Bounded (ok rule) c h b =
    let (low, high) = h rule refl in
    record {
      rules =
          All-append c.rules _ b.rules
            (record { balance = omega arith; positive = low; bounded = high });
      requests = b.requests;
    }
add_rule-Bounded (err e) c h b = b

module _ (to_upper_case operation_id_hash : String → String) (rule_id : ℕ → String) where
  is_candidate-remaining :
      (phase : FaultPhase) (metadata : RequestMetadata) (s : RuleState)
      → is_candidate to_upper_case operation_id_hash phase metadata s ≡ true
      → 1 ≤ s.remaining
  unfolding is_candidate
  is_candidate-remaining phase metadata s h = ground arith

  perform-Bounded :
      (o : Operation) (c : GatewayControl)
      → Bounded c
      → Bounded (perform to_upper_case operation_id_hash rule_id o c)
  unfolding perform set_rule clear_rules reset record_response begin take record_forward
      record_action
  perform-Bounded (set input) c b =
      add_rule-Bounded (validate_rule (rule_id (c.sequence + 1)) input) _
        (λ rule e. validate_rule-count (rule_id (c.sequence + 1)) input rule e)
        (record { rules = b.rules; requests = b.requests })
  perform-Bounded clear c b = record { rules = tt; requests = b.requests }
  perform-Bounded start_over c b = record { rules = tt; requests = omega arith }
  perform-Bounded responded c b = record { rules = b.rules; requests = b.requests }
  perform-Bounded (started input) c b = record {
    rules = b.rules;
    requests =
        omega (
          arith,
          make_room-le c.requests b.requests,
          length-append (make_room c.requests) (_ ∷ []),
        );
  }
  perform-Bounded (asked phase metadata) c b = record {
    rules =
        take_first-Budgeted _ c.rules (λ s h. is_candidate-remaining phase metadata s h) b.rules;
    requests = b.requests;
  }
  perform-Bounded (forwarded count) c b = record { rules = b.rules; requests = b.requests }
  perform-Bounded (acted action extra) c b = record { rules = b.rules; requests = b.requests }

  perform_all-Bounded :
      (os : List Operation) → Bounded (perform_all to_upper_case operation_id_hash rule_id os)
  unfolding perform_all new_gateway
  perform_all-Bounded [] = record { rules = tt; requests = omega arith }
  perform_all-Bounded (o ∷ os) = perform-Bounded o _ (perform_all-Bounded os)

  -- After any operations of GatewayControl, the number of times that a rule was applied and what
  -- remains of it add up to its count, which is from 1 to 10000, and the evidence holds at most 1024
  -- requests.
  pub perform_all-le :
      (os : List Operation)
      → All Budgeted (perform_all to_upper_case operation_id_hash rule_id os).rules
        × (length (perform_all to_upper_case operation_id_hash rule_id os).requests ≤ 1024)
  perform_all-le os = ((perform_all-Bounded os).rules, (perform_all-Bounded os).requests)
