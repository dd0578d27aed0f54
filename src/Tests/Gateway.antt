-- ===== src/Tests/Gateway.antt =====
-- A rule of the gateway that fires once, and a request that is begun twice.
use cashu_fault_lab.Common.{
  ℕ, ◌+◌, ◌≤◌, String, ◌≡◌, refl, none, some, List, [], ◌∷◌, All, length, map, nat,
}
use cashu_fault_lab.Gateway.Rules.{
  FaultRuleInput, RequestMetadata, before_forward, endpoint_families, rule_fields, match_fields,
  has_known_fields, parse_phase, parse_action, phase_eq, is_between, positive_integer, if_given,
  is_given, fits_action, starts_with_slash, is_operation_codes, is_fit_match, validate_rule,
  is_ordinal, is_text_of, match_fits, rule_matches,
}
use cashu_fault_lab.Gateway.Control.{
  no_counts, new_gateway, enqueue, add_rule, set_rule, clear_rules, reset, or_dash, attempt_key,
  same_texts, attempts_of, set_attempts, make_room, begin, apply_once, take_first, is_candidate,
  take, record_forward, record_response, count_action, record_action,
}
use cashu_fault_lab.Gateway.Bounds.{
  Operation, set, started, asked, perform, perform_all, Budgeted, perform_all-le,
}
use cashu_fault_lab.Gateway.Ordinals.{begun_since, begin-ordinal}

abbrev input : FaultRuleInput
input = record {
  keys = "phase" ∷ "action" ∷ "match" ∷ [];
  phase = "before_forward";
  action = "drop";
  match_on = some (record {
    keys = "path" ∷ "attemptOrdinal" ∷ [];
    method = none;
    path = some "/v1/swap";
    delivery_id_hash = none;
    operation_id = none;
    endpoint_family = none;
    attempt_ordinal = some (nat 2);
  });
  occurrence = none;
  count = none;
  delay_ms = none;
  duplicate_count = none;
  status_code = none;
  truncate_bytes = none;
}

abbrev call : RequestMetadata
call = record {
  method = "POST";
  path = "/v1/swap";
  delivery_id_hash = none;
  operation_id_hash = none;
  endpoint_family = some "swap";
  body_digest = "d";
  attempt_ordinal = 2;
}

abbrev same_text : String → String
same_text s = s

abbrev rule_id : ℕ → String
rule_id _ = "http-rule-1"

abbrev operations : List Operation
operations =
    asked before_forward call
    ∷ started call
    ∷ asked before_forward (record call { attempt_ordinal = 1 })
    ∷ started call
    ∷ set input
    ∷ []

fired : map (λ s. s.applied) (perform_all same_text same_text rule_id operations).rules ≡ 1 ∷ []
unfolding endpoint_families rule_fields match_fields has_known_fields parse_phase parse_action
    phase_eq is_between positive_integer if_given is_given fits_action starts_with_slash
    is_operation_codes is_fit_match validate_rule is_ordinal is_text_of match_fits rule_matches
    no_counts new_gateway enqueue add_rule set_rule clear_rules reset or_dash attempt_key same_texts
    attempts_of set_attempts make_room begin apply_once take_first is_candidate take record_forward
    record_response count_action record_action perform perform_all begun_since
fired = refl

perform_all-le_example :
    All Budgeted (perform_all same_text same_text rule_id operations).rules
    × (length (perform_all same_text same_text rule_id operations).requests ≤ 1024)
perform_all-le_example = perform_all-le same_text same_text rule_id operations

begin-ordinal_example :
    (begin call (perform_all same_text same_text rule_id operations)).0.attempt_ordinal
    ≡ begun_since operations (attempt_key call) + 1
begin-ordinal_example = begin-ordinal same_text same_text rule_id operations call
