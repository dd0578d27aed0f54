-- ===== src/Gateway/Rules.antt =====
-- apps/http-fault-gateway/src/rules.ts. The texts in upper case and the digest of an operation ID are
-- parameters.
use cashu_fault_lab.Common.{
  ℕ, ◌+◌, String, Bool, true, false, ◌&&◌, ◌||◌, not, Option, none, some, List, [], ◌∷◌, all,
  Number, nat, leb, ◌==◌, str_eq, is_blank, codes, includes, is_base64url, is_safe_nonnegative,
  if◌then◌else◌, Result, ok, err, ◌>>=◌, ◌>>◌, ensure,
}

pub data FaultPhase : Type 0 where
  before_forward after_downstream_commit after_downstream_response : FaultPhase

pub data FaultAction : Type 0 where
  drop delay duplicate reorder status stale_response truncate : FaultAction

-- The fields that are there, `keys`, and their values. The phase, the action and the family are any
-- text.
pub record FaultMatch : Type 0 where
  pub keys : List String
  pub method : Option String
  pub path : Option String
  pub delivery_id_hash : Option String
  pub operation_id : Option String
  pub endpoint_family : Option String
  pub attempt_ordinal : Option Number

-- a member that is absent is `none`; an explicit null is outside the model
pub record FaultRuleInput : Type 0 where
  pub keys : List String
  pub phase : String
  pub action : String
  pub match_on : Option FaultMatch
  pub occurrence : Option Number
  pub count : Option Number
  pub delay_ms : Option Number
  pub duplicate_count : Option Number
  pub status_code : Option Number
  pub truncate_bytes : Option Number

pub record FaultRule : Type 0 where
  pub id : String
  pub count : ℕ
  pub phase : FaultPhase
  pub action : FaultAction
  pub input : FaultRuleInput

pub record RequestMetadata : Type 0 where
  pub method : String
  pub path : String
  pub delivery_id_hash : Option String
  pub operation_id_hash : Option String
  pub endpoint_family : Option String
  pub body_digest : String
  pub attempt_ordinal : ℕ

abbrev pub Valid : Type 0 → Type 0
Valid A = Result (Unit {0}) A

unfoldable pub endpoint_families : List String
endpoint_families = "mint" ∷ "swap" ∷ "melt" ∷ "quote" ∷ "proof_state" ∷ "restore" ∷ []

unfoldable pub rule_fields : List String
rule_fields =
    "phase" ∷ "action" ∷ "match" ∷ "occurrence" ∷ "count" ∷ "delayMs" ∷ "duplicateCount"
    ∷ "statusCode" ∷ "truncateBytes" ∷ []

unfoldable pub match_fields : List String
match_fields =
    "method" ∷ "path" ∷ "deliveryIdHash" ∷ "operationId" ∷ "endpointFamily" ∷ "attemptOrdinal" ∷ []

-- rejectUnknownFields does not throw
unfoldable pub has_known_fields : List String → List String → Bool
has_known_fields keys allowed = all (includes allowed) keys

-- PHASES and ACTIONS
unfoldable pub parse_phase : String → Valid FaultPhase
parse_phase s =
    if str_eq s "before_forward"
    then ok before_forward
    else if str_eq s "after_downstream_commit"
    then ok after_downstream_commit
    else if str_eq s "after_downstream_response"
    then ok after_downstream_response
    else err tt

unfoldable pub parse_action : String → Valid FaultAction
parse_action s =
    if str_eq s "drop"
    then ok drop
    else if str_eq s "delay"
    then ok delay
    else if str_eq s "duplicate"
    then ok duplicate
    else if str_eq s "reorder"
    then ok reorder
    else if str_eq s "status"
    then ok status
    else if str_eq s "stale_response"
    then ok stale_response
    else if str_eq s "truncate"
    then ok truncate
    else err tt

unfoldable pub phase_eq : FaultPhase → FaultPhase → Bool
phase_eq before_forward before_forward = true
phase_eq after_downstream_commit after_downstream_commit = true
phase_eq after_downstream_response after_downstream_response = true
phase_eq _ _ = false

unfoldable pub is_between : ℕ → ℕ → Number → Bool
is_between least most (nat n) = leb least n && leb n most
is_between least most _ = false

unfoldable pub positive_integer : Option Number → ℕ → Valid ℕ
positive_integer none fallback = ok fallback
positive_integer (some (nat n)) fallback = if leb 1 n && leb n 10000 then ok n else err tt
positive_integer (some _) fallback = err tt

unfoldable pub if_given {ℓ} : {A : Type ℓ} → (A → Bool) → Option A → Bool
if_given test none = true
if_given test (some a) = test a

unfoldable pub is_given {ℓ} : {A : Type ℓ} → (A → Bool) → Option A → Bool
is_given test none = false
is_given test (some a) = test a

-- the tests of the action
unfoldable pub fits_action : FaultAction → FaultPhase → FaultRuleInput → Bool
fits_action duplicate phase input =
    if_given (is_between 1 10000) input.duplicate_count && phase_eq phase before_forward
fits_action reorder phase input = phase_eq phase before_forward
fits_action status phase input = is_given (is_between 100 599) input.status_code
fits_action stale_response phase input = phase_eq phase after_downstream_response
fits_action truncate phase input =
    phase_eq phase after_downstream_response && is_given (is_between 0 65536) input.truncate_bytes
fits_action _ phase input = true

unfoldable pub starts_with_slash : List ℕ → Bool
starts_with_slash [] = false
starts_with_slash (c ∷ cs) = c == b'/'

-- /^[A-Za-z0-9_-]{21}[AQgw]$/
unfoldable pub is_operation_codes : ℕ → List ℕ → Bool
is_operation_codes n [] = false
is_operation_codes n (c ∷ []) = n == 21 && (c == b'A' || c == b'Q' || c == b'g' || c == b'w')
is_operation_codes n (c ∷ d ∷ cs) = is_base64url c && is_operation_codes (n + 1) (d ∷ cs)

unfoldable pub is_fit_match : FaultMatch → Bool
is_fit_match m =
    has_known_fields m.keys match_fields
    && if_given (is_between 1 10000) m.attempt_ordinal
    && if_given (λ s. not (is_blank s)) m.method
    && if_given (λ s. starts_with_slash (codes s)) m.path
    && if_given (includes endpoint_families) m.endpoint_family
    && if_given (λ s. is_operation_codes 0 (codes s)) m.operation_id

unfoldable pub validate_rule : String → FaultRuleInput → Valid FaultRule
validate_rule id input = do
  ensure (has_known_fields input.keys rule_fields) tt
  phase ← parse_phase input.phase
  action ← parse_action input.action
  count ← positive_integer input.count 1
  ensure (if_given (is_between 1 10000) input.occurrence) tt
  ensure (if_given is_safe_nonnegative input.delay_ms) tt
  ensure (fits_action action phase input) tt
  ensure (if_given is_fit_match input.match_on) tt
  ok (record { id = id; count = count; phase = phase; action = action; input = input })

-- the number of a rule is the request's
unfoldable pub is_ordinal : ℕ → Number → Bool
is_ordinal n (nat m) = m == n
is_ordinal n _ = false

-- wanted === actual, where the request has one
unfoldable pub is_text_of : Option String → String → Bool
is_text_of actual wanted = is_given (str_eq wanted) actual

module _ (to_upper_case operation_id_hash : String → String) where
  unfoldable pub match_fits : FaultMatch → RequestMetadata → Bool
  match_fits m metadata =
      if_given (λ s. str_eq (to_upper_case s) metadata.method) m.method
      && if_given (λ s. str_eq s metadata.path) m.path
      && if_given (is_text_of metadata.delivery_id_hash) m.delivery_id_hash
      && if_given (λ s. is_text_of metadata.operation_id_hash (operation_id_hash s)) m.operation_id
      && if_given (is_text_of metadata.endpoint_family) m.endpoint_family
      && if_given (is_ordinal metadata.attempt_ordinal) m.attempt_ordinal

  unfoldable pub rule_matches : FaultRule → FaultPhase → RequestMetadata → Bool
  rule_matches rule phase metadata =
      phase_eq rule.phase phase
      && if_given (is_ordinal metadata.attempt_ordinal) rule.input.occurrence
      && if_given (λ m. match_fits m metadata) rule.input.match_on
