-- ===== src/Lifecycle/Operation.antt =====
-- packages/wallet-lifecycle-core/src/types.ts and operation.ts
use Prim.Native.String.{◌++◌}
use cashu_fault_lab.Common.{
  ◌≡◌, ℕ, zero, suc, String, Bool, true, false, ◌&&◌, ◌||◌, Option, none, some, List, [], ◌∷◌, ◌==◌,
  leb, codes, length, all, is_blank, is_empty, is_lower, is_digit, is_base64url, is_hash, includes,
  str_eq, Result, ok, err, ◌>>◌, ensure, throw_if,
}
use cashu_fault_lab.Delivery.Platform.{Platform, Url}
use cashu_fault_lab.Delivery.MintUrl.{canonical_path}

pub data LifecyclePhase : Type 0 where
  created prepared submitted ambiguous reconciling : LifecyclePhase
  succeeded failed_definitive recovery_blocked : LifecyclePhase

pub record LifecycleOperationIdentity : Type 0 where
  pub operation_id : String
  pub kind : String
  pub mint : String
  pub unit : String
  pub intent_hash : String

pub record LifecycleOperationRecord : Type 0 where
  pub identity : LifecycleOperationIdentity
  pub open identity use *
  pub phase : LifecyclePhase
  pub evidence_code : Option String

-- the errors that are thrown, by their messages
pub data LifecycleError : Type 0 where
  operation_id_invalid kind_invalid mint_url_invalid unit_invalid : LifecycleError
  intent_hash_invalid evidence_code_invalid evidence_code_conflicts : LifecycleError
  transition_invalid : LifecycleError

unfoldable pub lifecycle_operation_kinds : List String
lifecycle_operation_kinds =
    "mint" ∷ "swap" ∷ "send" ∷ "receive" ∷ "melt" ∷ "restore" ∷ "reconcile" ∷ []

-- transitions[current].has(target)
unfoldable pub may_follow : LifecyclePhase → LifecyclePhase → Bool
may_follow created prepared = true
may_follow prepared submitted = true
may_follow submitted succeeded = true
may_follow submitted ambiguous = true
may_follow ambiguous reconciling = true
may_follow reconciling succeeded = true
may_follow reconciling failed_definitive = true
may_follow reconciling recovery_blocked = true
may_follow _ _ = false

-- evidencedTerminalPhases.has(phase)
unfoldable pub is_evidenced : LifecyclePhase → Bool
is_evidenced failed_definitive = true
is_evidenced recovery_blocked = true
is_evidenced _ = false

-- /^[A-Za-z0-9_-]{n}[AQgw]$/
unfoldable pub ends_id : ℕ → List ℕ → Bool
ends_id n [] = false
ends_id zero (c ∷ s) = (c == b'A' || c == b'Q' || c == b'g' || c == b'w') && is_empty s
ends_id (suc n) (c ∷ s) = is_base64url c && ends_id n s

unfoldable pub parse_operation_id : String → Result LifecycleError (Unit {0})
parse_operation_id value = ensure (ends_id 21 (codes value)) operation_id_invalid

unfoldable pub parse_kind : String → Result LifecycleError (Unit {0})
parse_kind value = ensure (includes lifecycle_operation_kinds value) kind_invalid

-- [a-z0-9_]
abbrev pub is_word : ℕ → Bool
is_word c = is_lower c || is_digit c || c == b'_'

-- /^[c]{1,n}$/
abbrev pub matches_up_to : (ℕ → Bool) → ℕ → String → Bool
matches_up_to class n s =
    all class (codes s) && leb 1 (length (codes s)) && leb (length (codes s)) n

unfoldable pub parse_unit : String → Result LifecycleError (Unit {0})
parse_unit value = ensure (matches_up_to (λ c. is_word c || c == b'-') 16 value) unit_invalid

unfoldable pub parse_intent_hash : String → Result LifecycleError (Unit {0})
parse_intent_hash value = ensure (is_hash value) intent_hash_invalid

unfoldable pub parse_evidence_code :
    Option String → LifecyclePhase → Result LifecycleError (Unit {0})
parse_evidence_code none phase = throw_if (is_evidenced phase) evidence_code_invalid
parse_evidence_code (some code) phase =
    ensure (is_evidenced phase && matches_up_to is_word 64 code) evidence_code_invalid

unfoldable pub same_evidence : Option String → Option String → Bool
same_evidence none none = true
same_evidence (some a) (some b) = str_eq a b
same_evidence _ _ = false

pub LifecyclePhase-discrete : Discrete LifecyclePhase
LifecyclePhase-discrete = hlevel

module _ (platform : Platform) where
  -- value is the canonical form of an HTTP URL without credentials, query and fragment
  unfoldable pub is_canonical : String → Url → Bool
  is_canonical value url =
      (str_eq url.protocol "http:" || str_eq url.protocol "https:")
      && is_blank url.username
      && is_blank url.password
      && is_blank url.search
      && is_blank url.hash
      && str_eq (url.protocol ++ ("//" ++ (url.host ++ canonical_path url.pathname))) value

  unfoldable pub parse_mint_url : String → Result LifecycleError (Unit {0})
  parse_mint_url value = elim (platform.parse_url value) [
    | none ↦ err mint_url_invalid
    | some url ↦ ensure (is_canonical value url) mint_url_invalid
  ]

  -- the five members that createOperation and transitionOperation parse
  unfoldable pub parse_identity : LifecycleOperationIdentity → Result LifecycleError (Unit {0})
  parse_identity i = do
    parse_operation_id i.operation_id
    parse_kind i.kind
    parse_mint_url i.mint
    parse_unit i.unit
    parse_intent_hash i.intent_hash

  unfoldable pub create_operation :
      LifecycleOperationIdentity → Result LifecycleError LifecycleOperationRecord
  create_operation identity = do
    parse_identity identity
    ok (record { identity = identity; phase = created; evidence_code = none })

  -- a phase that was observed before
  unfoldable pub repeat_phase :
      LifecycleOperationRecord → Option String → Result LifecycleError LifecycleOperationRecord
  repeat_phase r evidence = do
    ensure (same_evidence r.evidence_code evidence) evidence_code_conflicts
    ok r

  -- a phase that follows
  unfoldable pub enter_phase :
      LifecycleOperationRecord
      → LifecyclePhase
      → Option String
      → Result LifecycleError LifecycleOperationRecord
  enter_phase r next evidence = do
    ensure (may_follow r.phase next) transition_invalid
    parse_identity r.identity
    ok (record r { phase = next; evidence_code = evidence })

  unfoldable pub repeat_or_enter :
      (r : LifecycleOperationRecord) (next : LifecyclePhase) (evidence : Option String)
      → Dec (r.phase ≡ next)
      → Result LifecycleError LifecycleOperationRecord
  repeat_or_enter r next evidence (yes same) = repeat_phase r evidence
  repeat_or_enter r next evidence (no other) = enter_phase r next evidence

  unfoldable pub transition_operation :
      LifecycleOperationRecord
      → LifecyclePhase
      → Option String
      → Result LifecycleError LifecycleOperationRecord
  transition_operation r next evidence = do
    parse_evidence_code evidence next
    repeat_or_enter r next evidence (LifecyclePhase-discrete r.phase next)
