-- ===== src/Gateway/Ordinals.antt =====
-- How the gateway numbers the attempts of a request.
use cashu_fault_lab.Common.{
  ℕ, ◌+◌, ◌≡◌, ◌↔◌, ◌∙◌, refl, ap, String, true, List, [], ◌∷◌, eq_iff, arith, if◌then◌else◌, ok,
  err,
}
use cashu_fault_lab.Gateway.Rules.{FaultRule, RequestMetadata, Valid, validate_rule}
use cashu_fault_lab.Gateway.Control.{
  GatewayControl, new_gateway, enqueue, add_rule, set_rule, clear_rules, reset, attempt_key,
  same_texts, attempts_of, set_attempts, begin, take, record_forward, record_response,
  record_action,
}
use cashu_fault_lab.Gateway.Bounds.{
  Operation, set, clear, start_over, responded, started, asked, forwarded, acted, perform,
  perform_all,
}

same_texts_iff : (ss ts : List String) → (same_texts ss ts ≡ true) ↔ (ss ≡ ts)
unfolding same_texts
same_texts_iff [] [] = ground arith
same_texts_iff [] (t ∷ ts) = ground arith
same_texts_iff (s ∷ ss) [] = ground arith
same_texts_iff (s ∷ ss) (t ∷ ts) = ground (arith, eq_iff s t, same_texts_iff ss ts)

attempts_of-set_attempts :
    (m : List (List String × ℕ)) (key : List String) (n : ℕ) (other : List String)
    → attempts_of (set_attempts m key n) other
      ≡ (if same_texts key other then n else attempts_of m other)
unfolding attempts_of set_attempts
attempts_of-set_attempts [] key n other = refl
attempts_of-set_attempts ((k, i) ∷ m) key n other = ground (
  arith,
  same_texts_iff k key,
  same_texts_iff k other,
  same_texts_iff key other,
  attempts_of-set_attempts m key n other,
)

-- the requests with this key that were begun since the last reset
unfoldable pub begun_since : List Operation → List String → ℕ
begun_since [] key = 0
begun_since (start_over ∷ os) key = 0
begun_since (started input ∷ os) key =
    let rest = begun_since os key in if same_texts (attempt_key input) key then rest + 1 else rest
begun_since (_ ∷ os) key = begun_since os key

add_rule-attempts :
    (r : Valid FaultRule) (c : GatewayControl) → (add_rule r c).1.attempts ≡ c.attempts
unfolding add_rule enqueue
add_rule-attempts (ok rule) c = refl
add_rule-attempts (err e) c = refl

started_once :
    (m : List (List String × ℕ)) (key other : List String) (n k : ℕ)
    → attempts_of m key ≡ n
    → attempts_of m other ≡ k
    → (key ≡ other → n ≡ k)
    → attempts_of (set_attempts m key (attempts_of m key + 1)) other
      ≡ (if same_texts key other then k + 1 else k)
started_once m key other n k e f h =
    ground (
      arith,
      same_texts_iff key other,
      attempts_of-set_attempts m key (attempts_of m key + 1) other,
    )

module _ (to_upper_case operation_id_hash : String → String) (rule_id : ℕ → String) where
  attempts_of-perform_all :
      (os : List Operation) (key : List String)
      → attempts_of (perform_all to_upper_case operation_id_hash rule_id os).attempts key
        ≡ begun_since os key
  unfolding perform_all perform new_gateway set_rule clear_rules reset record_response begin take
      record_forward record_action begun_since attempts_of
  attempts_of-perform_all [] key = refl
  attempts_of-perform_all (set input ∷ os) key =
      ap (λ z. attempts_of z key) (add_rule-attempts (validate_rule _ input) _)
      ∙ attempts_of-perform_all os key
  attempts_of-perform_all (clear ∷ os) key = attempts_of-perform_all os key
  attempts_of-perform_all (start_over ∷ os) key = refl
  attempts_of-perform_all (responded ∷ os) key = attempts_of-perform_all os key
  attempts_of-perform_all (started input ∷ os) key =
      started_once (perform_all to_upper_case operation_id_hash rule_id os).attempts
        (attempt_key input) key _ _ (attempts_of-perform_all os (attempt_key input))
        (attempts_of-perform_all os key) (λ e. ap (begun_since os) e)
  attempts_of-perform_all (asked phase metadata ∷ os) key = attempts_of-perform_all os key
  attempts_of-perform_all (forwarded count ∷ os) key = attempts_of-perform_all os key
  attempts_of-perform_all (acted action extra ∷ os) key = attempts_of-perform_all os key

  -- A request that the gateway begins is numbered by the requests with the same method, path and
  -- hashes that were begun before it since the last reset, whatever else happened in between.
  pub begin-ordinal :
      (os : List Operation) (input : RequestMetadata)
      → (begin input (perform_all to_upper_case operation_id_hash rule_id os)).0.attempt_ordinal
        ≡ begun_since os (attempt_key input) + 1
  unfolding begin
  begin-ordinal os input = ap (λ n. n + 1) (attempts_of-perform_all os (attempt_key input))
