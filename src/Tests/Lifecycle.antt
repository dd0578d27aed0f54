-- ===== src/Tests/Lifecycle.antt =====
-- A mint operation from its creation to its end, as the oracle sees it.
use cashu_fault_lab.Common.{
  arith, ℕ, ◌≤◌, max_safe, pos, negsuc, sub_ℕ, plus, minus, All, values, String, ◌≡◌, refl, ◌⊎◌,
  ◌↔◌, true, Option, none, some, List, [], ◌∷◌, nat, ok, get, put, is_hash,
}
use cashu_fault_lab.Delivery.MintUrl.{canonical_path}
use cashu_fault_lab.Lifecycle.Operation.{
  LifecyclePhase, prepared, submitted, ambiguous, reconciling, failed_definitive,
  LifecycleOperationIdentity, LifecycleOperationRecord, lifecycle_operation_kinds, ends_id,
  parse_operation_id, parse_kind, parse_unit, parse_intent_hash, is_canonical, parse_mint_url,
  parse_identity, create_operation, transition_operation, may_follow,
}
use cashu_fault_lab.Lifecycle.Transitions.{
  Fits, Repeats, Enters, is_terminal, attempts, transition_operation_iff, create_operation-attempts,
}
use cashu_fault_lab.Lifecycle.Oracle.Model.{
  ValueMovement, QuoteObservation, operation_observed, value_moved, mint_quote_observed,
  LifecycleObservation, LifecycleEvaluation,
}
use cashu_fault_lab.Lifecycle.Oracle.Balances
use cashu_fault_lab.Lifecycle.Oracle.Evaluate
use cashu_fault_lab.Lifecycle.Oracle.Sums.{paid_into, paid_from, total_moved, FromTracked}
use cashu_fault_lab.Lifecycle.Oracle.Conservation.{evaluate-conserves}
use cashu_fault_lab.Lifecycle.Oracle.Quotes.{NoEarlier, evaluate-quotes}
use cashu_fault_lab.Lifecycle.Oracle.Quiescence.{assert_lifecycle_quiescence}
use cashu_fault_lab.Lifecycle.Oracle.Evidence.{AtRest}
use cashu_fault_lab.Lifecycle.Oracle.Rest.{assert_lifecycle_quiescence_iff}
use cashu_fault_lab.Tests.Samples.{platform, hash, mint}

lifecycle : Unit {0}
unfolding is_hash get put canonical_path lifecycle_operation_kinds ends_id parse_operation_id
    parse_kind parse_unit parse_intent_hash is_canonical parse_mint_url parse_identity
    create_operation may_follow Balances.or_fail Balances.is_identifier Balances.is_effect_id
    Balances.is_unit Balances.after_prefix Balances.has_prefix Balances.safe_nonnegative
    Balances.safe_positive Balances.valid_account Balances.tracked_account Balances.balance_key
    Balances.same_movement Balances.balance_at Balances.valid_movement Balances.withdrawn
    Balances.deposit Balances.move_value Evaluate.provenances Evaluate.valid_provenance
    Evaluate.same_operation Evaluate.operation_for Evaluate.first_kept Evaluate.check_quote
    Evaluate.observe_operation Evaluate.observe_movement Evaluate.observe_quote
    Evaluate.observe_body Evaluate.observe Evaluate.evaluate plus minus sub_ℕ total_moved
lifecycle = tt

abbrev identity : LifecycleOperationIdentity
identity = record {
  operation_id = "AAAAAAAAAAAAAAAAAAAAAA";
  kind = "mint";
  mint = mint;
  unit = "sat";
  intent_hash = hash;
}

abbrev operation : LifecycleOperationRecord
operation = record { identity = identity; phase = LifecyclePhase.created; evidence_code = none }

abbrev ready : LifecycleOperationRecord
ready = record operation { phase = prepared }

operation_is_created : create_operation platform identity ≡ ok operation
unfolding lifecycle
operation_is_created = refl

transition_operation_iff_example :
    (transition_operation platform operation prepared none ≡ ok ready) ↔ (
      Fits none prepared
      × (Repeats platform operation prepared none ready
          ⊎ Enters platform operation prepared none ready))
transition_operation_iff_example = transition_operation_iff platform operation prepared none ready

abbrev path : List (LifecyclePhase × Option String)
path =
    (prepared, none)
    ∷ (submitted, none)
    ∷ (ambiguous, none)
    ∷ (reconciling, none)
    ∷ (failed_definitive, some "quote_expired")
    ∷ []

create_operation-attempts_example :
    ((attempts platform operation path).identity ≡ identity)
    × Fits (attempts platform operation path).evidence_code (attempts platform operation path).phase
    × ((ys : List (LifecyclePhase × Option String))
        → is_terminal (attempts platform operation path).phase ≡ true
        → attempts platform (attempts platform operation path) ys
          ≡ attempts platform operation path)
create_operation-attempts_example =
    create_operation-attempts platform identity operation path operation_is_created

abbrev movement : ValueMovement
movement = record {
  operation_id = "AAAAAAAAAAAAAAAAAAAAAA";
  effect_id = "mint-1";
  unit = "sat";
  amount = nat 8;
  from = "external:faucet";
  to = "wallet:alice:available";
}

abbrev quote : QuoteObservation
quote = record {
  operation_id = "AAAAAAAAAAAAAAAAAAAAAA";
  quote_hash = hash;
  amount_paid = nat 8;
  amount_issued = nat 0;
  updated_at = nat 1;
}

abbrev seen : List LifecycleObservation
seen =
    record { body = operation_observed operation; provenance = none }
    ∷ record { body = value_moved movement; provenance = some "mint" }
    ∷ record { body = value_moved movement; provenance = some "durable_state" }
    ∷ record { body = mint_quote_observed quote; provenance = none }
    ∷ []

abbrev after : LifecycleEvaluation
after = record Evaluate.empty_evaluation {
  operations = ("AAAAAAAAAAAAAAAAAAAAAA", operation) ∷ [];
  balances = ("sat\0external:faucet", negsuc 7) ∷ ("sat\0wallet:alice:available", pos 8) ∷ [];
  effects = ("mint-1", movement) ∷ [];
  quotes = (hash, quote) ∷ [];
}

seen_evaluates : Evaluate.evaluate platform seen Evaluate.empty_evaluation ≡ ok after
unfolding lifecycle
seen_evaluates = refl

exact : (a b : ℕ) → a ≤ max_safe → b ≤ max_safe → platform.round (sub_ℕ a b) ≡ sub_ℕ a b
exact a b h k = refl

after_is_safe : total_moved after.effects ≤ max_safe
unfolding lifecycle
after_is_safe = omega arith

evaluate-conserves_example :
    let key : String = "sat\0wallet:alice:available" in
    (Balances.balance_at after.balances key
      ≡ sub_ℕ (paid_into after.effects key) (paid_from after.effects key))
    × (FromTracked after.effects key → paid_from after.effects key ≤ paid_into after.effects key)
evaluate-conserves_example =
    evaluate-conserves platform seen after exact seen_evaluates after_is_safe
      "sat\0wallet:alice:available"

abbrev issued : QuoteObservation
issued = record quote { amount_issued = nat 8; updated_at = nat 2 }

abbrev more : List LifecycleObservation
more = record { body = mint_quote_observed issued; provenance = none } ∷ []

abbrev finished : LifecycleEvaluation
finished = record after { quotes = (hash, issued) ∷ [] }

more_evaluates : Evaluate.evaluate platform more after ≡ ok finished
unfolding lifecycle
more_evaluates = refl

quote_is_there : get after.quotes hash ≡ some quote
unfolding lifecycle
quote_is_there = refl

evaluate-quotes_example :
    (q : QuoteObservation) × (get finished.quotes hash ≡ some q) × NoEarlier quote q
evaluate-quotes_example =
    evaluate-quotes platform more after finished hash quote quote_is_there more_evaluates

assert_lifecycle_quiescence_iff_example : (assert_lifecycle_quiescence platform seen ≡ ok tt) ↔ (
    (e : LifecycleEvaluation) × (Evaluate.evaluate platform seen Evaluate.empty_evaluation ≡ ok e)
    × All (AtRest seen e) (values e.operations))
assert_lifecycle_quiescence_iff_example = assert_lifecycle_quiescence_iff platform seen
