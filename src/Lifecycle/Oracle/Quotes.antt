-- ===== src/Lifecycle/Oracle/Quotes.antt =====
-- The quotes of mints never go back.
use cashu_fault_lab.Common.{
  ◌≤◌, String, ◌≡◌, refl, ◌∙◌, inl, inr, Option, some, Bool-cases, List, [], ◌∷◌, str_eq, eq_iff,
  get, put, get-put, ok, arith, bind-eq-ok,
}
use cashu_fault_lab.Delivery.Platform.{Platform}
use cashu_fault_lab.Lifecycle.Oracle.Model.{
  QuoteObservation, ObservationBody, operation_observed, phase_observed, value_moved,
  request_dispatched, mint_quote_observed, proof_state_observed, lightning_settlement_observed,
  outputs_persisted, LifecycleObservation, LifecycleEvaluation,
}
use cashu_fault_lab.Lifecycle.Oracle.Balances.{natural}
use cashu_fault_lab.Lifecycle.Oracle.Evaluate.{
  observe_operation, observe_phase, observe_movement, observe_request, observe_quote, observe_proof,
  observe_settlement, observe_outputs, observe_body, observe, evaluate, check_quote,
}

-- A later observation of one quote.
pub record NoEarlier (p q : QuoteObservation) : Type 0 where
  pub owner : q.operation_id ≡ p.operation_id
  pub paid : natural p.amount_paid ≤ natural q.amount_paid
  pub issued : natural p.amount_issued ≤ natural q.amount_issued
  pub updated : natural p.updated_at ≤ natural q.updated_at

NoEarlier-refl : (p : QuoteObservation) → NoEarlier p p
NoEarlier-refl p = record {
  owner = refl;
  paid = omega arith;
  issued = omega arith;
  updated = omega arith;
}

NoEarlier-trans : (p q r : QuoteObservation) → NoEarlier p q → NoEarlier q r → NoEarlier p r
NoEarlier-trans p q r a b = record {
  owner = b.owner ∙ a.owner;
  paid = ground (arith, a.paid, b.paid);
  issued = ground (arith, a.issued, b.issued);
  updated = ground (arith, a.updated, b.updated);
}

check_quote-NoEarlier : (p q : QuoteObservation) → check_quote (some p) q ≡ ok tt → NoEarlier p q
unfolding check_quote
check_quote-NoEarlier p q e = record {
  owner = ground (arith, eq_iff p.operation_id q.operation_id);
  paid = ground arith;
  issued = ground arith;
  updated = ground arith;
}

-- the quote under a key is there again, no earlier
abbrev QuoteKept : LifecycleEvaluation → LifecycleEvaluation → String → QuoteObservation → Type 0
QuoteKept e e' k p = (q : QuoteObservation) × (get e'.quotes k ≡ some q) × NoEarlier p q

same_quotes :
    (e e' : LifecycleEvaluation) (k : String) (p : QuoteObservation)
    → get e.quotes k ≡ some p
    → e'.quotes ≡ e.quotes
    → QuoteKept e e' k p
same_quotes e e' k p f s = (p, rw s f, NoEarlier-refl p)

observe_quote-kept :
    (o : QuoteObservation) (e e' : LifecycleEvaluation) (k : String) (p : QuoteObservation)
    → get e.quotes k ≡ some p
    → observe_quote o e ≡ ok e'
    → QuoteKept e e' k p
unfolding observe_quote
observe_quote-kept o e e' k p f h =
    let s : e'.quotes ≡ put e.quotes o.quote_hash o = ground arith in
    let c : check_quote (get e.quotes o.quote_hash) o ≡ ok tt = ground arith in
    elim (Bool-cases (str_eq o.quote_hash k)) [
      | inl same ↦
          let n : o.quote_hash ≡ k = (eq_iff o.quote_hash k).0 same in
          (
            o,
            rw s (ground (arith, get-put e.quotes o.quote_hash o k)),
            check_quote-NoEarlier p o (ground arith),
          )
      | inr different ↦
          (p, rw s (ground (arith, get-put e.quotes o.quote_hash o k)), NoEarlier-refl p)
    ]

module _ (platform : Platform) where
  observe_body-quotes :
      (o : ObservationBody) (v : Option String) (e e' : LifecycleEvaluation) (k : String)
      (p : QuoteObservation)
      → get e.quotes k ≡ some p
      → observe_body platform o v e ≡ ok e'
      → QuoteKept e e' k p
  unfolding observe_body observe_operation observe_phase observe_movement observe_request
      observe_proof observe_settlement observe_outputs
  observe_body-quotes (mint_quote_observed o) v e e' k p f h = observe_quote-kept o e e' k p f h
  observe_body-quotes (operation_observed o) v e e' k p f h = same_quotes e e' k p f (ground arith)
  observe_body-quotes (phase_observed id phase evidence) v e e' k p f h =
      same_quotes e e' k p f (ground arith)
  observe_body-quotes (value_moved o) v e e' k p f h = same_quotes e e' k p f (ground arith)
  observe_body-quotes (request_dispatched o) v e e' k p f h = same_quotes e e' k p f (ground arith)
  observe_body-quotes (proof_state_observed o) v e e' k p f h =
      same_quotes e e' k p f (ground arith)
  observe_body-quotes (lightning_settlement_observed o) v e e' k p f h =
      same_quotes e e' k p f (ground arith)
  observe_body-quotes (outputs_persisted o) v e e' k p f h = same_quotes e e' k p f (ground arith)

-- Where the oracle accepts further observations, every mint quote that was observed before keeps
-- its operation, and neither the amount paid, the amount issued nor the time of its update goes
-- back.
pub evaluate-quotes :
    (platform : Platform) (os : List LifecycleObservation) (e e' : LifecycleEvaluation) (k : String)
    (p : QuoteObservation)
    → get e.quotes k ≡ some p
    → evaluate platform os e ≡ ok e'
    → (q : QuoteObservation) × (get e'.quotes k ≡ some q) × NoEarlier p q
unfolding evaluate observe
evaluate-quotes platform [] e e' k p f h = same_quotes e e' k p f (ground arith)
evaluate-quotes platform (o ∷ os) e e' k p f h =
    let (next, step, rest) = bind-eq-ok (observe platform o e) _ h in
    let (q, fq, l) = observe_body-quotes platform o.body o.provenance e next k p f (ground arith) in
    let (r, fr, m) = evaluate-quotes platform os next e' k q fq rest in
    (r, fr, NoEarlier-trans p q r l m)
