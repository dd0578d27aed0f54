-- ===== src/Lifecycle/Transitions.antt =====
-- What transitionOperation accepts, and what any sequence of transitions keeps.
use cashu_fault_lab.Common.{
  String, Bool, true, false, ◌≡◌, ◌≤◌, ◌⊎◌, ◌↔◌, inl, inr, refl, Option, none, some, List, [], ◌∷◌,
  eq_iff, ok, err, Result-cases, Bool-cases, arith, All, codes, length,
}
use cashu_fault_lab.Lifecycle.Identity.{all-All, IsIdentity, parse_identity_iff}
use mathlib.Core.Path.{subst}
use cashu_fault_lab.Delivery.Platform.{Platform}
use cashu_fault_lab.Lifecycle.Operation.{
  LifecyclePhase, created, prepared, submitted, ambiguous, reconciling, succeeded,
  failed_definitive, recovery_blocked, LifecycleOperationIdentity, LifecycleOperationRecord,
  may_follow, is_evidenced, is_word, matches_up_to, parse_evidence_code, same_evidence,
  LifecyclePhase-discrete, create_operation, repeat_phase, enter_phase, repeat_or_enter,
  transition_operation,
}

-- the characters of an evidence code
abbrev pub IsCode : String → Type 0
IsCode code =
    All (λ c. is_word c ≡ true) (codes code)
    × (1 ≤ length (codes code))
    × (length (codes code) ≤ 64)

-- the phases that end an operation without success
pub data Unsuccessful : LifecyclePhase → Type 0 where
  failed : Unsuccessful failed_definitive
  blocked : Unsuccessful recovery_blocked

-- an evidence code exactly in the phases that end without success
abbrev pub Fits : Option String → LifecyclePhase → Type 0
Fits none phase = ¬ Unsuccessful phase
Fits (some code) phase = Unsuccessful phase × IsCode code

-- The life of an operation.
pub data Follows : LifecyclePhase → LifecyclePhase → Type 0 where
  prepares : Follows created prepared
  submits : Follows prepared submitted
  answers : Follows submitted succeeded
  loses_answer : Follows submitted ambiguous
  reconciles : Follows ambiguous reconciling
  finds_success : Follows reconciling succeeded
  finds_failure : Follows reconciling failed_definitive
  finds_block : Follows reconciling recovery_blocked

Unsuccessful-is_evidenced :
    (phase : LifecyclePhase) → Unsuccessful phase → is_evidenced phase ≡ true
unfolding is_evidenced
Unsuccessful-is_evidenced _ failed = refl
Unsuccessful-is_evidenced _ blocked = refl

is_evidenced-Unsuccessful :
    (phase : LifecyclePhase) → is_evidenced phase ≡ true → Unsuccessful phase
unfolding is_evidenced
is_evidenced-Unsuccessful failed_definitive h = failed
is_evidenced-Unsuccessful recovery_blocked h = blocked
is_evidenced-Unsuccessful created h = cc
is_evidenced-Unsuccessful prepared h = cc
is_evidenced-Unsuccessful submitted h = cc
is_evidenced-Unsuccessful ambiguous h = cc
is_evidenced-Unsuccessful reconciling h = cc
is_evidenced-Unsuccessful succeeded h = cc

may_follow-Follows : (a b : LifecyclePhase) → may_follow a b ≡ true → Follows a b
unfolding may_follow
may_follow-Follows created prepared h = prepares
may_follow-Follows prepared submitted h = submits
may_follow-Follows submitted succeeded h = answers
may_follow-Follows submitted ambiguous h = loses_answer
may_follow-Follows ambiguous reconciling h = reconciles
may_follow-Follows reconciling succeeded h = finds_success
may_follow-Follows reconciling failed_definitive h = finds_failure
may_follow-Follows reconciling recovery_blocked h = finds_block
may_follow-Follows _ _ h = absurd (ground arith)

Follows-may_follow : (a b : LifecyclePhase) → Follows a b → may_follow a b ≡ true
unfolding may_follow
Follows-may_follow _ _ prepares = refl
Follows-may_follow _ _ submits = refl
Follows-may_follow _ _ answers = refl
Follows-may_follow _ _ loses_answer = refl
Follows-may_follow _ _ reconciles = refl
Follows-may_follow _ _ finds_success = refl
Follows-may_follow _ _ finds_failure = refl
Follows-may_follow _ _ finds_block = refl

matches_up_to-IsCode : (code : String) → (matches_up_to is_word 64 code ≡ true) ↔ IsCode code
matches_up_to-IsCode code = ground (arith, all-All is_word (codes code))

parse_evidence_code_iff :
    (evidence : Option String) (phase : LifecyclePhase)
    → (parse_evidence_code evidence phase ≡ ok tt) ↔ Fits evidence phase
unfolding parse_evidence_code
parse_evidence_code_iff none phase = (
  λ h u. ground (arith, Unsuccessful-is_evidenced phase u),
  λ n. elim (Bool-cases (is_evidenced phase)) [
    | inl e ↦ absurd (n (is_evidenced-Unsuccessful phase e))
    | inr e ↦ ground arith
  ],
)
parse_evidence_code_iff (some code) phase = (
  λ h. (
    is_evidenced-Unsuccessful phase (ground arith),
    (matches_up_to-IsCode code).0 (ground arith),
  ),
  λ f. ground (arith, Unsuccessful-is_evidenced phase f.0, (matches_up_to-IsCode code).1 f.1),
)

same_evidence_iff : (a b : Option String) → (same_evidence a b ≡ true) ↔ (a ≡ b)
unfolding same_evidence
same_evidence_iff none none = ground arith
same_evidence_iff none (some b) = ground arith
same_evidence_iff (some a) none = ground arith
same_evidence_iff (some a) (some b) = ground (arith, eq_iff a b)

may_follow-other : (a : LifecyclePhase) → may_follow a a ≡ true → ⊥
unfolding may_follow
may_follow-other a h = ground arith

module _ (platform : Platform) where
  -- One step to a phase that follows, with the evidence that it asks for.
  pub record Enters (r : LifecycleOperationRecord) (next : LifecyclePhase)
      (evidence : Option String) (r' : LifecycleOperationRecord) : Type 0 where
    pub follows : Follows r.phase next
    pub identity : IsIdentity platform r.identity
    pub result : r' ≡ record r { phase = next; evidence_code = evidence }

  -- The phase that the record has already, with the evidence that it has.
  pub record Repeats (r : LifecycleOperationRecord) (next : LifecyclePhase)
      (evidence : Option String) (r' : LifecycleOperationRecord) : Type 0 where
    pub phase : r.phase ≡ next
    pub evidence_code : r.evidence_code ≡ evidence
    pub result : r' ≡ r

  repeat_or_enter_sound :
      (r : LifecycleOperationRecord) (next : LifecyclePhase) (evidence : Option String)
      (d : Dec (r.phase ≡ next)) (r' : LifecycleOperationRecord)
      → repeat_or_enter platform r next evidence d ≡ ok r'
      → Repeats r next evidence r' ⊎ Enters r next evidence r'
  unfolding repeat_or_enter repeat_phase enter_phase
  repeat_or_enter_sound r next evidence (yes same) r' e = inl (record {
    phase = same;
    evidence_code = ground (arith, same_evidence_iff r.evidence_code evidence);
    result = ground arith;
  })
  repeat_or_enter_sound r next evidence (no other) r' e = inr (record {
    follows = may_follow-Follows r.phase next (ground arith);
    identity = (parse_identity_iff platform r.identity).0 (ground arith);
    result = ground arith;
  })

  repeat_or_enter_complete :
      (r : LifecycleOperationRecord) (next : LifecyclePhase) (evidence : Option String)
      (d : Dec (r.phase ≡ next)) (r' : LifecycleOperationRecord)
      → Repeats r next evidence r' ⊎ Enters r next evidence r'
      → repeat_or_enter platform r next evidence d ≡ ok r'
  unfolding repeat_or_enter repeat_phase enter_phase
  repeat_or_enter_complete r next evidence (yes same) r' (inl h) =
      ground (arith, h.evidence_code, h.result, same_evidence_iff r.evidence_code evidence)
  repeat_or_enter_complete r next evidence (no other) r' (inl h) = absurd (other h.phase)
  repeat_or_enter_complete r next evidence (yes same) r' (inr h) = absurd (
      may_follow-other next
        (subst (λ z. may_follow z next ≡ true) same (Follows-may_follow r.phase next h.follows)))
  repeat_or_enter_complete r next evidence (no other) r' (inr h) = ground (
    arith,
    Follows-may_follow r.phase next h.follows,
    (parse_identity_iff platform r.identity).1 h.identity,
    h.result,
  )

-- transitionOperation returns a record exactly when the evidence code fits the target phase, and
-- the record repeats its phase with the same evidence or enters a phase that follows; what it
-- returns then has the same identity, the target phase and the evidence. A phase is entered only by a
-- record whose identity is well formed.
pub transition_operation_iff :
    (platform : Platform) (r : LifecycleOperationRecord) (next : LifecyclePhase)
    (evidence : Option String) (r' : LifecycleOperationRecord)
    → (transition_operation platform r next evidence ≡ ok r') ↔ (
        Fits evidence next
        × (Repeats platform r next evidence r' ⊎ Enters platform r next evidence r'))
unfolding transition_operation
transition_operation_iff platform r next evidence r' = ground (
  arith,
  parse_evidence_code_iff evidence next,
  repeat_or_enter_sound platform r next evidence (LifecyclePhase-discrete r.phase next) r',
  repeat_or_enter_complete platform r next evidence (LifecyclePhase-discrete r.phase next) r',
)

-- succeeded, failed_definitive, recovery_blocked: the phases that nothing follows
abbrev pub is_terminal : LifecyclePhase → Bool
is_terminal succeeded = true
is_terminal failed_definitive = true
is_terminal recovery_blocked = true
is_terminal _ = false

may_follow-terminal : (a b : LifecyclePhase) → is_terminal a ≡ true → may_follow a b ≡ false
unfolding may_follow
may_follow-terminal a b h = ground arith

module _ (platform : Platform) where
  -- what a caller keeps after a transition: the new record, or the one it had if that throws
  unfoldable pub attempt :
      LifecycleOperationRecord → LifecyclePhase × Option String → LifecycleOperationRecord
  attempt r (next, evidence) = elim (transition_operation platform r next evidence) [
    | ok r' ↦ r'
    | err e ↦ r
  ]

  unfoldable pub attempts :
      LifecycleOperationRecord → List (LifecyclePhase × Option String) → LifecycleOperationRecord
  unfolding attempt
  attempts r [] = r
  attempts r (x ∷ xs) = attempts (attempt r x) xs

  -- One attempt leaves the record, or enters a phase with evidence that fits.
  attempt_cases :
      (r : LifecycleOperationRecord) (x : LifecyclePhase × Option String)
      → (attempt r x ≡ r) ⊎ (Fits x.1 x.0 × Enters platform r x.0 x.1 (attempt r x))
  unfolding attempt
  attempt_cases r (next, evidence) =
      elim (Result-cases (transition_operation platform r next evidence)) [
        | inr (e, bad) ↦ inl (ground arith)
        | inl (r', good) ↦
            let (fits, how) = (transition_operation_iff platform r next evidence r').0 good in
            elim how [
              | inl h ↦ inl (rw (good, attempt) h.result)
              | inr h ↦ inr (fits, rw (good, attempt) h)
            ]
      ]

  attempts_kept :
      (r : LifecycleOperationRecord) (xs : List (LifecyclePhase × Option String))
      → Fits r.evidence_code r.phase
      → ((attempts r xs).identity ≡ r.identity)
        × Fits (attempts r xs).evidence_code (attempts r xs).phase
  unfolding attempts
  attempts_kept r [] h = (refl, h)
  attempts_kept r (x ∷ xs) h = elim (attempt_cases r x) [
    | inl e ↦ rw (e, attempts) (attempts_kept r xs h)
    | inr (fits, s) ↦ rw (s.result, attempts) (attempts_kept _ xs fits)
  ]

  attempts_terminal :
      (r : LifecycleOperationRecord) (xs : List (LifecyclePhase × Option String))
      → is_terminal r.phase ≡ true
      → attempts r xs ≡ r
  unfolding attempts
  attempts_terminal r [] h = refl
  attempts_terminal r (x ∷ xs) h = elim (attempt_cases r x) [
    | inl e ↦ rw (e, attempts) (attempts_terminal r xs h)
    | inr (fits, s) ↦ absurd (
        ground (arith, Follows-may_follow r.phase x.0 s.follows, may_follow-terminal r.phase x.0 h))
  ]

-- Through any attempted transitions a created operation keeps its identity, and has an evidence code
-- exactly in the phases that end without success; once it is in a terminal phase, no further
-- attempts change it.
pub create_operation-attempts :
    (platform : Platform) (i : LifecycleOperationIdentity) (r : LifecycleOperationRecord)
    (xs : List (LifecyclePhase × Option String))
    → create_operation platform i ≡ ok r
    → ((attempts platform r xs).identity ≡ i)
      × Fits (attempts platform r xs).evidence_code (attempts platform r xs).phase
      × ((ys : List (LifecyclePhase × Option String))
          → is_terminal (attempts platform r xs).phase ≡ true
          → attempts platform (attempts platform r xs) ys ≡ attempts platform r xs)
unfolding create_operation is_evidenced
create_operation-attempts platform i r xs e =
    let p : r ≡ record { identity = i; phase = created; evidence_code = none } = ground arith in
    let (same, fits) = attempts_kept platform r xs (rw p (λ u. elim u [ ])) in
    (rw same (rw p refl), fits, λ ys h. attempts_terminal platform (attempts platform r xs) ys h)
