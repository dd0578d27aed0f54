-- ===== src/Lifecycle/Oracle/Evidence.antt =====
-- packages/wallet-lifecycle-oracle/src/invariants.ts: the evidence that an operation leaves, described by
-- its kind.
use Prim.Native.String.{◌++◌}
use cashu_fault_lab.Common.{
  String, true, ◌≡◌, ◌≢◌, ◌↔◌, refl, inl, inr, some, List, [], ◌∷◌, arith, any, Member, here, there,
  any-Member, Member-any, includes-Member, Member-includes, Option-cases, Bool-cases, eq_iff,
  str_eq, includes, Map, get, has, values,
}
use cashu_fault_lab.Lifecycle.Operation.{
  LifecyclePhase, created, prepared, submitted, ambiguous, reconciling, succeeded,
  failed_definitive, recovery_blocked, LifecycleOperationRecord,
}
use cashu_fault_lab.Lifecycle.Oracle.Model.{
  ValueMovement, RequestDispatch, QuoteObservation, ProofObservation, SettlementObservation,
  OutputsObservation, ObservationBody, operation_observed, phase_observed, value_moved,
  request_dispatched, mint_quote_observed, proof_state_observed, lightning_settlement_observed,
  outputs_persisted, LifecycleObservation, LifecycleEvaluation,
}
use cashu_fault_lab.Lifecycle.Oracle.Quiescence.{
  is_quiescent_phase, is_succeeded, request_kind, is_proof_of, has_proof, has_request,
}

-- the request that an operation of each kind has made once it succeeded
pub data Requests : String → String → Type 0 where
  mint_request : Requests "mint" "mint"
  melt_request : Requests "melt" "melt"
  swap_request : Requests "swap" "swap"
  send_request : Requests "send" "swap"
  receive_request : Requests "receive" "swap"

-- a phase that ends an operation
pub data Ended : LifecyclePhase → Type 0 where
  succeeds : Ended succeeded
  fails : Ended failed_definitive
  blocks : Ended recovery_blocked

-- The evidence that an operation that succeeded has left, by its kind.
pub record Evidenced (observations : List LifecycleObservation) (e : LifecycleEvaluation)
    (id kind : String) : Type 0 where
  pub outputs :
      Member kind ("mint" ∷ "swap" ∷ "receive" ∷ "restore" ∷ [])
      → (o : OutputsObservation) × (get e.outputs id ≡ some o)
  pub settlement :
      kind ≡ "melt"
      → (o : SettlementObservation) × Member o (values e.settlements) × (o.operation_id ≡ id)
  pub request :
      (name : String)
      → Requests kind name
      → (o : RequestDispatch) × (get e.requests (id ++ ("\0" ++ name)) ≡ some o)
  pub quote :
      kind ≡ "mint" → (q : QuoteObservation) × Member q (values e.quotes) × (q.operation_id ≡ id)
  pub proofs :
      Member kind ("swap" ∷ "send" ∷ "receive" ∷ "melt" ∷ [])
      → (o : LifecycleObservation) × (p : ProofObservation) × Member o observations
        × (o.body ≡ proof_state_observed p)
        × (p.operation_id ≡ id)
  pub effect :
      kind ≢ "reconcile" → (v : ValueMovement) × Member v (values e.effects) × (v.operation_id ≡ id)

-- An operation that is at rest.
pub record AtRest (observations : List LifecycleObservation) (e : LifecycleEvaluation)
    (operation : LifecycleOperationRecord) : Type 0 where
  pub phase : Ended operation.phase
  pub evidence :
      operation.phase ≡ succeeded → Evidenced observations e operation.operation_id operation.kind

pub is_quiescent_phase_iff : (p : LifecyclePhase) → (is_quiescent_phase p ≡ true) ↔ Ended p
unfolding is_quiescent_phase
is_quiescent_phase_iff created = ((λ h. cc), (λ h. elim h [ ]))
is_quiescent_phase_iff prepared = ((λ h. cc), (λ h. elim h [ ]))
is_quiescent_phase_iff submitted = ((λ h. cc), (λ h. elim h [ ]))
is_quiescent_phase_iff ambiguous = ((λ h. cc), (λ h. elim h [ ]))
is_quiescent_phase_iff reconciling = ((λ h. cc), (λ h. elim h [ ]))
is_quiescent_phase_iff succeeded = ((λ _. succeeds), (λ _. refl))
is_quiescent_phase_iff failed_definitive = ((λ _. fails), (λ _. refl))
is_quiescent_phase_iff recovery_blocked = ((λ _. blocks), (λ _. refl))

pub is_succeeded_iff : (p : LifecyclePhase) → (is_succeeded p ≡ true) ↔ (p ≡ succeeded)
unfolding is_succeeded
is_succeeded_iff p = ground arith

pub includes_iff : (xs : List String) (s : String) → (includes xs s ≡ true) ↔ Member s xs
includes_iff xs s = (includes-Member xs s, Member-includes xs)

pub has_iff {ℓ} :
    {V : Type ℓ} (m : Map V) (k : String) → (has m k ≡ true) ↔ ((v : V) × (get m k ≡ some v))
has_iff m k = (
  λ h. elim (Option-cases (get m k)) [ inl e ↦ absurd (ground arith) | inr (v, e) ↦ (v, e) ],
  λ (v, e). rw e refl,
)

-- a value of an operation among others
pub named_iff :
    {V : Type 0} (name : V → String) (id : String) (vs : List V)
    → (any (λ v. str_eq (name v) id) vs ≡ true) ↔ ((v : V) × Member v vs × (name v ≡ id))
named_iff name id vs = (
  λ h. let (v, m, e) = any-Member (λ v. str_eq (name v) id) vs h in (v, m, (eq_iff _ id).0 e),
  λ (v, m, e). Member-any (λ v. str_eq (name v) id) vs m ((eq_iff _ id).1 e),
)

is_proof_of-eq :
    (id : String) (o : LifecycleObservation) (b : ObservationBody)
    → o.body ≡ b
    → is_proof_of id o ≡ true
    → (p : ProofObservation) × (o.body ≡ proof_state_observed p) × (p.operation_id ≡ id)
unfolding is_proof_of
is_proof_of-eq id o (proof_state_observed p) e h =
    (p, e, (eq_iff p.operation_id id).0 (ground arith))
is_proof_of-eq id o (operation_observed _) e h = absurd (ground arith)
is_proof_of-eq id o (phase_observed _ _ _) e h = absurd (ground arith)
is_proof_of-eq id o (value_moved _) e h = absurd (ground arith)
is_proof_of-eq id o (request_dispatched _) e h = absurd (ground arith)
is_proof_of-eq id o (mint_quote_observed _) e h = absurd (ground arith)
is_proof_of-eq id o (lightning_settlement_observed _) e h = absurd (ground arith)
is_proof_of-eq id o (outputs_persisted _) e h = absurd (ground arith)

pub has_proof_iff :
    (observations : List LifecycleObservation) (id : String)
    → (has_proof observations id ≡ true) ↔ (
        (o : LifecycleObservation) × (p : ProofObservation) × Member o observations
        × (o.body ≡ proof_state_observed p)
        × (p.operation_id ≡ id))
unfolding has_proof is_proof_of
has_proof_iff observations id = (
  λ h.
      let (o, m, e) = any-Member (is_proof_of id) observations h in
      let (p, body, same) = is_proof_of-eq id o o.body refl e in (o, p, m, body, same),
  λ (o, p, m, body, same).
      Member-any (is_proof_of id) observations m (rw body ((eq_iff p.operation_id id).1 same)),
)

request_kind-Requests : (kind name : String) → Requests kind name → request_kind kind ≡ some name
unfolding request_kind
request_kind-Requests _ _ mint_request = refl
request_kind-Requests _ _ melt_request = refl
request_kind-Requests _ _ swap_request = refl
request_kind-Requests _ _ send_request = refl
request_kind-Requests _ _ receive_request = refl

Requests-swap :
    (kind : String) → Member kind ("swap" ∷ "send" ∷ "receive" ∷ []) → Requests kind "swap"
Requests-swap _ here = swap_request
Requests-swap _ (there here) = send_request
Requests-swap _ (there (there here)) = receive_request
Requests-swap _ (there (there (there m))) = elim m [ ]

Requests-request_kind : (kind name : String) → request_kind kind ≡ some name → Requests kind name
unfolding request_kind
Requests-request_kind kind name h = elim (Bool-cases (str_eq kind "mint")) [
  | inl a ↦
      let k = (eq_iff kind "mint").0 a in
      let n : name ≡ "mint" = ground arith in rw (k, n) mint_request
  | inr a ↦ elim (Bool-cases (str_eq kind "melt")) [
    | inl b ↦
        let k = (eq_iff kind "melt").0 b in
        let n : name ≡ "melt" = ground arith in rw (k, n) melt_request
    | inr b ↦ elim (Bool-cases (includes ("swap" ∷ "send" ∷ "receive" ∷ []) kind)) [
      | inl c ↦
          let n : name ≡ "swap" = ground arith in
          rw n (Requests-swap kind (includes-Member _ kind c))
      | inr c ↦ absurd (ground arith)
    ]
  ]
]

pub has_request_iff :
    (e : LifecycleEvaluation) (operation : LifecycleOperationRecord)
    → (has_request e operation ≡ true) ↔ (
        (name : String)
        → Requests operation.kind name
        → (o : RequestDispatch) × (get e.requests (operation.operation_id ++ ("\0" ++ name))
            ≡ some o))
unfolding has_request
has_request_iff e operation = (
  λ h name r.
      (has_iff e.requests _).0 (ground (arith, request_kind-Requests operation.kind name r)),
  λ f. elim (Option-cases (request_kind operation.kind)) [
    | inl none_asked ↦ rw (none_asked, has_request) refl
    | inr (name, asked) ↦
        rw (asked, has_request)
          ((has_iff e.requests _).1 (f name (Requests-request_kind operation.kind name asked)))
  ],
)
