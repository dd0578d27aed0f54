-- ===== src/Doctor/Check.antt =====
-- packages/wallet-doctor-oracle/src/plan-check.ts: whether a repair plan is safe. A violation is its
-- code with the values that its text names; the texts, and their sorting, are left out.
use Prim.Native.String.{◌++◌ as append}
use cashu_fault_lab.Common.{
  ℕ, ◌+◌, String, Bool, true, false, not, ◌&&◌, ◌||◌, ◌==◌, str_eq, includes, sort, is_some,
  is_empty, Option, none, some, List, [], ◌∷◌, ◌++◌, map, length, filter, flat_map, Map, get, has,
  values, if◌then◌else◌, Result, ok, err, ◌>>=◌,
}
use cashu_fault_lab.Doctor.Types.{
  ProofView, TokenEventView, WalletEventView, RepairStep, republish_event, publish_rollover,
  delete_events, republish_wallet_event, wallet_action, MintProof, PlanState, RelayObservation,
  ProofState, unspent, spent, pending, MintObservation, DoctorObservation, RepairPlan,
}
use cashu_fault_lab.Doctor.Plan.{
  find_proof, index_tokens, initial_plan_state, simulate_plan, plan_state_unique_balance,
}
use cashu_fault_lab.Doctor.Reconstruct.{
  ProofKey, mint_proof_key, same_key, has_key, proof_keys, ok_relays, all_tokens, merged_live,
}
use cashu_fault_lab.Doctor.Merge.{mint_state}

pub data Violation : Type 0 where
  unknown_reference : String → Violation
  unresolved_rollover : Violation
  missing_mint_truth : String → String → Violation
  uncovered_unspent : String → String → Violation
  not_idempotent : Violation
  unchecked_live_proofs : ℕ → Violation
  spent_remains : String → Violation
  duplicate_remains : Violation
  balance_mismatch : ℕ → ℕ → Violation

pub record PlanCheckResult : Type 0 where
  pub ok : Bool
  pub violations : List Violation

unfoldable pub keys_at : String → List String → List ProofKey
keys_at mint ys = map (mint_proof_key mint) ys

-- coveredSets
unfoldable pub rollover_ys : RepairStep → List ProofKey
rollover_ys (publish_rollover r) = keys_at r.mint r.covered_ys
rollover_ys (republish_event event_id to_relays) = []
rollover_ys (delete_events event_ids to_relays) = []
rollover_ys (republish_wallet_event event_id to_relays) = []
rollover_ys (wallet_action mint ys) = []

unfoldable pub restore_ys : RepairStep → List ProofKey
restore_ys (wallet_action mint ys) = keys_at mint ys
restore_ys (publish_rollover r) = []
restore_ys (republish_event event_id to_relays) = []
restore_ys (delete_events event_ids to_relays) = []
restore_ys (republish_wallet_event event_id to_relays) = []

-- deletedEventIds
unfoldable pub deleted_ids : RepairStep → List String
deleted_ids (delete_events event_ids to_relays) = event_ids
deleted_ids (publish_rollover r) = r.del
deleted_ids (republish_event event_id to_relays) = []
deleted_ids (republish_wallet_event event_id to_relays) = []
deleted_ids (wallet_action mint ys) = []

-- what a plan may refer to
pub record Captured : Type 0 where
  pub tokens_by_id : Map TokenEventView
  pub wallet_ids : List String
  pub known_ys : List ProofKey

unfoldable pub captured : List RelayObservation → Captured
captured relays = record {
  tokens_by_id = index_tokens (all_tokens relays) [];
  wallet_ids =
      flat_map (λ (r : RelayObservation). map (λ (w : WalletEventView). w.event_id) r.wallet)
        (ok_relays relays);
  known_ys = flat_map proof_keys (all_tokens relays);
}

unfoldable pub unknown_events : Captured → List String → List Violation
unknown_events c event_ids =
    map unknown_reference (filter (λ (id : String). not (has c.tokens_by_id id)) event_ids)

unfoldable pub unknown_ys : Captured → String → List String → List Violation
unknown_ys c mint ys =
    map unknown_reference
      (filter (λ (y : String). not (has_key c.known_ys (mint_proof_key mint y))) ys)

-- P3: the references of a step exist
unfoldable pub check_references : Captured → RepairStep → List Violation
check_references c (republish_event event_id to_relays) = unknown_events c (event_id ∷ [])
check_references c (republish_wallet_event event_id to_relays) =
    if includes c.wallet_ids event_id then [] else unknown_reference event_id ∷ []
check_references c (delete_events event_ids to_relays) = unknown_events c event_ids
check_references c (publish_rollover r) = unknown_ys c r.mint r.covered_ys ++ unknown_events c r.del
check_references c (wallet_action mint ys) = unknown_ys c mint ys

unfoldable pub is_unspent : ProofState → Bool
is_unspent unspent = true
is_unspent pending = true
is_unspent spent = false

-- P1: one proof of a deleted event
module _ (mint : List MintObservation) (covered restored : List ProofKey) where
  unfoldable pub check_dropped : String → ProofKey → List Violation
  check_dropped event_id key = elim (mint_state mint key) [
    | none ↦ missing_mint_truth key.1 event_id ∷ []
    | some state ↦
        if is_unspent state && not (has_key covered key) && not (has_key restored key)
        then uncovered_unspent key.1 event_id ∷ []
        else []
  ]

  unfoldable pub check_deleted : Captured → String → List Violation
  check_deleted c event_id = elim (get c.tokens_by_id event_id) [
    | none ↦ []
    | some token ↦ flat_map (check_dropped event_id) (proof_keys token)
  ]

unfoldable pub keys_of : Map TokenEventView → List String
keys_of m = map (λ (entry : String × TokenEventView). entry.0) m

-- xs.join(',')
unfoldable pub join : List String → String
join [] = ""
join (s ∷ []) = s
join (s ∷ t ∷ ts) = append s (append "," (join (t ∷ ts)))

-- P2
unfoldable pub check_idempotent : PlanState → PlanState → List Violation
check_idempotent once twice =
    if str_eq (join (sort (keys_of once.live_tokens))) (join (sort (keys_of twice.live_tokens)))
      && plan_state_unique_balance once == plan_state_unique_balance twice
    then []
    else not_idempotent ∷ []

unfoldable pub is_spent : Option ProofState → Bool
is_spent none = false
is_spent (some spent) = true
is_spent (some unspent) = false
is_spent (some pending) = false

unfoldable pub spent_among : List MintObservation → List ProofKey → List Violation
spent_among mint keys =
    map (λ (k : ProofKey). spent_remains k.1)
      (filter (λ (k : ProofKey). is_spent (mint_state mint k)) keys)

unfoldable pub has_repeat : List ProofKey → Bool
has_repeat [] = false
has_repeat (k ∷ ks) = has_key ks k || has_repeat ks

-- a Set of keys
unfoldable pub key_set : List ProofKey → List ProofKey
key_set [] = []
key_set (k ∷ ks) = k ∷ filter (λ (j : ProofKey). not (same_key j k)) (key_set ks)

unfoldable pub entries : TokenEventView → List MintProof
entries t = map (λ (p : ProofView). record { mint = t.mint; proof = p }) t.proofs

unfoldable pub amount_in : List MintProof → ProofKey → ℕ
amount_in es (mint, y) = elim (find_proof es mint y) [ none ↦ 0 | some proof ↦ proof.amount ]

unfoldable pub sum_amounts_in : List MintProof → List ProofKey → ℕ
sum_amounts_in es [] = 0
sum_amounts_in es (k ∷ ks) = amount_in es k + sum_amounts_in es ks

unfoldable pub holds_value : Option ProofState → Bool
holds_value none = false
holds_value (some state) = is_unspent state

-- the value that is not spent, before the plan
unfoldable pub expected_balance : DoctorObservation → ℕ
expected_balance observation =
    let live = merged_live observation.relays in
    sum_amounts_in (flat_map entries (live ++ all_tokens observation.relays)) (
      key_set (
        filter (λ (k : ProofKey). holds_value (mint_state observation.mint k))
          (flat_map proof_keys live)))

-- The plan's result against mint truth.
unfoldable pub check_converged : DoctorObservation → PlanState → List Violation
check_converged observation once =
    let keys = flat_map proof_keys (values once.live_tokens) in
    let expected = expected_balance observation in
    let balance = plan_state_unique_balance once in
    spent_among observation.mint keys
    ++ (if has_repeat keys then duplicate_remains ∷ [] else [])
    ++ (if balance == expected then [] else balance_mismatch expected balance ∷ [])

unfoldable pub unchecked : DoctorObservation → List ProofKey
unchecked observation =
    filter (λ (k : ProofKey). not (is_some (mint_state observation.mint k)))
      (flat_map proof_keys (merged_live observation.relays))

unfoldable pub rejected : List Violation → PlanCheckResult
rejected violations = record { ok = false; violations = violations }

unfoldable pub check_simulated :
    DoctorObservation → List Violation → Result (Unit {0}) (PlanState × PlanState) → PlanCheckResult
check_simulated observation before (err _) = rejected (before ++ (unresolved_rollover ∷ []))
check_simulated observation before (ok (once, twice)) =
    let repeated = before ++ check_idempotent once twice in
    if is_empty (unchecked observation)
    then (let violations = repeated ++ check_converged observation once in
        record { ok = is_empty violations; violations = violations })
    else rejected (repeated ++ (unchecked_live_proofs (length (unchecked observation)) ∷ []))

unfoldable pub simulate_twice :
    PlanState → List RepairStep → Result (Unit {0}) (PlanState × PlanState)
simulate_twice initial steps = do
  once ← simulate_plan initial steps
  twice ← simulate_plan once steps
  ok (once, twice)

unfoldable pub capture_state : DoctorObservation → PlanState
capture_state observation =
    initial_plan_state (merged_live observation.relays) (all_tokens observation.relays)

-- P3 and P1
unfoldable pub check_steps : DoctorObservation → List RepairStep → List Violation
check_steps observation steps =
    let c = captured observation.relays in
    flat_map (check_references c) steps
    ++ flat_map
        (check_deleted observation.mint (flat_map rollover_ys steps) (flat_map restore_ys steps) c)
        (flat_map deleted_ids steps)

unfoldable pub check_repair_plan : DoctorObservation → RepairPlan → PlanCheckResult
check_repair_plan observation plan =
    check_simulated observation (check_steps observation plan.steps)
      (simulate_twice (capture_state observation) plan.steps)
