-- ===== src/Doctor/Plan.antt =====
-- packages/wallet-doctor-core/src/plan.ts: what a repair plan does to the live events of a wallet.
use cashu_fault_lab.Common.{
  ℕ, ◌+◌, String, ◌&&◌, str_eq, is_some, Option, none, some, List, [], ◌∷◌, ◌++◌, Map, put, remove,
  values, max_safe, if◌then◌else◌, Result, ok, err, ◌>>=◌,
}
use cashu_fault_lab.Doctor.Types.{
  ProofView, TokenEventView, Rollover, RepairStep, republish_event, publish_rollover, delete_events,
  republish_wallet_event, wallet_action, MintProof, PlanState,
}

-- proofsByY.get(mintProofKey(mint, y))
unfoldable pub find_proof : List MintProof → String → String → Option ProofView
find_proof [] mint y = none
find_proof (p ∷ ps) mint y =
    if str_eq p.mint mint && str_eq p.proof.y y then some p.proof else find_proof ps mint y

unfoldable pub add_proof : String → ProofView → List MintProof → List MintProof
add_proof mint proof ps =
    if is_some (find_proof ps mint proof.y)
    then ps
    else ps ++ (record { mint = mint; proof = proof } ∷ [])

unfoldable pub add_proofs : String → List ProofView → List MintProof → List MintProof
add_proofs mint [] ps = ps
add_proofs mint (q ∷ qs) ps = add_proofs mint qs (add_proof mint q ps)

unfoldable pub index_proofs : List TokenEventView → List MintProof → List MintProof
index_proofs [] ps = ps
index_proofs (t ∷ ts) ps = index_proofs ts (add_proofs t.mint t.proofs ps)

unfoldable pub index_tokens : List TokenEventView → Map TokenEventView → Map TokenEventView
index_tokens [] m = m
index_tokens (t ∷ ts) m = index_tokens ts (put m t.event_id t)

unfoldable pub initial_plan_state : List TokenEventView → List TokenEventView → PlanState
initial_plan_state live_tokens all_tokens = record {
  live_tokens = index_tokens live_tokens [];
  proofs_by_y = index_proofs all_tokens [];
}

unfoldable pub remove_all : List String → Map TokenEventView → Map TokenEventView
remove_all [] m = m
remove_all (id ∷ ids) m = remove_all ids (remove m id)

-- the proofs of a rollover; an unknown one is an error
unfoldable pub cover : List MintProof → String → List String → Result (Unit {0}) (List ProofView)
cover ps mint [] = ok []
cover ps mint (y ∷ ys) = do
  rest ← cover ps mint ys
  elim (find_proof ps mint y) [ none ↦ err tt | some proof ↦ ok (proof ∷ rest) ]

unfoldable pub rolled_over : Rollover → List ProofView → TokenEventView
rolled_over r proofs = record {
  event_id = r.rollover_id;
  created_at = max_safe;
  mint = r.mint;
  unit = r.unit;
  proofs = proofs;
  del = r.del;
  seen_on = r.to_relays;
}

unfoldable pub apply_step :
    List MintProof → RepairStep → Map TokenEventView → Result (Unit {0}) (Map TokenEventView)
apply_step ps (publish_rollover r) live = do
  proofs ← cover ps r.mint r.covered_ys
  ok (put (remove_all r.del live) r.rollover_id (rolled_over r proofs))
apply_step ps (delete_events event_ids to_relays) live = ok (remove_all event_ids live)
apply_step ps (republish_event event_id to_relays) live = ok live
apply_step ps (republish_wallet_event event_id to_relays) live = ok live
apply_step ps (wallet_action mint ys) live = ok live

unfoldable pub apply_steps :
    List MintProof → List RepairStep → Map TokenEventView → Result (Unit {0}) (Map TokenEventView)
apply_steps ps [] live = ok live
apply_steps ps (s ∷ ss) live = do next ← apply_step ps s live; apply_steps ps ss next

unfoldable pub simulate_plan : PlanState → List RepairStep → Result (Unit {0}) PlanState
simulate_plan state steps = do
  live ← apply_steps state.proofs_by_y steps state.live_tokens
  ok (record state { live_tokens = live })

unfoldable pub sum_proofs : List ProofView → ℕ
sum_proofs [] = 0
sum_proofs (p ∷ ps) = p.amount + sum_proofs ps

unfoldable pub sum_tokens : List TokenEventView → ℕ
sum_tokens [] = 0
sum_tokens (t ∷ ts) = sum_proofs t.proofs + sum_tokens ts

unfoldable pub plan_state_balance : PlanState → ℕ
plan_state_balance state = sum_tokens (values state.live_tokens)

unfoldable pub sum_unique : List MintProof → ℕ
sum_unique [] = 0
sum_unique (p ∷ ps) = p.proof.amount + sum_unique ps

-- one proof counts once, also in two events
unfoldable pub plan_state_unique_balance : PlanState → ℕ
plan_state_unique_balance state = sum_unique (index_proofs (values state.live_tokens) [])
