-- ===== src/Tests/Doctor.antt =====
-- Two events of one proof, rolled over into one.
use cashu_fault_lab.Common.{
  max_safe, String, ◌≡◌, refl, List, [], ◌∷◌, get, put, remove, values, ok,
}
use cashu_fault_lab.Doctor.Types.{
  ProofView, TokenEventView, RepairStep, publish_rollover, delete_events, republish_event,
  PlanState,
}
use cashu_fault_lab.Doctor.Plan.{
  find_proof, add_proof, add_proofs, index_proofs, index_tokens, initial_plan_state, remove_all,
  cover, rolled_over, apply_step, apply_steps, simulate_plan, sum_proofs, sum_tokens,
  plan_state_balance, sum_unique, plan_state_unique_balance,
}
use cashu_fault_lab.Doctor.Replay.{simulate_plan_idem}

abbrev proof : ProofView
proof = record { keyset_id = "k"; amount = 8; y = "y" }

abbrev token : String → TokenEventView
token id = record {
  event_id = id;
  created_at = 5;
  mint = "m";
  unit = "sat";
  proofs = proof ∷ [];
  del = [];
  seen_on = [];
}

abbrev start : PlanState
start = initial_plan_state (token "a" ∷ token "b" ∷ []) (token "a" ∷ token "b" ∷ [])

abbrev steps : List RepairStep
steps =
    republish_event "a" ("relay" ∷ [])
    ∷ publish_rollover (record {
      rollover_id = "c";
      mint = "m";
      unit = "sat";
      covered_ys = "y" ∷ [];
      del = "a" ∷ [];
      to_relays = "relay" ∷ [];
    })
    ∷ delete_events ("b" ∷ []) ("relay" ∷ [])
    ∷ []

abbrev rolled : TokenEventView
rolled = record {
  event_id = "c";
  created_at = max_safe;
  mint = "m";
  unit = "sat";
  proofs = proof ∷ [];
  del = "a" ∷ [];
  seen_on = "relay" ∷ [];
}

abbrev done : PlanState
done = record start { live_tokens = ("c", rolled) ∷ [] }

doubled : plan_state_balance start ≡ 16
unfolding find_proof add_proof add_proofs index_proofs index_tokens initial_plan_state remove_all
    cover rolled_over apply_step apply_steps simulate_plan sum_proofs sum_tokens plan_state_balance
    sum_unique plan_state_unique_balance get put remove values
doubled = refl

unique_balance : plan_state_unique_balance start ≡ 8
unfolding find_proof add_proof add_proofs index_proofs index_tokens initial_plan_state remove_all
    cover rolled_over apply_step apply_steps simulate_plan sum_proofs sum_tokens plan_state_balance
    sum_unique plan_state_unique_balance get put remove values
unique_balance = refl

simulated : simulate_plan start steps ≡ ok done
unfolding find_proof add_proof add_proofs index_proofs index_tokens initial_plan_state remove_all
    cover rolled_over apply_step apply_steps simulate_plan sum_proofs sum_tokens plan_state_balance
    sum_unique plan_state_unique_balance get put remove values
simulated = refl

simulate_plan_idem_example :
    (twice : PlanState) × (simulate_plan done steps ≡ ok twice)
    × (get twice.live_tokens "c" ≡ get done.live_tokens "c")
simulate_plan_idem_example = simulate_plan_idem start done steps "c" simulated
