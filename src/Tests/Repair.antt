-- ===== src/Tests/Repair.antt =====
-- A wallet on two relays: its diagnosis, and the repair of an event that was rolled over.
use Prim.Native.String.{compare}
use cashu_fault_lab.Common.{
  here, there, some, All, All-Member, Member, Member-append_left, sym, ◌++◌, ℕ, suc, String, true,
  false, ◌≡◌, ◌≢◌, refl, ap, ◌∙◌, ◌⊎◌, inl, inr, arith, eq_iff, codes, none, List, [], ◌∷◌, all,
  flat_map, get, has, put, remove, values, unique, insert_sorted, sort, ok,
}
use cashu_fault_lab.Doctor.Types.{
  publish_rollover, RepairStep, TokenEventView, WalletEventView, RelayStatus, RelayObservation,
  unspent, pending, spent, MintObservation, DoctorObservation, PlanState, RepairPlan,
}
use cashu_fault_lab.Doctor.Plan.{
  find_proof, add_proof, add_proofs, index_proofs, index_tokens, initial_plan_state, remove_all,
  cover, rolled_over, apply_step, apply_steps, simulate_plan, sum_proofs, sum_tokens,
  plan_state_balance, sum_unique, plan_state_unique_balance,
}
use cashu_fault_lab.Doctor.Reconstruct.{
  mint_proof_key, same_key, has_key, proof_keys, add_each, add_event, add_events, seen_by,
  dedupe_events, supplants, newer_of, latest_from, latest_wallet_event, targets_of, live_here,
  read_relay, reconstruct_relay, is_ok, ok_relays, all_tokens, all_wallet, deleted_anywhere,
  superseded_anywhere, is_live, merged_live, naive_live,
}
use cashu_fault_lab.Doctor.Merge.{
  insert_by, sort_by, add_owner, add_owners, owners_of, sum_owners, duplicate_of, is_shared,
  add_orphan, add_orphans, orphans_from, candidate_of, find_orphaned, mint_state,
  reconstruct_merged, reconstruct,
}
use cashu_fault_lab.Doctor.Reported.{by_rollover, Saves, by_cover, check_repair_plan-reports}
use cashu_fault_lab.Doctor.Check.{
  uncovered_unspent, keys_at, rollover_ys, restore_ys, deleted_ids, captured, unknown_events,
  unknown_ys, check_references, is_unspent, check_dropped, check_deleted, keys_of, join,
  check_idempotent, is_spent, spent_among, has_repeat, key_set, entries, amount_in, sum_amounts_in,
  holds_value, expected_balance, check_converged, unchecked, rejected, check_simulated,
  simulate_twice, capture_state, check_steps, check_repair_plan,
}
use cashu_fault_lab.Doctor.Findings.{
  points_of, partition_of, relay_partitions, state_in, spent_proofs, ghost_of, ghost_tokens,
  is_recoverable, entry_of, add_candidate, group_orphans, orphan_finding, find_orphans, serves,
  break_of, del_chain_breaks,
}
use cashu_fault_lab.Doctor.Explain.{
  is_unspent_now, sum_in, sum_live, sum_orphans, relay_balance, explain_balance,
}
use cashu_fault_lab.Doctor.Diagnose.{
  Diagnosis, fork, stale_id, listed, wallet_id, stale_forks, missing_forks, wallet_event_forks,
  undeleted, second_id, first_each, deletions_not_propagated, known_ids, unknown_ids, notice,
  history_gaps, is_pending, quotes_in_limbo, is_critical, malformed_finding, malformed_events,
  severity_order, code_text, first_text, or_then, is_error, compare_findings, all_findings,
  diagnose,
}
use cashu_fault_lab.Doctor.Build.{
  find_token, is_consolidated, is_break, is_partition, is_fork, is_orphan_finding, event_ids_of,
  tokens_of, urls_without, digit, decimal_digits, rollover_name, only, unit_of, both_live, ok_urls,
  consolidation_mints, broken_ids, republish, republish_steps, live_for, broken_for, deletes_for,
  has_unchecked, covered_in, consolidation_at, consolidate, rollover_at, consolidations,
  rollover_steps, delete_steps, wallet_steps, orphan_mint, action_steps, plan_steps,
  build_repair_plan,
}
use cashu_fault_lab.Doctor.Covered.{rollover_ids, are_fresh}
use cashu_fault_lab.Doctor.Live.{live_keys}
use cashu_fault_lab.Doctor.Safety.{check_repair_plan-keeps}
use cashu_fault_lab.Doctor.Balance.{is_settled, diagnose-balanced}
use cashu_fault_lab.Doctor.Names.{codes-append}
use cashu_fault_lab.Doctor.Kept.{build_repair_plan-keeps}

abbrev token : String → String → ℕ → List String → TokenEventView
token id y amount del = record {
  event_id = id;
  created_at = 5;
  mint = "m";
  unit = "sat";
  proofs = (record { keyset_id = "k"; amount = amount; y = y }) ∷ [];
  del = del;
  seen_on = [];
}

abbrev wallet : WalletEventView
wallet = record {
  event_id = "w";
  created_at = 1;
  mints = "m" ∷ [];
  has_p2pk_key = true;
  seen_on = "a" ∷ "b" ∷ [];
}

abbrev relay : String → List TokenEventView → RelayObservation
relay url tokens = record {
  url = url;
  status = RelayStatus.ok;
  error = none;
  wallet = wallet ∷ [];
  tokens = tokens;
  deletions = [];
  history = [];
  quotes = [];
  malformed = [];
}

abbrev old : TokenEventView
old = record (token "1" "x" 8 []) { seen_on = "b" ∷ [] }

abbrev successor : TokenEventView
successor = record (token "2" "y" 4 ("1" ∷ [])) { seen_on = "a" ∷ [] }

abbrev truth : List MintObservation
truth =
    (record { mint = "m"; y = "x"; state = spent })
    ∷ (record { mint = "m"; y = "y"; state = unspent })
    ∷ []

-- the second relay does not know that the event was rolled over
abbrev split : DoctorObservation
split = record {
  subject = "s";
  relays = relay "a" (successor ∷ []) ∷ relay "b" (old ∷ []) ∷ [];
  mint = truth;
}

abbrev healthy : DoctorObservation
healthy = record { subject = "s"; relays = relay "a" (token "2" "y" 4 [] ∷ []) ∷ []; mint = truth }

-- the mint has not settled the proof of the old event
abbrev undecided : DoctorObservation
undecided = record split {
  mint =
      (record { mint = "m"; y = "x"; state = pending })
      ∷ (record { mint = "m"; y = "y"; state = unspent })
      ∷ [];
}

abbrev diagnosis : Diagnosis
diagnosis = diagnose compare split 0

abbrev plan : RepairPlan
plan = build_repair_plan compare split diagnosis "digest"

-- a rollover that destroys the old event and covers another proof only
abbrev lossy : RepairPlan
lossy = record {
  subject = "s";
  capture_digest = "digest";
  steps =
      publish_rollover (record {
        rollover_id = "r";
        mint = "m";
        unit = "sat";
        covered_ys = "y" ∷ [];
        del = "1" ∷ [];
        to_relays = [];
      })
      ∷ [];
}

-- One declaration opens what these runs call: the diagnosis of the split wallet finds an error, its
-- plan is accepted and publishes a new ID, and the healthy wallet has no error. The plan for the
-- undecided wallet deletes the old event, and neither covers nor restores its pending proof.
runs :
    (diagnosis.ok ≡ false)
    × ((check_repair_plan split plan).ok ≡ true)
    × (are_fresh (captured split.relays).tokens_by_id (flat_map rollover_ids plan.steps) ≡ true)
    × (has_key (flat_map proof_keys (merged_live split.relays)) ("m", "y") ≡ true)
    × (holds_value (mint_state truth ("m", "y")) ≡ true)
    × ((diagnose compare healthy 0).ok ≡ true)
    × (all (λ k. is_settled (mint_state truth k)) (flat_map proof_keys (merged_live healthy.relays))
        ≡ true)
unfolding get put remove values unique insert_sorted sort find_proof add_proof add_proofs
    index_proofs index_tokens initial_plan_state remove_all cover rolled_over apply_step apply_steps
    simulate_plan sum_proofs sum_tokens plan_state_balance sum_unique plan_state_unique_balance
    mint_proof_key same_key has_key proof_keys add_each add_event add_events seen_by dedupe_events
    supplants newer_of latest_from latest_wallet_event targets_of live_here read_relay
    reconstruct_relay is_ok ok_relays all_tokens all_wallet deleted_anywhere superseded_anywhere
    is_live merged_live naive_live insert_by sort_by add_owner add_owners owners_of sum_owners
    duplicate_of is_shared add_orphan add_orphans orphans_from candidate_of find_orphaned mint_state
    reconstruct_merged reconstruct keys_at rollover_ys restore_ys deleted_ids captured
    unknown_events unknown_ys check_references is_unspent check_dropped check_deleted keys_of join
    check_idempotent is_spent spent_among has_repeat key_set entries amount_in sum_amounts_in
    holds_value expected_balance check_converged unchecked rejected check_simulated simulate_twice
    capture_state check_steps check_repair_plan points_of partition_of relay_partitions state_in
    spent_proofs ghost_of ghost_tokens is_recoverable entry_of add_candidate group_orphans
    orphan_finding find_orphans serves break_of del_chain_breaks fork stale_id listed wallet_id
    stale_forks missing_forks wallet_event_forks undeleted second_id first_each
    deletions_not_propagated known_ids unknown_ids notice history_gaps is_pending quotes_in_limbo
    is_critical malformed_finding malformed_events is_unspent_now sum_in sum_live sum_orphans
    relay_balance explain_balance severity_order code_text first_text or_then is_error
    compare_findings all_findings diagnose find_token is_consolidated is_break is_partition is_fork
    is_orphan_finding event_ids_of tokens_of urls_without digit decimal_digits rollover_name only
    unit_of both_live ok_urls consolidation_mints broken_ids republish republish_steps live_for
    broken_for deletes_for has_unchecked covered_in consolidation_at consolidate rollover_at
    consolidations rollover_steps delete_steps wallet_steps orphan_mint action_steps plan_steps
    build_repair_plan
runs = (refl, refl, refl, refl, refl, refl, refl)

check_repair_plan-keeps_example :
    (once : PlanState) × (simulate_plan (capture_state split) plan.steps ≡ ok once)
    × ((has_key (live_keys once) ("m", "y") ≡ true)
        ⊎ (has_key (flat_map restore_ys plan.steps) ("m", "y") ≡ true))
check_repair_plan-keeps_example =
    check_repair_plan-keeps split plan ("m", "y") runs.2 runs.1 runs.3 runs.4

diagnose-balanced_example :
    let b = (diagnose compare healthy 0).balance in
    (b.merged ≡ b.mint_verified) × (b.ghost ≡ 0) × (b.orphaned_unspent ≡ 0)
diagnose-balanced_example = diagnose-balanced compare healthy 0 runs.5 runs.6

not_planned :
    (id : String) (n : ℕ) → codes id ≡ 49 ∷ [] ⊎ (codes id ≡ 50 ∷ []) → id ≢ rollover_name n
unfolding rollover_name
not_planned id n short e =
    let same = ap codes e ∙ codes-append "planned:rollover:" (decimal_digits (suc n) n) in
    ground arith

unused : (n : ℕ) → has (captured split.relays).tokens_by_id (rollover_name n) ≡ false
unfolding get put remove values unique insert_sorted sort captured index_tokens all_tokens
    dedupe_events add_event add_events seen_by add_each ok_relays is_ok
unused n = ground (
  arith,
  eq_iff "1" (rollover_name n),
  eq_iff "2" (rollover_name n),
  not_planned "1" n (inl refl),
  not_planned "2" n (inr refl),
)

one_mint : All (λ t. t.mint ≡ "m") (merged_live split.relays ++ naive_live split.relays)
unfolding get put remove values unique insert_sorted sort index_tokens all_tokens dedupe_events
    add_event add_events seen_by add_each ok_relays is_ok naive_live merged_live is_live
    deleted_anywhere superseded_anywhere targets_of live_here read_relay reconstruct_relay
one_mint = (refl, (refl, (refl, tt)))

consistent :
    (t u : TokenEventView)
    → Member t (merged_live split.relays)
    → Member u (merged_live split.relays ++ naive_live split.relays)
    → t.event_id ≡ u.event_id
    → t.mint ≡ u.mint
consistent t u m n e =
    let whole = merged_live split.relays ++ naive_live split.relays in
    All-Member (λ (t : TokenEventView). t.mint ≡ "m") whole
      (Member-append_left (naive_live split.relays) m) one_mint
    ∙ sym (All-Member (λ (t : TokenEventView). t.mint ≡ "m") whole n one_mint)

build_repair_plan-keeps_example :
    (once : PlanState) × (simulate_plan (capture_state split) plan.steps ≡ ok once)
    × (has_key (live_keys once) ("m", "y") ≡ true)
build_repair_plan-keeps_example =
    build_repair_plan-keeps compare split diagnosis "digest" ("m", "y") unused consistent runs.3
      runs.4

unsaved : (step : RepairStep) → Member step lossy.steps → ¬ Saves ("m", "x") step
unsaved _ here (by_cover e (there m)) = elim m [ ]
unsaved _ (there m) h = elim m [ ]

lossy_runs :
    Member old (all_tokens undecided.relays) × (mint_state undecided.mint ("m", "x") ≡ some pending)
unfolding get put remove values unique insert_sorted sort all_tokens dedupe_events add_event
    add_events seen_by add_each ok_relays is_ok mint_state same_key mint_proof_key
lossy_runs = (there here, refl)

check_repair_plan-reports_example :
    ((check_repair_plan undecided lossy).ok ≡ false)
    × Member (uncovered_unspent "x" "1") (check_repair_plan undecided lossy).violations
check_repair_plan-reports_example =
    check_repair_plan-reports undecided lossy old (record { keyset_id = "k"; amount = 8; y = "x" })
      pending _ here (by_rollover here) lossy_runs.0 here lossy_runs.1 (cc) unsaved
