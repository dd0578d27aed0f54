-- ===== src/Doctor/Reported.antt =====
-- packages/wallet-doctor-oracle/src/plan-check.ts: value that a plan would lose is reported, however the
-- check ends.
use mathlib.Core.Path.{subst}
use cashu_fault_lab.Common.{
  String, true, false, ◌≡◌, ◌≢◌, refl, arith, eq_iff, Bool-cases, Option-cases, inl, inr, is_empty,
  Option, some, List, [], ◌∷◌, map, flat_map, any-flat_map, Member, here, there, Member-append_left,
  Member-append_right, flat_map-Member, Result, ok, err,
}
use cashu_fault_lab.Doctor.Types.{
  ProofView, TokenEventView, Rollover, RepairStep, republish_event, publish_rollover, delete_events,
  republish_wallet_event, wallet_action, ProofState, unspent, spent, pending, PlanState,
  MintObservation, DoctorObservation, RepairPlan,
}
use cashu_fault_lab.Doctor.Reconstruct.{
  ProofKey, mint_proof_key, same_key, has_key, proof_keys, all_tokens,
}
use cashu_fault_lab.Doctor.Merge.{mint_state}
use cashu_fault_lab.Doctor.Check.{
  Violation, uncovered_unspent, keys_at, rollover_ys, restore_ys, deleted_ids, captured,
  check_references, is_unspent, check_dropped, check_deleted, holds_value, check_simulated,
  rejected, simulate_twice, capture_state, check_steps, check_repair_plan, unchecked,
  PlanCheckResult,
}
use cashu_fault_lab.Doctor.Events.{all_tokens-Distinct, get-index_tokens}

nonempty {ℓ} : {A : Type ℓ} {x : A} {xs : List A} → Member x xs → is_empty xs ≡ false
nonempty here = refl
nonempty (there m) = refl

-- What was found before the simulation is reported on every path after it.
Reports : Violation → PlanCheckResult → Type 0
Reports v result = (result.ok ≡ false) × Member v result.violations

check_simulated-Reports :
    (observation : DoctorObservation) (before : List Violation)
    (result : Result (Unit {0}) (PlanState × PlanState)) {v : Violation}
    → Member v before
    → Reports v (check_simulated observation before result)
unfolding Reports check_simulated rejected
check_simulated-Reports observation before (err _) m = (refl, Member-append_left _ m)
check_simulated-Reports observation before (ok (once, twice)) m =
    elim (Bool-cases (is_empty (unchecked observation))) [
      | inl known ↦ rw known (
        nonempty (Member-append_left _ (Member-append_left _ m)),
        Member-append_left _ (Member-append_left _ m),
      )
      | inr unknown ↦ rw unknown (refl, Member-append_left _ (Member-append_left _ m))
    ]

check_dropped-uncovered :
    (mint : List MintObservation) (covered restored : List ProofKey) (id : String) (key : ProofKey)
    → holds_value (mint_state mint key) ≡ true
    → has_key covered key ≡ false
    → has_key restored key ≡ false
    → Member (uncovered_unspent key.1 id) (check_dropped mint covered restored id key)
unfolding check_dropped holds_value
check_dropped-uncovered mint covered restored id key value c r =
    elim (Option-cases (mint_state mint key)) [
      | inl lost ↦ absurd (ground arith)
      | inr (state, found) ↦
          let valued : is_unspent state ≡ true = ground arith in
          rw (found, check_dropped) (rw (valued, c, r) here)
    ]

-- A step that deletes an event, by itself or as a rollover of it.
pub data Deletes (event_id : String) : RepairStep → Type 0 where
  by_deletion :
      {event_ids to_relays : List String}
      → Member event_id event_ids
      → Deletes event_id (delete_events event_ids to_relays)
  by_rollover : {r : Rollover} → Member event_id r.del → Deletes event_id (publish_rollover r)

-- A step that keeps a proof: a rollover covers it, or a wallet action restores it.
pub data Saves (key : ProofKey) : RepairStep → Type 0 where
  by_cover :
      {r : Rollover} → r.mint ≡ key.0 → Member key.1 r.covered_ys → Saves key (publish_rollover r)
  by_action :
      {mint : String} {ys : List String}
      → mint ≡ key.0
      → Member key.1 ys
      → Saves key (wallet_action mint ys)

Deletes-deleted_ids :
    {event_id : String} (step : RepairStep)
    → Deletes event_id step
    → Member event_id (deleted_ids step)
unfolding deleted_ids
Deletes-deleted_ids _ (by_deletion m) = m
Deletes-deleted_ids _ (by_rollover m) = m

keys_at-Member :
    (mint : String) (ys : List String) (key : ProofKey)
    → has_key (keys_at mint ys) key ≡ true
    → (mint ≡ key.0) × Member key.1 ys
unfolding has_key keys_at mint_proof_key same_key
keys_at-Member mint [] (m, y) h = cc
keys_at-Member mint (z ∷ ys) (m, y) h = elim (Bool-cases (same_key (mint, z) (m, y))) [
  | inl same ↦
      let e : z ≡ y = (eq_iff z y).0 (ground arith) in
      ((eq_iff mint m).0 (ground arith), subst (λ x. Member x (z ∷ ys)) e here)
  | inr other ↦ let (e, n) = keys_at-Member mint ys (m, y) (ground arith) in (e, there n)
]

rollover_ys-Saves :
    (step : RepairStep) (key : ProofKey) → has_key (rollover_ys step) key ≡ true → Saves key step
unfolding rollover_ys
rollover_ys-Saves (publish_rollover r) key h =
    let (e, m) = keys_at-Member r.mint r.covered_ys key h in by_cover e m
rollover_ys-Saves (republish_event _ _) key h = unfold has_key in cc
rollover_ys-Saves (delete_events _ _) key h = unfold has_key in cc
rollover_ys-Saves (republish_wallet_event _ _) key h = unfold has_key in cc
rollover_ys-Saves (wallet_action _ _) key h = unfold has_key in cc

restore_ys-Saves :
    (step : RepairStep) (key : ProofKey) → has_key (restore_ys step) key ≡ true → Saves key step
unfolding restore_ys
restore_ys-Saves (wallet_action mint ys) key h =
    let (e, m) = keys_at-Member mint ys key h in by_action e m
restore_ys-Saves (republish_event _ _) key h = unfold has_key in cc
restore_ys-Saves (delete_events _ _) key h = unfold has_key in cc
restore_ys-Saves (republish_wallet_event _ _) key h = unfold has_key in cc
restore_ys-Saves (publish_rollover _) key h = unfold has_key in cc

-- where no step saves a proof, the loop over the steps collects no such key
unsaved :
    (f : RepairStep → List ProofKey) (steps : List RepairStep) (key : ProofKey)
    → ((step : RepairStep) → has_key (f step) key ≡ true → Saves key step)
    → ((step : RepairStep) → Member step steps → ¬ Saves key step)
    → has_key (flat_map f steps) key ≡ false
unfolding has_key
unsaved f steps key sound lost = elim (Bool-cases (has_key (flat_map f steps) key)) [
  | inr e ↦ e
  | inl e ↦
      let (step, m, h) = any-flat_map f (λ (j : ProofKey). same_key j key) steps e in
      absurd (lost step m (sound step h))
]

proof_keys-Member :
    {p : ProofView} (t : TokenEventView) (ps : List ProofView)
    → Member p ps
    → Member (mint_proof_key t.mint p.y) (map (λ (p : ProofView). mint_proof_key t.mint p.y) ps)
proof_keys-Member t _ here = here
proof_keys-Member t _ (there m) = there (proof_keys-Member t _ m)

unspent_value :
    (state : Option ProofState) (s : ProofState)
    → state ≡ some s
    → s ≢ spent
    → holds_value state ≡ true
unfolding holds_value is_unspent
unspent_value state unspent e n = rw e refl
unspent_value state pending e n = rw e refl
unspent_value state spent e n = absurd (n refl)

-- Where a step of a plan deletes an event of the merged relays, itself or as a rollover of it, and the
-- event has a proof that its mint does not report spent, and no step of the plan covers or restores
-- this proof, the check does not accept and reports this loss, also where the plan cannot be simulated
-- or mint truth is missing for other proofs.
pub check_repair_plan-reports :
    (observation : DoctorObservation) (plan : RepairPlan) (t : TokenEventView) (p : ProofView)
    (state : ProofState) (step : RepairStep)
    → Member step plan.steps
    → Deletes t.event_id step
    → Member t (all_tokens observation.relays)
    → Member p t.proofs
    → mint_state observation.mint (t.mint, p.y) ≡ some state
    → state ≢ spent
    → ((other : RepairStep) → Member other plan.steps → ¬ Saves (t.mint, p.y) other)
    → ((check_repair_plan observation plan).ok ≡ false)
      × Member (uncovered_unspent p.y t.event_id) (check_repair_plan observation plan).violations
unfolding check_repair_plan check_steps check_deleted Reports proof_keys mint_proof_key captured
check_repair_plan-reports observation plan t p state step m d n q known value lost =
    let key : ProofKey = (t.mint, p.y) in
    let covered = flat_map rollover_ys plan.steps in
    let restored = flat_map restore_ys plan.steps in
    let found =
      get-index_tokens (all_tokens observation.relays) [] (all_tokens-Distinct observation.relays)
        n in
    let dropped : Member (uncovered_unspent p.y t.event_id)
        (check_deleted observation.mint covered restored (captured observation.relays) t.event_id) =
      rw (found, check_deleted)
        (flat_map-Member (check_dropped observation.mint covered restored t.event_id) (proof_keys t)
          (proof_keys-Member t t.proofs q)
          (check_dropped-uncovered observation.mint covered restored t.event_id key
            (unspent_value _ state known value)
            (unsaved rollover_ys plan.steps key (λ s. rollover_ys-Saves s key) lost)
            (unsaved restore_ys plan.steps key (λ s. restore_ys-Saves s key) lost))) in
    check_simulated-Reports observation _ (simulate_twice (capture_state observation) plan.steps) (
      Member-append_right (flat_map (check_references (captured observation.relays)) plan.steps) (
        flat_map-Member
          (check_deleted observation.mint covered restored (captured observation.relays))
          (flat_map deleted_ids plan.steps)
          (flat_map-Member deleted_ids plan.steps m (Deletes-deleted_ids step d)) dropped))
