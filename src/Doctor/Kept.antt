-- ===== src/Doctor/Kept.antt =====
-- packages/wallet-doctor-oracle/src/plan-build.ts: a plan that is built can be simulated, and keeps
-- every proof of value.
use Prim.Native.Nat.{Ordering}
use mathlib.Core.Path.{subst}
use cashu_fault_lab.Common.{
  ℕ, String, true, false, ◌≡◌, refl, sym, ap, ◌∙◌, Bool-cases, inl, inr, includes, List, [], ◌++◌,
  flat_map, All, All-Member, Member, Map, has, ok, Member-append, Member-append_left,
  Member-append_right, Member-map, any-Member, any-flat_map, Member-any-flat_map,
}
use cashu_fault_lab.Doctor.Types.{
  ProofView, TokenEventView, RepairStep, PlanState, DoctorObservation,
}
use cashu_fault_lab.Doctor.Plan.{initial_plan_state, index_proofs, simulate_plan, apply_steps}
use cashu_fault_lab.Doctor.Reconstruct.{
  MergedView, ProofKey, mint_proof_key, same_key, has_key, proof_keys, all_tokens, merged_live,
  naive_live,
}
use cashu_fault_lab.Doctor.Merge.{mint_state, reconstruct_merged}
use cashu_fault_lab.Doctor.Check.{rollover_ys, deleted_ids, holds_value, captured, capture_state}
use cashu_fault_lab.Doctor.Findings.{Finding, state_in}
use cashu_fault_lab.Doctor.Diagnose.{Diagnosis}
use cashu_fault_lab.Doctor.Build.{
  Consolidation, rollover_name, rollover_at, consolidation_at, consolidations, republish_steps,
  plan_steps, build_repair_plan,
}
use cashu_fault_lab.Doctor.Events.{merged_live-Member, merged_live-captured, naive_live-captured}
use cashu_fault_lab.Doctor.Resolved.{Finds, Resolves, index_proofs-Finds, apply_steps-ok}
use cashu_fault_lab.Doctor.Covered.{Held, Known, apply_steps-covers}
use cashu_fault_lab.Doctor.Live.{live_keys, Held-live, same_key-eq, untouched}
use cashu_fault_lab.Doctor.Consolidated.{
  map-Member, All-includes, consolidations-at, deletes-token, live-covered, covered-live,
}
use cashu_fault_lab.Doctor.Built.{steps-fresh}
use cashu_fault_lab.Doctor.Steps.{each_step, deleted-consolidated, rollover-covers}

module _ (locale_compare : String → String → Ordering) (observation : DoctorObservation)
    (findings : List Finding) where
  abbrev merged : MergedView
  merged = reconstruct_merged locale_compare observation.relays

  abbrev steps : List RepairStep
  steps = plan_steps observation merged findings

  steps-Known : Known (captured observation.relays).tokens_by_id (flat_map deleted_ids steps)
  unfolding captured reconstruct_merged
  steps-Known id e =
      let (c, m, d) = deleted-consolidated observation merged findings id e in
      let (mint, same) = consolidations-at observation merged findings m in
      let (u, n, name, at) =
        deletes-token observation merged findings mint id
          (unfold consolidation_at in subst (λ z. includes z.delete_ids id ≡ true) same d) in
      elim (Member-append (merged_live observation.relays) n) [
        | inl live ↦
            merged_live-captured observation.relays id
              (rw (← name) (Member-map (λ (t : TokenEventView). t.event_id) _ live))
        | inr naive ↦
            naive_live-captured observation.relays id
              (rw (← name) (Member-map (λ (t : TokenEventView). t.event_id) _ naive))
      ]

  covered-Finds :
      (c : Consolidation)
      → Member c (consolidations observation merged findings)
      → All (λ y. Finds (capture_state observation).proofs_by_y c.mint y) c.covered_ys
  unfolding capture_state initial_plan_state reconstruct_merged consolidation_at
  covered-Finds c m =
      let (mint, same) = consolidations-at observation merged findings m in
      rw same
        (All-includes _ (λ y e. found mint y (covered-live observation merged findings mint y e)))
    where
      found :
          (mint y : String)
          → ((t : TokenEventView) × (p : ProofView) × Member t merged.live_tokens
              × Member p t.proofs
              × (t.mint ≡ mint)
              × (p.y ≡ y))
          → Finds (index_proofs (all_tokens observation.relays) []) mint y
      found mint y (t, p, live, n, at, name) =
          rw (← at, ← name)
            (index_proofs-Finds (all_tokens observation.relays) []
              (merged_live-Member observation.relays live) n)

  steps-ok :
      (live : Map TokenEventView) × (apply_steps
          (capture_state observation).proofs_by_y
          steps
          (capture_state observation).live_tokens
        ≡ ok live)
  unfolding Resolves rollover_at
  steps-ok =
      apply_steps-ok (capture_state observation).proofs_by_y steps
        (capture_state observation).live_tokens
        (λ s m. All-Member (Resolves (capture_state observation).proofs_by_y) steps m (
          each_step observation merged findings (Resolves (capture_state observation).proofs_by_y)
            (λ id urls. tt) (λ id urls. tt) (λ mint ys. tt) (λ n c k. covered-Finds c k)
            (λ c urls k. tt)))

  -- A rollover of the plan covers a proof of value in a live event that is consolidated.
  rolled :
      (t : TokenEventView) (p : ProofView) (c : Consolidation)
      → Member c (consolidations observation merged findings)
      → includes c.covered_ys p.y ≡ true
      → c.mint ≡ t.mint
      → has_key (flat_map rollover_ys steps) (mint_proof_key t.mint p.y) ≡ true
  unfolding plan_steps has_key
  rolled t p c m e at =
      let (s, n, h) = rollover-covers observation merged findings 0 _ p.y m e in
      Member-any-flat_map rollover_ys _ steps
        (Member-append_right (republish_steps observation merged findings) (Member-append_left _ n))
        (rw (← at) h)

  module _
      (consistent : (t u : TokenEventView)
        → Member t (merged_live observation.relays)
        → Member u (merged_live observation.relays ++ naive_live observation.relays)
        → t.event_id ≡ u.event_id
        → t.mint ≡ u.mint) where
    deleted-rolled :
        (t : TokenEventView) (p : ProofView)
        → Member t (merged_live observation.relays)
        → Member p t.proofs
        → holds_value (state_in observation.mint t p) ≡ true
        → includes (flat_map deleted_ids steps) t.event_id ≡ true
        → has_key (flat_map rollover_ys steps) (mint_proof_key t.mint p.y) ≡ true
    unfolding reconstruct_merged
    deleted-rolled t p m n value e =
        let (c, k, d) = deleted-consolidated observation merged findings t.event_id e in
        let (mint, same) = consolidations-at observation merged findings k in
        let (u, o, name, at) = deletes-token observation merged findings mint t.event_id (
          unfold consolidation_at in subst (λ z. includes z.delete_ids t.event_id ≡ true) same d) in
        let here_at : t.mint ≡ mint = consistent t u m o (sym name) ∙ at in
        let covered = live-covered observation merged findings t p m n value in
        rolled t p c k
          (subst (λ z. includes z.covered_ys p.y ≡ true) (sym same)
            (subst
              (λ z. includes (consolidation_at observation merged findings z).covered_ys p.y ≡ true)
              here_at covered))
          (unfold consolidation_at in ap (λ z. z.mint) same ∙ sym here_at)

    live-Held :
        {live : Map TokenEventView}
        → ((n : ℕ) → has (captured observation.relays).tokens_by_id (rollover_name n) ≡ false)
        → apply_steps
            (capture_state observation).proofs_by_y
            steps
            (capture_state observation).live_tokens
          ≡ ok live
        → (t : TokenEventView) (p : ProofView) → Member t (merged_live observation.relays)
        → Member p t.proofs
        → has_key (proof_keys t) (mint_proof_key t.mint p.y) ≡ true
        → holds_value (state_in observation.mint t p) ≡ true
        → Held live (mint_proof_key t.mint p.y)
    live-Held unused e t p m n h value =
        let fresh =
          steps-fresh observation merged findings (captured observation.relays).tokens_by_id
            unused in
        elim (Bool-cases (includes (flat_map deleted_ids steps) t.event_id)) [
          | inl gone ↦
              apply_steps-covers (capture_state observation).proofs_by_y steps
                (captured observation.relays).tokens_by_id (mint_proof_key t.mint p.y)
                (capture_state observation).live_tokens e fresh steps-Known
                (deleted-rolled t p m n value gone)
          | inr stays ↦ untouched observation steps (mint_proof_key t.mint p.y) t fresh e m stays h
        ]

-- The plan that is built for a diagnosis can be simulated, and every proof of a live event that its
-- mint reports unspent or pending is afterwards held by a live event, whatever the diagnosis says,
-- where no captured event has the ID of a planned rollover, and events with one ID are of one mint.
pub build_repair_plan-keeps :
    (locale_compare : String → String → Ordering) (observation : DoctorObservation)
    (diagnosis : Diagnosis) (capture_digest : String) (key : ProofKey)
    → ((n : ℕ) → has (captured observation.relays).tokens_by_id (rollover_name n) ≡ false)
    → ((t u : TokenEventView)
        → Member t (merged_live observation.relays)
        → Member u (merged_live observation.relays ++ naive_live observation.relays)
        → t.event_id ≡ u.event_id
        → t.mint ≡ u.mint)
    → has_key (flat_map proof_keys (merged_live observation.relays)) key ≡ true
    → holds_value (mint_state observation.mint key) ≡ true
    → (once : PlanState) × (simulate_plan
          (capture_state observation)
          (build_repair_plan locale_compare observation diagnosis capture_digest).steps
        ≡ ok once)
      × (has_key (live_keys once) key ≡ true)
unfolding build_repair_plan simulate_plan has_key proof_keys
build_repair_plan-keeps locale_compare observation diagnosis capture_digest key unused consistent h
      value =
    let (t, m, held) =
      any-flat_map proof_keys (λ j. same_key j key) (merged_live observation.relays) h in
    let (k, n, same) = any-Member (λ j. same_key j key) (proof_keys t) held in
    let (p, o, name) = map-Member (λ (q : ProofView). mint_proof_key t.mint q.y) t.proofs n in
    let at : mint_proof_key t.mint p.y ≡ key = name ∙ same_key-eq k key same in
    let (live, e) = steps-ok locale_compare observation diagnosis.findings in
    let once : PlanState = record (capture_state observation) { live_tokens = live } in
    let kept =
      live-Held locale_compare observation diagnosis.findings consistent unused e t p m o
        (rw at held) (unfold state_in in rw at value) in
    (once, rw e refl, Held-live once key (subst (Held live) at kept))
