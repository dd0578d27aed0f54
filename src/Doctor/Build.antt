-- ===== src/Doctor/Build.antt =====
-- packages/wallet-doctor-oracle/src/plan-build.ts: the repair plan for a diagnosis.
use Prim.Native.Nat.{Ordering}
use Prim.Native.String.{◌++◌ as append}
use cashu_fault_lab.Common.{
  ℕ, zero, suc, ◌/◌, ◌%◌, String, Bool, true, false, not, ◌&&◌, ◌||◌, ltb, str_eq, includes, unique,
  sort, is_some, is_empty, Option, none, some, List, [], ◌∷◌, ◌++◌, map, any, filter, flat_map,
  if◌then◌else◌,
}
use cashu_fault_lab.Doctor.Types.{
  ProofView, TokenEventView, WalletEventView, Rollover, RepairStep, republish_event,
  publish_rollover, delete_events, republish_wallet_event, wallet_action, RelayObservation,
  MintObservation, DoctorObservation, RepairPlan,
}
use cashu_fault_lab.Doctor.Reconstruct.{MergedView, ok_relays}
use cashu_fault_lab.Doctor.Merge.{reconstruct_merged}
use cashu_fault_lab.Doctor.Check.{holds_value}
use cashu_fault_lab.Doctor.Findings.{
  DiagnosisCode, relay_partition, ghost_token, orphaned_proofs, del_chain_break, wallet_event_fork,
  Finding, points_of, state_in,
}
use cashu_fault_lab.Doctor.Explain.{is_unspent_now}
use cashu_fault_lab.Doctor.Diagnose.{Diagnosis}

unfoldable pub find_token : List TokenEventView → String → Option TokenEventView
find_token [] event_id = none
find_token (t ∷ ts) event_id = if str_eq t.event_id event_id then some t else find_token ts event_id

unfoldable pub is_consolidated : DiagnosisCode → Bool
is_consolidated ghost_token = true
is_consolidated del_chain_break = true
is_consolidated _ = false

unfoldable pub is_break : DiagnosisCode → Bool
is_break del_chain_break = true
is_break _ = false

unfoldable pub is_partition : DiagnosisCode → Bool
is_partition relay_partition = true
is_partition _ = false

unfoldable pub is_fork : DiagnosisCode → Bool
is_fork wallet_event_fork = true
is_fork _ = false

unfoldable pub is_orphan_finding : DiagnosisCode → Bool
is_orphan_finding orphaned_proofs = true
is_orphan_finding _ = false

-- the events of the findings with such a code
unfoldable pub event_ids_of : (DiagnosisCode → Bool) → List Finding → List String
event_ids_of test findings =
    flat_map (λ (f : Finding). f.event_ids) (filter (λ (f : Finding). test f.code) findings)

unfoldable pub tokens_of : List TokenEventView → List String → List TokenEventView
tokens_of tokens ids =
    flat_map (λ (id : String). elim (find_token tokens id) [ none ↦ [] | some t ↦ t ∷ [] ]) ids

unfoldable pub urls_without : List String → List String → List String
urls_without served urls = filter (λ (url : String). not (includes served url)) urls

-- the decimal digits of an index; `fuel` is more than the number of digits
unfoldable pub digit : List String → ℕ → String
digit [] n = ""
digit (d ∷ ds) zero = d
digit (d ∷ ds) (suc n) = digit ds n

unfoldable pub decimal_digits : ℕ → ℕ → String
decimal_digits zero n = ""
decimal_digits (suc fuel) n =
    let front = decimal_digits fuel (n / 10) in
    let last = digit ("0" ∷ "1" ∷ "2" ∷ "3" ∷ "4" ∷ "5" ∷ "6" ∷ "7" ∷ "8" ∷ "9" ∷ []) (n % 10) in
    if ltb n 10 then last else append front last

unfoldable pub rollover_name : ℕ → String
rollover_name n = append "planned:rollover:" (decimal_digits (suc n) n)

-- what is deleted and covered at one mint
pub record Consolidation : Type 0 where
  pub mint : String
  pub unit : String
  pub covered_ys : List String
  pub delete_ids : List String

-- the member of a list of one
unfoldable pub only : List String → List String
only (m ∷ []) = m ∷ []
only _ = []

unfoldable pub unit_of : List TokenEventView → String
unit_of [] = "sat"
unit_of (t ∷ ts) = t.unit

module _ (observation : DoctorObservation) (merged : MergedView) (findings : List Finding) where
  unfoldable pub both_live : List TokenEventView
  both_live = merged.live_tokens ++ merged.naive_live_tokens

  unfoldable pub ok_urls : List String
  ok_urls = sort (map (λ (r : RelayObservation). r.url) (ok_relays observation.relays))

  unfoldable pub consolidation_mints : List String
  consolidation_mints = unique (
      map (λ (t : TokenEventView). t.mint)
        (tokens_of both_live (event_ids_of is_consolidated findings)))

  unfoldable pub broken_ids : List String
  broken_ids =
      filter (λ (id : String). is_some (find_token both_live id)) (event_ids_of is_break findings)

  unfoldable pub republish : TokenEventView → List RepairStep
  republish t =
      let lacking = urls_without t.seen_on ok_urls in
      if includes consolidation_mints t.mint || is_empty lacking
      then []
      else republish_event t.event_id lacking ∷ []

  unfoldable pub republish_steps : List RepairStep
  republish_steps =
      flat_map republish (tokens_of both_live (sort (unique (event_ids_of is_partition findings))))

  unfoldable pub live_for : String → List TokenEventView
  live_for mint = filter (λ (t : TokenEventView). str_eq t.mint mint) merged.live_tokens

  unfoldable pub broken_for : String → List TokenEventView
  broken_for mint =
      filter (λ (t : TokenEventView). str_eq t.mint mint && includes broken_ids t.event_id)
        merged.naive_live_tokens

  unfoldable pub deletes_for : String → List String
  deletes_for mint =
      sort (unique (map (λ (t : TokenEventView). t.event_id) (live_for mint ++ broken_for mint)))

  unfoldable pub has_unchecked : TokenEventView → Bool
  has_unchecked t = any (λ (p : ProofView). not (is_some (state_in observation.mint t p))) t.proofs

  unfoldable pub covered_in : TokenEventView → List String
  covered_in t =
      points_of (filter (λ (p : ProofView). holds_value (state_in observation.mint t p)) t.proofs)

  unfoldable pub consolidation_at : String → Consolidation
  consolidation_at mint = record {
    mint = mint;
    unit = unit_of (live_for mint);
    covered_ys = sort (unique (flat_map covered_in (live_for mint)));
    delete_ids = deletes_for mint;
  }

  unfoldable pub consolidate : String → List Consolidation
  consolidate mint =
      if is_empty (deletes_for mint) || any has_unchecked (tokens_of both_live (deletes_for mint))
      then []
      else consolidation_at mint ∷ []

  unfoldable pub consolidations : List Consolidation
  consolidations = flat_map consolidate (sort consolidation_mints)

  unfoldable pub rollover_at : ℕ → Consolidation → Rollover
  rollover_at n c = record {
    rollover_id = rollover_name n;
    mint = c.mint;
    unit = c.unit;
    covered_ys = c.covered_ys;
    del = c.delete_ids;
    to_relays = ok_urls;
  }

  unfoldable pub rollover_steps : ℕ → List Consolidation → List RepairStep
  rollover_steps n [] = []
  rollover_steps n (c ∷ cs) = elim (is_empty c.covered_ys) [
    | true ↦ rollover_steps n cs
    | false ↦ publish_rollover (rollover_at n c) ∷ rollover_steps (suc n) cs
  ]

  unfoldable pub delete_steps : List Consolidation → List RepairStep
  delete_steps cs = map (λ (c : Consolidation). delete_events c.delete_ids ok_urls) cs

  unfoldable pub wallet_steps : Option WalletEventView → List RepairStep
  wallet_steps none = []
  wallet_steps (some event) =
      let stale = sort (
        unique (
          flat_map (λ (f : Finding). urls_without event.seen_on f.relays)
            (filter (λ (f : Finding). is_fork f.code) findings))) in
      if is_empty stale then [] else republish_wallet_event event.event_id stale ∷ []

  -- the mint of an orphan finding
  unfoldable pub orphan_mint : Finding → List String
  orphan_mint f = elim f.mint [
    | some mint ↦ mint ∷ []
    | none ↦ only (
        unique (
          map (λ (o : MintObservation). o.mint)
            (filter (λ (o : MintObservation). includes f.ys o.y && is_unspent_now (some o.state))
              observation.mint)))
  ]

  unfoldable pub action_steps : List RepairStep
  action_steps =
      flat_map (λ (f : Finding). map (λ (mint : String). wallet_action mint f.ys) (orphan_mint f))
        (filter (λ (f : Finding). is_orphan_finding f.code) findings)

  unfoldable pub plan_steps : List RepairStep
  plan_steps =
      republish_steps
      ++ (rollover_steps 0 consolidations
          ++ (delete_steps consolidations ++ (wallet_steps merged.wallet_event ++ action_steps)))

unfoldable pub build_repair_plan :
    (String → String → Ordering) → DoctorObservation → Diagnosis → String → RepairPlan
build_repair_plan locale_compare observation diagnosis capture_digest = record {
  subject = observation.subject;
  capture_digest = capture_digest;
  steps =
      plan_steps observation (reconstruct_merged locale_compare observation.relays)
        diagnosis.findings;
}
