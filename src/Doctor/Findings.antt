-- ===== src/Doctor/Findings.antt =====
-- packages/wallet-doctor-oracle/src/diagnose.ts: findings, without the texts that explain them, and
-- the rules about the tokens of a wallet.
use Prim.Native.Nat.{Ordering}
use cashu_fault_lab.Common.{
  ℕ, ◌+◌, String, Bool, true, false, not, ◌||◌, str_eq, includes, sort, is_some, is_empty, Option,
  none, some, List, [], ◌∷◌, ◌++◌, map, any, filter, flat_map, Map, get, put, if◌then◌else◌,
}
use cashu_fault_lab.Doctor.Types.{
  ProofView, TokenEventView, ProofState, unspent, spent, pending, MintObservation,
}
use cashu_fault_lab.Doctor.Plan.{sum_proofs}
use cashu_fault_lab.Doctor.Reconstruct.{
  RelayView, OrphanCandidate, MergedView, mint_proof_key, add_each,
}
use cashu_fault_lab.Doctor.Merge.{mint_state, sort_by}
use cashu_fault_lab.Doctor.Check.{is_spent}

pub data DiagnosisCode : Type 0 where
  relay_partition ghost_token orphaned_proofs del_chain_break wallet_event_fork
        deletion_not_propagated history_gap quote_limbo malformed_event :
      DiagnosisCode

pub data Severity : Type 0 where
  error warning info : Severity

pub record Finding : Type 0 where
  pub code : DiagnosisCode
  pub severity : Severity
  pub relays : List String
  pub event_ids : List String
  pub ys : List String
  pub mint : Option String
  pub amount_at_risk : ℕ

unfoldable pub points_of : List ProofView → List String
points_of proofs = map (λ (p : ProofView). p.y) proofs

unfoldable pub partition_of : List String → TokenEventView → List Finding
partition_of ok_urls t =
    let present = filter (includes ok_urls) t.seen_on in
    let absent = filter (λ (url : String). not (includes t.seen_on url)) ok_urls in
    if is_empty present || is_empty absent
    then []
    else (record {
      code = relay_partition;
      severity = warning;
      relays = present ++ absent;
      event_ids = t.event_id ∷ [];
      ys = points_of t.proofs;
      mint = none;
      amount_at_risk = sum_proofs t.proofs;
    })
      ∷ []

unfoldable pub relay_partitions : MergedView → List String → List Finding
relay_partitions merged ok_urls = flat_map (partition_of ok_urls) merged.live_tokens

-- the state of a proof of the token
unfoldable pub state_in : List MintObservation → TokenEventView → ProofView → Option ProofState
state_in mint t p = mint_state mint (mint_proof_key t.mint p.y)

unfoldable pub spent_proofs : List MintObservation → TokenEventView → List ProofView
spent_proofs mint t = filter (λ (p : ProofView). is_spent (state_in mint t p)) t.proofs

unfoldable pub ghost_of : List MintObservation → TokenEventView → List Finding
ghost_of mint t =
    if is_empty t.proofs
      || any (λ (p : ProofView). not (is_some (state_in mint t p))) t.proofs
      || is_empty (spent_proofs mint t)
    then []
    else (record {
      code = ghost_token;
      severity = error;
      relays = t.seen_on;
      event_ids = t.event_id ∷ [];
      ys = sort (points_of (spent_proofs mint t));
      mint = none;
      amount_at_risk = sum_proofs (spent_proofs mint t);
    })
      ∷ []

unfoldable pub ghost_tokens : MergedView → List MintObservation → List Finding
ghost_tokens merged mint = flat_map (ghost_of mint) merged.live_tokens

-- an entry of `byMint`
pub record Orphaned : Type 0 where
  pub ys : List String
  pub event_ids : List String
  pub amount : ℕ

unfoldable pub is_recoverable : List MintObservation → OrphanCandidate → Bool
is_recoverable mint o = elim (mint_state mint (mint_proof_key o.mint o.y)) [
  | none ↦ false
  | some unspent ↦ true
  | some spent ↦ false
  | some pending ↦ false
]

unfoldable pub entry_of : Option Orphaned → Orphaned
entry_of (some entry) = entry
entry_of none = record { ys = []; event_ids = []; amount = 0 }

unfoldable pub add_candidate : Map Orphaned → OrphanCandidate → Map Orphaned
add_candidate by_mint o =
    let entry = entry_of (get by_mint o.mint) in
    put by_mint o.mint (record {
      ys = entry.ys ++ (o.y ∷ []);
      event_ids = add_each entry.event_ids o.last_seen_in;
      amount = entry.amount + o.amount;
    })

unfoldable pub group_orphans :
    List MintObservation → Map Orphaned → List OrphanCandidate → Map Orphaned
group_orphans mint by_mint [] = by_mint
group_orphans mint by_mint (o ∷ os) =
    group_orphans mint (if is_recoverable mint o then add_candidate by_mint o else by_mint) os

unfoldable pub orphan_finding : String × Orphaned → Finding
orphan_finding (mint, entry) = record {
  code = orphaned_proofs;
  severity = error;
  relays = [];
  event_ids = sort entry.event_ids;
  ys = sort entry.ys;
  mint = some mint;
  amount_at_risk = entry.amount;
}

unfoldable pub find_orphans :
    (String → String → Ordering) → MergedView → List MintObservation → List Finding
find_orphans locale_compare merged mint = map orphan_finding (
    sort_by (λ (a b : String × Orphaned). locale_compare a.0 b.0)
      (group_orphans mint [] merged.orphan_candidates))

unfoldable pub serves : String → RelayView → Bool
serves event_id view = any (λ (t : TokenEventView). str_eq t.event_id event_id) view.live_tokens

unfoldable pub break_of : MergedView → List RelayView → TokenEventView → List Finding
break_of merged per_relay t =
    let live_on = sort (map (λ (v : RelayView). v.url) (filter (serves t.event_id) per_relay)) in
    if any (λ (u : TokenEventView). str_eq u.event_id t.event_id) merged.live_tokens
      || not (includes merged.superseded_anywhere t.event_id)
      || is_empty live_on
    then []
    else (record {
      code = del_chain_break;
      severity = error;
      relays = live_on;
      event_ids = t.event_id ∷ [];
      ys = points_of t.proofs;
      mint = none;
      amount_at_risk = sum_proofs t.proofs;
    })
      ∷ []

unfoldable pub del_chain_breaks : MergedView → List RelayView → List Finding
del_chain_breaks merged per_relay = flat_map (break_of merged per_relay) merged.naive_live_tokens
