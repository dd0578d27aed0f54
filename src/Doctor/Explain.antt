-- ===== src/Doctor/Explain.antt =====
-- packages/wallet-doctor-oracle/src/diagnose.ts: why two applications disagree about a balance.
use cashu_fault_lab.Common.{
  ℕ, ◌+◌, String, Bool, true, false, Option, none, some, List, [], ◌∷◌, map, if◌then◌else◌,
}
use cashu_fault_lab.Doctor.Types.{
  ProofView, TokenEventView, RelayStatus, ProofState, unspent, spent, pending, MintObservation,
}
use cashu_fault_lab.Doctor.Reconstruct.{RelayView, OrphanCandidate, MergedView}
use cashu_fault_lab.Doctor.Check.{is_spent}
use cashu_fault_lab.Doctor.Findings.{state_in, is_recoverable}

pub record RelayBalance : Type 0 where
  pub url : String
  pub status : RelayStatus
  pub balance : ℕ

pub record BalanceExplanation : Type 0 where
  pub per_relay : List RelayBalance
  pub naive_merged : ℕ
  pub merged : ℕ
  pub mint_verified : ℕ
  pub double_counted : ℕ
  pub ghost : ℕ
  pub orphaned_unspent : ℕ

unfoldable pub is_unspent_now : Option ProofState → Bool
is_unspent_now none = false
is_unspent_now (some unspent) = true
is_unspent_now (some spent) = false
is_unspent_now (some pending) = false

-- the amounts of the proofs in a state
unfoldable pub sum_in :
    (Option ProofState → Bool) → List MintObservation → TokenEventView → List ProofView → ℕ
sum_in test mint t [] = 0
sum_in test mint t (p ∷ ps) =
    let rest = sum_in test mint t ps in if test (state_in mint t p) then p.amount + rest else rest

unfoldable pub sum_live :
    (Option ProofState → Bool) → List MintObservation → List TokenEventView → ℕ
sum_live test mint [] = 0
sum_live test mint (t ∷ ts) = sum_in test mint t t.proofs + sum_live test mint ts

unfoldable pub sum_orphans : List MintObservation → List OrphanCandidate → ℕ
sum_orphans mint [] = 0
sum_orphans mint (o ∷ os) =
    let rest = sum_orphans mint os in if is_recoverable mint o then o.amount + rest else rest

unfoldable pub relay_balance : RelayView → RelayBalance
relay_balance view = record { url = view.url; status = view.status; balance = view.balance }

unfoldable pub explain_balance :
    List RelayView → MergedView → List MintObservation → BalanceExplanation
explain_balance per_relay merged mint = record {
  per_relay = map relay_balance per_relay;
  naive_merged = merged.naive_balance;
  merged = merged.balance;
  mint_verified =
      sum_live is_unspent_now mint merged.live_tokens + sum_orphans mint merged.orphan_candidates;
  double_counted = merged.double_counted;
  ghost = sum_live is_spent mint merged.live_tokens;
  orphaned_unspent = sum_orphans mint merged.orphan_candidates;
}
