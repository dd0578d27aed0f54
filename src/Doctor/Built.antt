-- ===== src/Doctor/Built.antt =====
-- packages/wallet-doctor-oracle/src/plan-build.ts: a plan that is built publishes new IDs only.
use Prim.Native.String.{String}
use mathlib.Core.List.{append_assoc, append-nil}
use cashu_fault_lab.Common.{
  ℕ, suc, ◌<◌, true, false, ◌≡◌, refl, ◌∙◌, arith, eq_iff, Bool-cases, inl, inr, includes, is_empty,
  Option, none, some, List, [], ◌∷◌, ◌++◌, map, flat_map, has, Map,
}
use cashu_fault_lab.Doctor.Types.{
  TokenEventView, WalletEventView, RepairStep, wallet_action, DoctorObservation,
}
use cashu_fault_lab.Doctor.Reconstruct.{MergedView}
use cashu_fault_lab.Doctor.Findings.{Finding}
use cashu_fault_lab.Doctor.Build.{
  Consolidation, rollover_at, rollover_name, consolidations, republish, republish_steps,
  rollover_steps, delete_steps, wallet_steps, orphan_mint, action_steps, plan_steps,
}
use cashu_fault_lab.Doctor.Names.{rollover_name-injective}
use cashu_fault_lab.Doctor.Covered.{rollover_ids, are_fresh}

flat_map-append {ℓ κ} :
    {A : Type ℓ} {B : Type κ} (f : A → List B) (xs ys : List A)
    → flat_map f (xs ++ ys) ≡ flat_map f xs ++ flat_map f ys
flat_map-append f [] ys = refl
flat_map-append f (x ∷ xs) ys = simp (flat_map-append f xs ys, append_assoc)

abbrev pub published : List RepairStep → List String
published ss = flat_map rollover_ids ss

published-append : (xs ys : List RepairStep) → published (xs ++ ys) ≡ published xs ++ published ys
published-append xs ys = flat_map-append rollover_ids xs ys

-- Steps without rollovers, one group for each element of a list.
published-flat_map {ℓ} :
    {A : Type ℓ} (f : A → List RepairStep) (xs : List A)
    → ((x : A) → published (f x) ≡ [])
    → published (flat_map f xs) ≡ []
published-flat_map f [] h = refl
published-flat_map f (x ∷ xs) h =
    published-append (f x) (flat_map f xs) ∙ rw (h x, published-flat_map f xs h) refl

module _ (observation : DoctorObservation) (merged : MergedView) (findings : List Finding) where
  published-republish :
      (t : TokenEventView) → published (republish observation merged findings t) ≡ []
  unfolding republish
  published-republish t = ground arith

  published-delete :
      (cs : List Consolidation) → published (delete_steps observation merged findings cs) ≡ []
  unfolding delete_steps
  published-delete [] = refl
  published-delete (c ∷ cs) = published-delete cs

  published-wallet :
      (w : Option WalletEventView) → published (wallet_steps observation merged findings w) ≡ []
  unfolding wallet_steps
  published-wallet none = refl
  published-wallet (some event) = ground arith

  published-actions :
      (ys mints : List String)
      → published (map (λ (mint : String). wallet_action mint ys) mints) ≡ []
  published-actions ys [] = refl
  published-actions ys (m ∷ ms) = published-actions ys ms

  -- Later rollovers have later names.
  rollovers-later :
      (k n : ℕ) (cs : List Consolidation)
      → k < n
      → includes (published (rollover_steps observation merged findings n cs)) (rollover_name k)
        ≡ false
  unfolding rollover_steps rollover_at
  rollovers-later k n [] l = refl
  rollovers-later k n (c ∷ cs) l = elim (Bool-cases (is_empty c.covered_ys)) [
    | inl bare ↦ rw (bare, rollover_steps) (rollovers-later k n cs l)
    | inr full ↦
        rw (full, rollover_steps)
          (ground (
            arith,
            eq_iff (rollover_name n) (rollover_name k),
            rollover_name-injective n k,
            rollovers-later k (suc n) cs (omega arith),
          ))
  ]

  module _ (known : Map TokenEventView)
      (unused : (n : ℕ) → has known (rollover_name n) ≡ false) where
    rollovers-fresh :
        (n : ℕ) (cs : List Consolidation)
        → are_fresh known (published (rollover_steps observation merged findings n cs)) ≡ true
    unfolding rollover_steps rollover_at
    rollovers-fresh n [] = refl
    rollovers-fresh n (c ∷ cs) = elim (Bool-cases (is_empty c.covered_ys)) [
      | inl bare ↦ rw (bare, rollover_steps) (rollovers-fresh n cs)
      | inr full ↦
          let later : includes
                (flat_map rollover_ids (rollover_steps observation merged findings (suc n) cs))
                (rollover_name n)
              ≡ false =
            rollovers-later n (suc n) cs (omega arith) in
          rw (full, rollover_steps) (ground (arith, unused n, rollovers-fresh (suc n) cs))
    ]

    pub steps-fresh : are_fresh known (published (plan_steps observation merged findings)) ≡ true
    unfolding plan_steps republish_steps action_steps
    steps-fresh =
        rw
          (
            published-append,
            published-append,
            published-append,
            published-append,
            published-flat_map (republish observation merged findings) _ published-republish,
            published-delete,
            published-wallet,
            published-flat_map _ _ (λ (f : Finding).
                published-actions f.ys (orphan_mint observation merged findings f)),
            append-nil,
          )
          (rollovers-fresh 0 (consolidations observation merged findings))
