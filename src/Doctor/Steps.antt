-- ===== src/Doctor/Steps.antt =====
-- packages/wallet-doctor-oracle/src/plan-build.ts: the steps of a plan that is built, and what they delete
-- and cover.
use cashu_fault_lab.Common.{
  ℕ, suc, String, Bool, true, false, ◌≡◌, refl, arith, str_eq_refl, Bool-cases, inl, inr, includes,
  is_empty, Option, none, some, List, [], ◌∷◌, ◌++◌, map, flat_map, All, All-Member, Member, here,
  there, Member-flat_map, Member-includes, includes-Member, if◌then◌else◌,
}
use cashu_fault_lab.Doctor.Types.{
  TokenEventView, WalletEventView, RepairStep, republish_event, publish_rollover, delete_events,
  republish_wallet_event, wallet_action, DoctorObservation,
}
use cashu_fault_lab.Doctor.Reconstruct.{MergedView, mint_proof_key, same_key, has_key}
use cashu_fault_lab.Doctor.Check.{keys_at, rollover_ys, deleted_ids}
use cashu_fault_lab.Doctor.Findings.{Finding}
use cashu_fault_lab.Doctor.Build.{
  Consolidation, rollover_at, consolidations, republish, republish_steps, rollover_steps,
  delete_steps, wallet_steps, orphan_mint, action_steps, plan_steps,
}

module _ {ℓ κ} {A : Type ℓ} (P : A → Type κ) where
  All-unless : (b : Bool) (x : A) → P x → All P (if b then [] else x ∷ [])
  All-unless true x h = tt
  All-unless false x h = (h, tt)

  All-append : (xs ys : List A) → All P xs → All P ys → All P (xs ++ ys)
  All-append [] ys h k = k
  All-append (x ∷ xs) ys h k = (h.0, All-append xs ys h.1 k)

All-flat_map {ℓ κ μ} :
    {A : Type ℓ} {B : Type κ} (P : B → Type μ) (f : A → List B) (xs : List A)
    → ((x : A) → All P (f x))
    → All P (flat_map f xs)
All-flat_map P f [] h = tt
All-flat_map P f (x ∷ xs) h = All-append P (f x) (flat_map f xs) (h x) (All-flat_map P f xs h)

keys_at-has_key :
    (mint : String) (ys : List String) (y : String)
    → includes ys y ≡ true
    → has_key (keys_at mint ys) (mint_proof_key mint y) ≡ true
unfolding has_key keys_at same_key mint_proof_key
keys_at-has_key mint [] y e = absurd (cc)
keys_at-has_key mint (z ∷ ys) y e = ground (arith, str_eq_refl mint, keys_at-has_key mint ys y)

-- A property of every step that a plan may have holds of the steps of the plan.
module _ (observation : DoctorObservation) (merged : MergedView) (findings : List Finding)
    (P : RepairStep → Type 0)
    (republished : (id : String) (urls : List String) → P (republish_event id urls))
    (wallet : (id : String) (urls : List String) → P (republish_wallet_event id urls))
    (restored : (mint : String) (ys : List String) → P (wallet_action mint ys))
    (rolled : (n : ℕ) (c : Consolidation)
      → Member c (consolidations observation merged findings)
      → P (publish_rollover (rollover_at observation merged findings n c)))
    (deleted : (c : Consolidation) (urls : List String)
      → Member c (consolidations observation merged findings)
      → P (delete_events c.delete_ids urls)) where
  each_republish : (t : TokenEventView) → All P (republish observation merged findings t)
  unfolding republish
  each_republish t = All-unless P _ _ (republished _ _)

  each_rollover :
      (n : ℕ) (cs : List Consolidation)
      → ((c : Consolidation) → Member c cs → Member c (consolidations observation merged findings))
      → All P (rollover_steps observation merged findings n cs)
  unfolding rollover_steps
  each_rollover n [] h = tt
  each_rollover n (c ∷ cs) h = elim (Bool-cases (is_empty c.covered_ys)) [
    | inl bare ↦ rw (bare, rollover_steps) (each_rollover n cs (λ d m. h d (there m)))
    | inr full ↦
        rw (full, rollover_steps)
          (rolled n c (h c here), each_rollover (suc n) cs (λ d m. h d (there m)))
  ]

  each_deleted :
      (cs : List Consolidation)
      → ((c : Consolidation) → Member c cs → Member c (consolidations observation merged findings))
      → All P (delete_steps observation merged findings cs)
  unfolding delete_steps
  each_deleted [] h = tt
  each_deleted (c ∷ cs) h = (deleted c _ (h c here), each_deleted cs (λ d m. h d (there m)))

  each_wallet : (w : Option WalletEventView) → All P (wallet_steps observation merged findings w)
  unfolding wallet_steps
  each_wallet none = tt
  each_wallet (some event) = All-unless P _ _ (wallet _ _)

  each_action :
      (ys mints : List String) → All P (map (λ (mint : String). wallet_action mint ys) mints)
  each_action ys [] = tt
  each_action ys (m ∷ ms) = (restored m ys, each_action ys ms)

  pub each_step : All P (plan_steps observation merged findings)
  unfolding plan_steps republish_steps action_steps
  each_step =
      All-append P _ _ (All-flat_map P (republish observation merged findings) _ each_republish) (
        All-append P _ _ (each_rollover 0 (consolidations observation merged findings) (λ c m. m)) (
          All-append P _ _ (each_deleted (consolidations observation merged findings) (λ c m. m)) (
            All-append P _ _ (each_wallet merged.wallet_event) (
              All-flat_map P _ _
                (λ (f : Finding). each_action f.ys (orphan_mint observation merged findings f))))))

module _ (observation : DoctorObservation) (merged : MergedView) (findings : List Finding) where
  -- What a plan deletes, one of its consolidations deletes.
  Deletes : RepairStep → Type 0
  Deletes s =
      (id : String)
      → includes (deleted_ids s) id ≡ true
      → (c : Consolidation) × Member c (consolidations observation merged findings)
        × (includes c.delete_ids id ≡ true)

  pub deleted-consolidated :
      (id : String)
      → includes (flat_map deleted_ids (plan_steps observation merged findings)) id ≡ true
      → (c : Consolidation) × Member c (consolidations observation merged findings)
        × (includes c.delete_ids id ≡ true)
  unfolding Deletes deleted_ids rollover_at
  deleted-consolidated id e =
      let (s, m, n) = Member-flat_map deleted_ids _ (includes-Member _ id e) in
      All-Member Deletes (plan_steps observation merged findings) m
        (each_step observation merged findings Deletes (λ i urls j f. absurd (cc))
          (λ i urls j f. absurd (cc)) (λ mint ys j f. absurd (cc)) (λ n c k j f. (c, k, f))
          (λ c urls k j f. (c, k, f)))
        id (Member-includes _ n)

  -- A consolidation that covers a proof is published.
  pub rollover-covers :
      (n : ℕ) (cs : List Consolidation) {c : Consolidation} (y : String)
      → Member c cs
      → includes c.covered_ys y ≡ true
      → (s : RepairStep) × Member s (rollover_steps observation merged findings n cs)
        × (has_key (rollover_ys s) (mint_proof_key c.mint y) ≡ true)
  unfolding rollover_steps
  rollover-covers n [] y m e = elim m [ ]
  rollover-covers n (c ∷ cs) y here e =
      rw (nonempty c.covered_ys e, rollover_steps)
        (
          publish_rollover (rollover_at observation merged findings n c),
          here,
          unfold rollover_at rollover_ys in keys_at-has_key c.mint c.covered_ys y e,
        )
    where
      nonempty : (ys : List String) → includes ys y ≡ true → is_empty ys ≡ false
      nonempty [] e = cc
      nonempty (z ∷ ys) e = refl
  rollover-covers n (d ∷ cs) y (there m) e = elim (Bool-cases (is_empty d.covered_ys)) [
    | inl bare ↦ rw (bare, rollover_steps) (rollover-covers n cs y m e)
    | inr full ↦
        let (s, k, h) = rollover-covers (suc n) cs y m e in
        rw (full, rollover_steps) (s, there k, h)
  ]
