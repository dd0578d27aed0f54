-- ===== src/Doctor/Live.antt =====
-- The proofs of live events, and the live events that a plan leaves alone.
use mathlib.Core.Path.{subst}
use cashu_fault_lab.Common.{
  String, true, false, ◌≡◌, arith, eq_iff, str_eq, Bool-cases, ◌⊎◌, inl, inr, some, List, [], ◌∷◌,
  Member, here, there, flat_map, includes, Member-any-flat_map, Map, get, values, ok,
}
use cashu_fault_lab.Doctor.Types.{TokenEventView, RepairStep, PlanState, DoctorObservation}
use cashu_fault_lab.Doctor.Plan.{initial_plan_state, apply_steps}
use cashu_fault_lab.Doctor.Reconstruct.{
  ProofKey, same_key, has_key, proof_keys, all_tokens, merged_live,
}
use cashu_fault_lab.Doctor.Check.{deleted_ids, captured, capture_state}
use cashu_fault_lab.Doctor.Events.{
  all_tokens-Distinct, merged_live-Distinct, merged_live-Member, get-index_tokens,
}
use cashu_fault_lab.Doctor.Covered.{rollover_ids, are_fresh, Held, fresh-unknown, apply_steps-stays}

pub live_keys : PlanState → List ProofKey
live_keys state = flat_map proof_keys (values state.live_tokens)

get-Member :
    (m : Map TokenEventView) (id : String) {t : TokenEventView}
    → get m id ≡ some t
    → Member t (values m)
unfolding get values
get-Member [] id e = absurd (cc)
get-Member ((j, u) ∷ m) id {t} e = elim (Bool-cases (str_eq j id)) [
  | inl hit ↦ let same : u ≡ t = ground arith in subst (λ z. Member z (u ∷ values m)) same here
  | inr miss ↦ there (get-Member m id (ground arith))
]

pub Held-live :
    (state : PlanState) (key : ProofKey)
    → Held state.live_tokens key
    → has_key (live_keys state) key ≡ true
unfolding live_keys has_key
Held-live state key (id, t, e, h) =
    Member-any-flat_map proof_keys (λ j. same_key j key) (values state.live_tokens)
      (get-Member state.live_tokens id e) h

pub same_key-eq : (j k : ProofKey) → same_key j k ≡ true → j ≡ k
unfolding same_key
same_key-eq (m, y) (n, z) e = ground (arith, eq_iff m n, eq_iff y z)

pub captured-live :
    (observation : DoctorObservation) {t : TokenEventView}
    → Member t (merged_live observation.relays)
    → get (captured observation.relays).tokens_by_id t.event_id ≡ some t
unfolding captured
captured-live observation m =
    get-index_tokens (all_tokens observation.relays) [] (all_tokens-Distinct observation.relays)
      (merged_live-Member observation.relays m)

-- A live event that no step deletes stays, where the plan publishes new IDs only.
module _ (observation : DoctorObservation) (steps : List RepairStep) (key : ProofKey)
    (t : TokenEventView)
    (fresh : are_fresh (captured observation.relays).tokens_by_id (flat_map rollover_ids steps)
      ≡ true) where
  not_published :
      get (captured observation.relays).tokens_by_id t.event_id ≡ some t
      → (includes (flat_map rollover_ids steps) t.event_id ≡ true)
        ⊎ (includes (flat_map rollover_ids steps) t.event_id ≡ false)
      → includes (flat_map rollover_ids steps) t.event_id ≡ false
  not_published known (inr free) = free
  not_published known (inl taken) =
      let lost =
        fresh-unknown (captured observation.relays).tokens_by_id (flat_map rollover_ids steps)
          t.event_id fresh taken in
      absurd (ground arith)

  pub untouched :
      {live : Map TokenEventView}
      → apply_steps
          (capture_state observation).proofs_by_y
          steps
          (capture_state observation).live_tokens
        ≡ ok live
      → Member t (merged_live observation.relays)
      → includes (flat_map deleted_ids steps) t.event_id ≡ false
      → has_key (proof_keys t) key ≡ true
      → Held live key
  untouched e m stays h =
      let start : get (capture_state observation).live_tokens t.event_id ≡ some t =
        unfold capture_state initial_plan_state in
        get-index_tokens (merged_live observation.relays) []
          (merged_live-Distinct observation.relays) m in
      (
        t.event_id,
        t,
        apply_steps-stays (capture_state observation).proofs_by_y steps t.event_id
            (capture_state observation).live_tokens e stays
            (not_published (captured-live observation m)
              (Bool-cases (includes (flat_map rollover_ids steps) t.event_id)))
            start,
        h,
      )
