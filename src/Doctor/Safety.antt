-- ===== src/Doctor/Safety.antt =====
-- What the check of a repair plan promises: an accepted plan loses no value.
use mathlib.Core.Path.{subst}
use cashu_fault_lab.Common.{
  String, true, false, not, ◌||◌, ◌≡◌, refl, arith, is_empty, Bool-cases, Option-cases, ◌⊎◌, inl,
  inr, some, List, [], ◌∷◌, map, Member, flat_map, includes, includes-Member, any-Member, filter,
  includes-append, any-flat_map, flat_map-eq-nil, append-eq-nil, filter-eq-nil, Map, get, has,
  Result, ok, err, bind-eq-ok, ok-injective,
}
use cashu_fault_lab.Doctor.Types.{
  TokenEventView, RepairStep, republish_event, publish_rollover, delete_events,
  republish_wallet_event, wallet_action, PlanState, MintObservation, DoctorObservation, RepairPlan,
}
use cashu_fault_lab.Doctor.Plan.{simulate_plan, apply_steps}
use cashu_fault_lab.Doctor.Reconstruct.{ProofKey, same_key, has_key, proof_keys, merged_live}
use cashu_fault_lab.Doctor.Merge.{mint_state}
use cashu_fault_lab.Doctor.Check.{
  Violation, unknown_reference, rollover_ys, restore_ys, deleted_ids, Captured, captured,
  unknown_events, check_references, check_dropped, check_deleted, holds_value, check_simulated,
  simulate_twice, capture_state, check_steps, check_repair_plan, rejected,
}
use cashu_fault_lab.Doctor.Live.{live_keys, Held-live, same_key-eq, captured-live, untouched}
use cashu_fault_lab.Doctor.Covered.{rollover_ids, are_fresh, Held, Known, apply_steps-covers}

-- An accepted plan can be simulated, and has no violation before that.
accepted :
    (observation : DoctorObservation) (before : List Violation)
    (result : Result (Unit {0}) (PlanState × PlanState))
    → (check_simulated observation before result).ok ≡ true
    → (once : PlanState) × (twice : PlanState) × (result ≡ ok (once, twice)) × (before ≡ [])
unfolding check_simulated rejected
accepted observation before (err _) e = absurd (cc)
accepted observation before (ok (once, twice)) e =
    (once, twice, refl, no_violation before (ground arith))
  where
    no_violation : (vs : List Violation) → is_empty vs ≡ true → vs ≡ []
    no_violation [] e = refl
    no_violation (v ∷ vs) e = absurd (cc)

unknown_events-nil :
    (c : Captured) (ids : List String) (id : String)
    → unknown_events c ids ≡ []
    → includes ids id ≡ true
    → has c.tokens_by_id id ≡ true
unfolding unknown_events
unknown_events-nil c ids id e h =
    let unknown = λ (i : String). not (has c.tokens_by_id i) in
    let known : unknown id ≡ false =
      filter-eq-nil unknown ids (map-eq-nil (filter unknown ids) e) (includes-Member ids id h) in
    ground arith
  where
    map-eq-nil : (xs : List String) → map unknown_reference xs ≡ [] → xs ≡ []
    map-eq-nil [] e = refl
    map-eq-nil (x ∷ xs) e = absurd (cc)

check_references-Known :
    (c : Captured) (s : RepairStep)
    → check_references c s ≡ []
    → Known c.tokens_by_id (deleted_ids s)
unfolding check_references deleted_ids
check_references-Known c (publish_rollover r) e =
    λ id h. unknown_events-nil c r.del id (append-eq-nil _ _ e).1 h
check_references-Known c (delete_events ids to_relays) e = λ id h. unknown_events-nil c ids id e h
check_references-Known c (republish_event event_id to_relays) e = λ id h. absurd (cc)
check_references-Known c (republish_wallet_event event_id to_relays) e = λ id h. absurd (cc)
check_references-Known c (wallet_action mint ys) e = λ id h. absurd (cc)

steps-Known :
    (c : Captured) (ss : List RepairStep)
    → flat_map (check_references c) ss ≡ []
    → Known c.tokens_by_id (flat_map deleted_ids ss)
steps-Known c [] e = λ id h. absurd (cc)
steps-Known c (s ∷ ss) e =
    let (a, b) = append-eq-nil (check_references c s) (flat_map (check_references c) ss) e in
    λ id h. elim (Bool-cases (includes (deleted_ids s) id)) [
      | inl now ↦ check_references-Known c s a id now
      | inr later ↦
          steps-Known c ss b id
            (ground (arith, includes-append (deleted_ids s) (flat_map deleted_ids ss) id))
    ]

-- Value in an event that an accepted plan deletes is covered or restored.
dropped-covered :
    (mint : List MintObservation) (covered restored : List ProofKey) (c : Captured) (id : String)
    (t : TokenEventView) (key : ProofKey)
    → check_deleted mint covered restored c id ≡ []
    → get c.tokens_by_id id ≡ some t
    → has_key (proof_keys t) key ≡ true
    → holds_value (mint_state mint key) ≡ true
    → (has_key covered key || has_key restored key) ≡ true
unfolding check_deleted has_key
dropped-covered mint covered restored c id t key e f h v =
    let (k, m, same) = any-Member (λ j. same_key j key) (proof_keys t) h in
    let checks : flat_map (check_dropped mint covered restored id) (proof_keys t) ≡ [] =
      ground arith in
    let eq = same_key-eq k key same in
    let none_at : check_dropped mint covered restored id key ≡ [] =
      subst (λ j. check_dropped mint covered restored id j ≡ []) eq
        (flat_map-eq-nil (check_dropped mint covered restored id) (proof_keys t) checks m) in
    unfold check_dropped in
    elim (Option-cases (mint_state mint key)) [
      | inl lost ↦ absurd (unfold holds_value in ground arith)
      | inr (state, found) ↦ unfold holds_value has_key in ground arith
    ]

-- A live proof of value is held after the steps, or is to be restored.
module _ (observation : DoctorObservation) (steps : List RepairStep) (key : ProofKey)
    (fresh : are_fresh (captured observation.relays).tokens_by_id (flat_map rollover_ids steps)
      ≡ true)
    (clean : check_steps observation steps ≡ [])
    (value : holds_value (mint_state observation.mint key) ≡ true) where
  deleted-kept :
      (id : String) (t : TokenEventView) (m : Map TokenEventView) {m' : Map TokenEventView}
      → apply_steps (capture_state observation).proofs_by_y steps m ≡ ok m'
      → includes (flat_map deleted_ids steps) id ≡ true
      → get (captured observation.relays).tokens_by_id id ≡ some t
      → has_key (proof_keys t) key ≡ true
      → Held m' key ⊎ (has_key (flat_map restore_ys steps) key ≡ true)
  unfolding check_steps
  deleted-kept id t m {m'} e d g h =
      let covered = flat_map rollover_ys steps in
      let restored = flat_map restore_ys steps in
      let checks =
        append-eq-nil (flat_map (check_references (captured observation.relays)) steps)
          (flat_map (check_deleted observation.mint covered restored (captured observation.relays))
            (flat_map deleted_ids steps))
          clean in
      let quiet =
        flat_map-eq-nil
          (check_deleted observation.mint covered restored (captured observation.relays))
          (flat_map deleted_ids steps) checks.1
          (includes-Member (flat_map deleted_ids steps) id d) in
      let safe =
        dropped-covered observation.mint covered restored (captured observation.relays) id t key
          quiet g h value in
      elim (Bool-cases (has_key covered key)) [
        | inl hit ↦ inl (
            apply_steps-covers (capture_state observation).proofs_by_y steps
              (captured observation.relays).tokens_by_id key m e fresh
              (steps-Known (captured observation.relays) steps checks.0) hit)
        | inr miss ↦ inr (ground arith)
      ]

  kept :
      (t : TokenEventView) {live : Map TokenEventView}
      → apply_steps
          (capture_state observation).proofs_by_y
          steps
          (capture_state observation).live_tokens
        ≡ ok live
      → Member t (merged_live observation.relays)
      → has_key (proof_keys t) key ≡ true
      → Held live key ⊎ (has_key (flat_map restore_ys steps) key ≡ true)
  kept t {live} e m h = elim (Bool-cases (includes (flat_map deleted_ids steps) t.event_id)) [
    | inl gone ↦
        deleted-kept t.event_id t (capture_state observation).live_tokens e gone
          (captured-live observation m) h
    | inr stays ↦ inl (untouched observation steps key t fresh e m stays h)
  ]

-- Where the check accepts a repair plan that publishes new IDs only, the plan can be simulated, and
-- every proof of a live event that its mint reports unspent or pending is afterwards held by a live
-- event or named by a wallet action of the plan.
pub check_repair_plan-keeps :
    (observation : DoctorObservation) (plan : RepairPlan) (key : ProofKey)
    → are_fresh (captured observation.relays).tokens_by_id (flat_map rollover_ids plan.steps) ≡ true
    → (check_repair_plan observation plan).ok ≡ true
    → has_key (flat_map proof_keys (merged_live observation.relays)) key ≡ true
    → holds_value (mint_state observation.mint key) ≡ true
    → (once : PlanState) × (simulate_plan (capture_state observation) plan.steps ≡ ok once)
      × ((has_key (live_keys once) key ≡ true)
          ⊎ (has_key (flat_map restore_ys plan.steps) key ≡ true))
unfolding check_repair_plan simulate_twice simulate_plan has_key
check_repair_plan-keeps observation plan key fresh e h value =
    let (once, twice, both, clean) =
      accepted observation (check_steps observation plan.steps)
        (simulate_twice (capture_state observation) plan.steps) e in
    let (first, a, rest) =
      bind-eq-ok (simulate_plan (capture_state observation) plan.steps) _ both in
    let (live, b, c) =
      bind-eq-ok
        (apply_steps (capture_state observation).proofs_by_y plan.steps
          (capture_state observation).live_tokens)
        _ a in
    let (t, m, holds) =
      any-flat_map proof_keys (λ j. same_key j key) (merged_live observation.relays) h in
    let same : record (capture_state observation) { live_tokens = live } ≡ first =
      ok-injective _ first c in
    (
      first,
      a,
      ending first (
          subst
            (λ z. Held z.live_tokens key ⊎ (has_key (flat_map restore_ys plan.steps) key ≡ true))
            same (kept observation plan.steps key fresh clean value t b m holds)),
    )
  where
    ending :
        (once : PlanState)
        → Held once.live_tokens key ⊎ (has_key (flat_map restore_ys plan.steps) key ≡ true)
        → (has_key (live_keys once) key ≡ true)
          ⊎ (has_key (flat_map restore_ys plan.steps) key ≡ true)
    ending once (inl held) = inl (Held-live once key held)
    ending once (inr restored) = inr restored
