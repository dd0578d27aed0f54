-- ===== src/Doctor/Covered.antt =====
-- What the steps of a repair plan keep: events that no step deletes or replaces, and the proofs that a
-- rollover covers.
use mathlib.Core.Path.{subst}
use cashu_fault_lab.Common.{
  String, Bool, true, false, not, ◌&&◌, ◌≡◌, refl, sym, arith, eq_iff, str_eq, str_eq_refl,
  Bool-cases, Option-cases, ◌⊎◌, inl, inr, some, List, [], ◌∷◌, ◌++◌, map, any, flat_map, includes,
  Map, get, has, put, get-put, ok, bind-eq-ok, ok-injective, any-append, includes-append,
}
use cashu_fault_lab.Doctor.Types.{
  ProofView, TokenEventView, RepairStep, republish_event, publish_rollover, delete_events,
  republish_wallet_event, wallet_action, MintProof,
}
use cashu_fault_lab.Doctor.Plan.{
  find_proof, remove_all, cover, rolled_over, apply_step, apply_steps,
}
use cashu_fault_lab.Doctor.Replay.{get-remove_all}
use cashu_fault_lab.Doctor.Reconstruct.{ProofKey, mint_proof_key, same_key, has_key, proof_keys}
use cashu_fault_lab.Doctor.Check.{keys_at, rollover_ys, deleted_ids}

-- the IDs of the events that a step publishes
abbrev pub rollover_ids : RepairStep → List String
rollover_ids (publish_rollover r) = r.rollover_id ∷ []
rollover_ids (republish_event event_id to_relays) = []
rollover_ids (delete_events event_ids to_relays) = []
rollover_ids (republish_wallet_event event_id to_relays) = []
rollover_ids (wallet_action mint ys) = []

-- Each published ID is new: no captured event has it, and no later rollover.
abbrev pub are_fresh : Map TokenEventView → List String → Bool
are_fresh known [] = true
are_fresh known (id ∷ ids) = not (has known id) && not (includes ids id) && are_fresh known ids

find_proof-y :
    (ps : List MintProof) (mint y : String) {p : ProofView}
    → find_proof ps mint y ≡ some p
    → p.y ≡ y
unfolding find_proof
find_proof-y [] mint y e = absurd (cc)
find_proof-y (q ∷ ps) mint y {p} e =
    ground (arith, eq_iff q.proof.y y, find_proof-y ps mint y {p = p})

cover-has_key :
    (ps : List MintProof) (mint : String) (ys : List String) (key : ProofKey)
    {proofs : List ProofView}
    → cover ps mint ys ≡ ok proofs
    → has_key (keys_at mint ys) key ≡ true
    → has_key (map (λ (p : ProofView). mint_proof_key mint p.y) proofs) key ≡ true
unfolding cover keys_at has_key
cover-has_key ps mint [] key e h = absurd (cc)
cover-has_key ps mint (y ∷ ys) key {proofs} e h =
    let (rest, c, f) = bind-eq-ok (cover ps mint ys) _ e in
    elim (Option-cases (find_proof ps mint y)) [
      | inl lost ↦ absurd (ground arith)
      | inr (p, found) ↦
          let same : proofs ≡ p ∷ rest = ground arith in
          let point : p.y ≡ y = find_proof-y ps mint y found in
          subst
            (λ qs.
              any (λ j. same_key j key) (map (λ (q : ProofView). mint_proof_key mint q.y) qs)
              ≡ true)
            (sym same)
            (elim (Bool-cases (same_key (mint_proof_key mint y) key)) [
              | inl hit ↦ rw (point, hit) refl
              | inr miss ↦ rw point (ground (arith, cover-has_key ps mint ys key c))
            ])
    ]

apply_step-stays :
    (ps : List MintProof) (s : RepairStep) (id : String) {t : TokenEventView}
    (m : Map TokenEventView) {m' : Map TokenEventView}
    → apply_step ps s m ≡ ok m'
    → includes (deleted_ids s) id ≡ false
    → includes (rollover_ids s) id ≡ false
    → get m id ≡ some t
    → get m' id ≡ some t
unfolding apply_step deleted_ids
apply_step-stays ps (publish_rollover r) id m {m'} e d f g =
    let (proofs, c, h) = bind-eq-ok (cover ps r.mint r.covered_ys) _ e in
    let same : put (remove_all r.del m) r.rollover_id (rolled_over r proofs) ≡ m' =
      ok-injective _ m' h in
    rw (← same) (
      rw (get-put (remove_all r.del m) r.rollover_id (rolled_over r proofs) id)
        (ground (arith, get-remove_all r.del m id)))
apply_step-stays ps (delete_events ids to_relays) id m e d f g =
    rw (← ok-injective _ _ e) (rw (get-remove_all ids m id, d) g)
apply_step-stays ps (republish_event event_id to_relays) id m e d f g = rw (← ok-injective _ _ e) g
apply_step-stays ps (republish_wallet_event event_id to_relays) id m e d f g =
    rw (← ok-injective _ _ e) g
apply_step-stays ps (wallet_action mint ys) id m e d f g = rw (← ok-injective _ _ e) g

pub apply_steps-stays :
    (ps : List MintProof) (ss : List RepairStep) (id : String) {t : TokenEventView}
    (m : Map TokenEventView) {m' : Map TokenEventView}
    → apply_steps ps ss m ≡ ok m'
    → includes (flat_map deleted_ids ss) id ≡ false
    → includes (flat_map rollover_ids ss) id ≡ false
    → get m id ≡ some t
    → get m' id ≡ some t
unfolding apply_steps
apply_steps-stays ps [] id m e d f g = rw (← ok-injective _ _ e) g
apply_steps-stays ps (s ∷ ss) id m e d f g =
    let (next, a, b) = bind-eq-ok (apply_step ps s m) _ e in
    let now = includes-append (deleted_ids s) (flat_map deleted_ids ss) id in
    let new = includes-append (rollover_ids s) (flat_map rollover_ids ss) id in
    apply_steps-stays ps ss id next b (ground arith) (ground arith)
      (apply_step-stays ps s id m a (ground arith) (ground arith) g)

-- An event holds the proof.
abbrev pub Held : Map TokenEventView → ProofKey → Type 0
Held m key =
    (id : String) × (t : TokenEventView) × (get m id ≡ some t) × (has_key (proof_keys t) key ≡ true)

-- A rollover holds what it covers, as long as it is neither deleted nor replaced.
apply_step-covers :
    (ps : List MintProof) (s : RepairStep) (ss : List RepairStep) (key : ProofKey)
    (m next : Map TokenEventView) {m' : Map TokenEventView}
    → apply_step ps s m ≡ ok next
    → apply_steps ps ss next ≡ ok m'
    → ((id : String)
        → includes (rollover_ids s) id ≡ true
        → includes (flat_map deleted_ids ss) id ≡ false)
    → ((id : String)
        → includes (rollover_ids s) id ≡ true
        → includes (flat_map rollover_ids ss) id ≡ false)
    → has_key (rollover_ys s) key ≡ true
    → Held m' key
unfolding apply_step rollover_ys has_key
apply_step-covers ps (publish_rollover r) ss key m next {m'} e f kept fresh h =
    let (proofs, c, g) = bind-eq-ok (cover ps r.mint r.covered_ys) _ e in
    let id = r.rollover_id in
    let same : put (remove_all r.del m) id (rolled_over r proofs) ≡ next = ok-injective _ next g in
    let new : includes (id ∷ []) id ≡ true = rw (str_eq_refl id) refl in
    let found : get next id ≡ some (rolled_over r proofs) =
      rw (← same)
        (rw (get-put (remove_all r.del m) id (rolled_over r proofs) id, str_eq_refl id) refl) in
    (
      id,
      rolled_over r proofs,
      apply_steps-stays ps ss id next f (kept id new) (fresh id new) found,
      unfold rolled_over proof_keys in cover-has_key ps r.mint r.covered_ys key c h,
    )
apply_step-covers ps (republish_event event_id to_relays) ss key m next e f kept fresh h =
    absurd (cc)
apply_step-covers ps (delete_events ids to_relays) ss key m next e f kept fresh h = absurd (cc)
apply_step-covers ps (republish_wallet_event event_id to_relays) ss key m next e f kept fresh h =
    absurd (cc)
apply_step-covers ps (wallet_action mint ys) ss key m next e f kept fresh h = absurd (cc)

-- Every ID that a step deletes is that of a captured event.
abbrev pub Known : Map TokenEventView → List String → Type 0
Known known ids = (id : String) → includes ids id ≡ true → has known id ≡ true

pub fresh-unknown :
    (known : Map TokenEventView) (ids : List String) (id : String)
    → are_fresh known ids ≡ true
    → includes ids id ≡ true
    → has known id ≡ false
fresh-unknown known [] id f h = absurd (cc)
fresh-unknown known (i ∷ ids) id f h = elim (Bool-cases (str_eq i id)) [
  | inl hit ↦ subst (λ z. has known z ≡ false) ((eq_iff i id).0 hit) (ground arith)
  | inr miss ↦ fresh-unknown known ids id (ground arith) (ground arith)
]

fresh-later :
    (known : Map TokenEventView) (ids later : List String) (id : String)
    → are_fresh known (ids ++ later) ≡ true
    → includes ids id ≡ true
    → includes later id ≡ false
fresh-later known [] later id f h = absurd (cc)
fresh-later known (i ∷ ids) later id f h = elim (Bool-cases (str_eq i id)) [
  | inl hit ↦
      subst (λ z. includes later z ≡ false) ((eq_iff i id).0 hit)
        (ground (arith, includes-append ids later i))
  | inr miss ↦ fresh-later known ids later id (ground arith) (ground arith)
]

fresh-tail :
    (known : Map TokenEventView) (ids later : List String)
    → are_fresh known (ids ++ later) ≡ true
    → are_fresh known later ≡ true
fresh-tail known [] later f = f
fresh-tail known (i ∷ ids) later f = fresh-tail known ids later (ground arith)

-- What some rollover covers is held at the end.
pub apply_steps-covers :
    (ps : List MintProof) (ss : List RepairStep) (known : Map TokenEventView) (key : ProofKey)
    (m : Map TokenEventView) {m' : Map TokenEventView}
    → apply_steps ps ss m ≡ ok m'
    → are_fresh known (flat_map rollover_ids ss) ≡ true
    → Known known (flat_map deleted_ids ss)
    → has_key (flat_map rollover_ys ss) key ≡ true
    → Held m' key
unfolding apply_steps has_key
apply_steps-covers ps [] known key m e f k h = absurd (cc)
apply_steps-covers ps (s ∷ ss) known key m {m'} e f k h =
    let (next, a, b) = bind-eq-ok (apply_step ps s m) _ e in
    let later = flat_map rollover_ids ss in
    let known_later : Known known (flat_map deleted_ids ss) =
      λ id d. k id (ground (arith, includes-append (deleted_ids s) (flat_map deleted_ids ss) id)) in
    let whole = any-append (λ j. same_key j key) (rollover_ys s) (flat_map rollover_ys ss) in
    elim (Bool-cases (any (λ j. same_key j key) (rollover_ys s))) [
      | inl hit ↦
          apply_step-covers ps s ss key m next a b
            (λ id new.
              spared id new (Bool-cases (includes (flat_map deleted_ids ss) id)) known_later)
            (λ id new. fresh-later known (rollover_ids s) later id f new) hit
      | inr miss ↦
          apply_steps-covers ps ss known key next b (fresh-tail known (rollover_ids s) later f)
            known_later (ground arith)
    ]
  where
    spared :
        (id : String)
        → includes (rollover_ids s) id ≡ true
        → (includes (flat_map deleted_ids ss) id ≡ true)
          ⊎ (includes (flat_map deleted_ids ss) id ≡ false)
        → Known known (flat_map deleted_ids ss)
        → includes (flat_map deleted_ids ss) id ≡ false
    spared id new (inr free) k = free
    spared id new (inl gone) k =
        let lost =
          fresh-unknown known (rollover_ids s ++ flat_map rollover_ids ss) id f
            (ground (arith, includes-append (rollover_ids s) (flat_map rollover_ids ss) id)) in
        absurd (ground (arith, k id gone))
