-- ===== src/Doctor/Resolved.antt =====
-- packages/wallet-doctor-core/src/plan.ts: where the proofs that rollovers cover were captured, a plan
-- can be simulated.
use cashu_fault_lab.Common.{
  String, true, ◌||◌, ◌≡◌, refl, arith, str_eq_refl, Option-cases, inl, inr, is_some, List, [], ◌∷◌,
  ◌++◌, All, Member, here, there, Map, put, ok, ◌>>=◌,
}
use cashu_fault_lab.Doctor.Types.{
  ProofView, TokenEventView, RepairStep, republish_event, publish_rollover, delete_events,
  republish_wallet_event, wallet_action, MintProof,
}
use cashu_fault_lab.Doctor.Plan.{
  find_proof, add_proof, add_proofs, index_proofs, remove_all, cover, rolled_over, apply_step,
  apply_steps,
}

abbrev pub Finds : List MintProof → String → String → Type 0
Finds ps mint y = is_some (find_proof ps mint y) ≡ true

find-append :
    (ps qs : List MintProof) (mint y : String)
    → is_some (find_proof (ps ++ qs) mint y)
      ≡ (is_some (find_proof ps mint y) || is_some (find_proof qs mint y))
unfolding find_proof
find-append [] qs mint y = refl
find-append (p ∷ ps) qs mint y = ground (arith, find-append ps qs mint y)

add_proof-keeps :
    (mint : String) (p : ProofView) (ps : List MintProof) (m y : String)
    → Finds ps m y
    → Finds (add_proof mint p ps) m y
unfolding add_proof
add_proof-keeps mint p ps m y h =
    ground (arith, find-append ps ((record { mint = mint; proof = p }) ∷ []) m y)

add_proof-Finds :
    (mint : String) (p : ProofView) (ps : List MintProof) → Finds (add_proof mint p ps) mint p.y
unfolding add_proof find_proof
add_proof-Finds mint p ps = ground (
  arith,
  find-append ps ((record { mint = mint; proof = p }) ∷ []) mint p.y,
  str_eq_refl mint,
  str_eq_refl p.y,
)

add_proofs-keeps :
    (mint : String) (qs : List ProofView) (ps : List MintProof) (m y : String)
    → Finds ps m y
    → Finds (add_proofs mint qs ps) m y
unfolding add_proofs
add_proofs-keeps mint [] ps m y h = h
add_proofs-keeps mint (q ∷ qs) ps m y h =
    add_proofs-keeps mint qs (add_proof mint q ps) m y (add_proof-keeps mint q ps m y h)

add_proofs-Finds :
    (mint : String) (qs : List ProofView) (ps : List MintProof) {p : ProofView}
    → Member p qs
    → Finds (add_proofs mint qs ps) mint p.y
unfolding add_proofs
add_proofs-Finds mint [] ps m = elim m [ ]
add_proofs-Finds mint (q ∷ qs) ps here =
    add_proofs-keeps mint qs (add_proof mint q ps) mint q.y (add_proof-Finds mint q ps)
add_proofs-Finds mint (q ∷ qs) ps (there m) = add_proofs-Finds mint qs (add_proof mint q ps) m

index_proofs-keeps :
    (ts : List TokenEventView) (ps : List MintProof) (m y : String)
    → Finds ps m y
    → Finds (index_proofs ts ps) m y
unfolding index_proofs
index_proofs-keeps [] ps m y h = h
index_proofs-keeps (t ∷ ts) ps m y h =
    index_proofs-keeps ts (add_proofs t.mint t.proofs ps) m y
      (add_proofs-keeps t.mint t.proofs ps m y h)

-- Each proof of an indexed event is found.
pub index_proofs-Finds :
    (ts : List TokenEventView) (ps : List MintProof) {t : TokenEventView} {p : ProofView}
    → Member t ts
    → Member p t.proofs
    → Finds (index_proofs ts ps) t.mint p.y
unfolding index_proofs
index_proofs-Finds [] ps m n = elim m [ ]
index_proofs-Finds (t ∷ ts) ps {p = p} here n =
    index_proofs-keeps ts (add_proofs t.mint t.proofs ps) t.mint p.y
      (add_proofs-Finds t.mint t.proofs ps n)
index_proofs-Finds (u ∷ ts) ps (there m) n =
    index_proofs-Finds ts (add_proofs u.mint u.proofs ps) m n

cover-ok :
    (ps : List MintProof) (mint : String) (ys : List String)
    → All (λ y. Finds ps mint y) ys
    → (proofs : List ProofView) × (cover ps mint ys ≡ ok proofs)
unfolding cover
cover-ok ps mint [] h = ([], refl)
cover-ok ps mint (y ∷ ys) h =
    let (rest, e) = cover-ok ps mint ys h.1 in
    elim (Option-cases (find_proof ps mint y)) [
      | inl lost ↦ absurd (ground arith)
      | inr (p, found) ↦ (p ∷ rest, rw e (rw (found, ◌>>=◌) refl))
    ]

-- Every proof that the step covers is found.
unfoldable pub Resolves : List MintProof → RepairStep → Type 0
Resolves ps (publish_rollover r) = All (λ y. Finds ps r.mint y) r.covered_ys
Resolves ps (republish_event event_id to_relays) = Unit
Resolves ps (delete_events event_ids to_relays) = Unit
Resolves ps (republish_wallet_event event_id to_relays) = Unit
Resolves ps (wallet_action mint ys) = Unit

apply_step-ok :
    (ps : List MintProof) (s : RepairStep) (m : Map TokenEventView)
    → Resolves ps s
    → (m' : Map TokenEventView) × (apply_step ps s m ≡ ok m')
unfolding apply_step Resolves
apply_step-ok ps (publish_rollover r) m h =
    let (proofs, e) = cover-ok ps r.mint r.covered_ys h in
    (put (remove_all r.del m) r.rollover_id (rolled_over r proofs), rw e refl)
apply_step-ok ps (republish_event event_id to_relays) m h = (m, refl)
apply_step-ok ps (delete_events event_ids to_relays) m h = (remove_all event_ids m, refl)
apply_step-ok ps (republish_wallet_event event_id to_relays) m h = (m, refl)
apply_step-ok ps (wallet_action mint ys) m h = (m, refl)

pub apply_steps-ok :
    (ps : List MintProof) (ss : List RepairStep) (m : Map TokenEventView)
    → ((s : RepairStep) → Member s ss → Resolves ps s)
    → (m' : Map TokenEventView) × (apply_steps ps ss m ≡ ok m')
unfolding apply_steps
apply_steps-ok ps [] m h = (m, refl)
apply_steps-ok ps (s ∷ ss) m h =
    let (next, e) = apply_step-ok ps s m (h s here) in
    let (m', f) = apply_steps-ok ps ss next (λ r n. h r (there n)) in (m', rw e f)
