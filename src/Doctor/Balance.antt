-- ===== src/Doctor/Balance.antt =====
-- What a diagnosis without errors says of the balances.
use Prim.Native.Nat.{Ordering}
use cashu_fault_lab.Common.{
  ℕ, String, Bool, true, false, not, ◌≡◌, refl, arith, Bool-cases, inl, inr, is_some, is_empty,
  Option, none, some, List, [], ◌∷◌, ◌++◌, map, any, all, filter, flat_map, Map, put,
}
use cashu_fault_lab.Doctor.Types.{
  ProofView, TokenEventView, ProofState, unspent, spent, pending, MintObservation,
  DoctorObservation,
}
use cashu_fault_lab.Doctor.Plan.{sum_proofs, sum_tokens}
use cashu_fault_lab.Doctor.Reconstruct.{mint_proof_key, OrphanCandidate, proof_keys, merged_live}
use cashu_fault_lab.Doctor.Merge.{mint_state, sort_by, insert_by, reconstruct, reconstruct_merged}
use cashu_fault_lab.Doctor.Check.{is_spent}
use cashu_fault_lab.Doctor.Findings.{
  Finding, state_in, spent_proofs, ghost_of, ghost_tokens, Orphaned, is_recoverable, add_candidate,
  group_orphans, orphan_finding, find_orphans,
}
use cashu_fault_lab.Doctor.Explain.{is_unspent_now, sum_in, sum_live, sum_orphans, explain_balance}
use cashu_fault_lab.Doctor.Diagnose.{is_error, all_findings, diagnose}

-- The mint reports the proof, and not as pending.
abbrev pub is_settled : Option ProofState → Bool
is_settled none = false
is_settled (some pending) = false
is_settled (some unspent) = true
is_settled (some spent) = true

abbrev is_fine : Finding → Bool
is_fine f = not (is_error f)

abbrev no_error : List Finding → Bool
no_error fs = all is_fine fs

all-append {ℓ} :
    {A : Type ℓ} (p : A → Bool) (xs ys : List A)
    → all p (xs ++ ys) ≡ true
    → (all p xs ≡ true) × (all p ys ≡ true)
all-append p [] ys e = (refl, e)
all-append p (x ∷ xs) ys e = ground (arith, all-append p xs ys)

-- Each proof counts as unspent, and none as spent.
sums_settled :
    (mint : List MintObservation) (t : TokenEventView) (ps : List ProofView)
    → is_empty (filter (λ (p : ProofView). is_spent (state_in mint t p)) ps) ≡ true
    → all (λ (p : ProofView). is_settled (state_in mint t p)) ps ≡ true
    → (sum_in is_unspent_now mint t ps ≡ sum_proofs ps) × (sum_in is_spent mint t ps ≡ 0)
unfolding sum_in sum_proofs is_spent is_unspent_now
sums_settled mint t [] e h = (refl, refl)
sums_settled mint t (p ∷ ps) e h = ground (arith, sums_settled mint t ps)

known_settled :
    (mint : List MintObservation) (t : TokenEventView) (ps : List ProofView)
    → all (λ (p : ProofView). is_settled (state_in mint t p)) ps ≡ true
    → any (λ (p : ProofView). not (is_some (state_in mint t p))) ps ≡ false
known_settled mint t [] h = refl
known_settled mint t (p ∷ ps) h = ground (arith, known_settled mint t ps)

no_ghost :
    (mint : List MintObservation) (t : TokenEventView)
    → no_error (ghost_of mint t) ≡ true
    → all (λ (p : ProofView). is_settled (state_in mint t p)) t.proofs ≡ true
    → is_empty (spent_proofs mint t) ≡ true
unfolding ghost_of is_error spent_proofs
no_ghost mint t e h = ground (arith, known_settled mint t t.proofs)

keys_settled :
    (mint : List MintObservation) (t : TokenEventView)
    → all (λ k. is_settled (mint_state mint k)) (proof_keys t) ≡ true
    → all (λ (p : ProofView). is_settled (state_in mint t p)) t.proofs ≡ true
unfolding proof_keys state_in
keys_settled mint t h = settle t.proofs h
  where
    settle :
        (ps : List ProofView)
        → all
            (λ k. is_settled (mint_state mint k))
            (map (λ (p : ProofView). mint_proof_key t.mint p.y) ps)
          ≡ true
        → all (λ (p : ProofView). is_settled (mint_state mint (mint_proof_key t.mint p.y))) ps
          ≡ true
    settle [] h = refl
    settle (p ∷ ps) h = ground (arith, settle ps)

live_settled :
    (mint : List MintObservation) (ts : List TokenEventView)
    → no_error (flat_map (ghost_of mint) ts) ≡ true
    → all (λ k. is_settled (mint_state mint k)) (flat_map proof_keys ts) ≡ true
    → (sum_live is_unspent_now mint ts ≡ sum_tokens ts) × (sum_live is_spent mint ts ≡ 0)
unfolding sum_live sum_tokens
live_settled mint [] e h = (refl, refl)
live_settled mint (t ∷ ts) e h =
    let (a, b) = all-append is_fine (ghost_of mint t) (flat_map (ghost_of mint) ts) e in
    let (c, d) =
      all-append (λ k. is_settled (mint_state mint k)) (proof_keys t) (flat_map proof_keys ts) h in
    let settled = keys_settled mint t c in
    let free : is_empty (filter (λ (p : ProofView). is_spent (state_in mint t p)) t.proofs) ≡ true =
      unfold spent_proofs in no_ghost mint t a settled in
    let (u, s) = sums_settled mint t t.proofs free settled in
    let (v, w) = live_settled mint ts b d in (omega arith, omega arith)

insert_by-nonempty :
    {A : Type 0} (compare : A → A → Ordering) (x : A) (xs : List A)
    → is_empty (insert_by compare x xs) ≡ false
unfolding insert_by
insert_by-nonempty compare x [] = refl
insert_by-nonempty compare x (y ∷ ys) = ground arith

put-nonempty : (m : Map Orphaned) (k : String) (v : Orphaned) → is_empty (put m k v) ≡ false
unfolding put
put-nonempty [] k v = refl
put-nonempty ((j, w) ∷ m) k v = ground arith

group-nonempty :
    (mint : List MintObservation) (m : Map Orphaned) (os : List OrphanCandidate)
    → is_empty m ≡ false
    → is_empty (group_orphans mint m os) ≡ false
unfolding group_orphans
group-nonempty mint m [] h = h
group-nonempty mint m (o ∷ os) h = elim (Bool-cases (is_recoverable mint o)) [
  | inl hit ↦
      rw hit (
        group-nonempty mint (add_candidate m o) os
          (unfold add_candidate in put-nonempty m o.mint _))
  | inr miss ↦ rw miss (group-nonempty mint m os h)
]

no_orphans :
    (mint : List MintObservation) (os : List OrphanCandidate)
    → is_empty (group_orphans mint [] os) ≡ true
    → sum_orphans mint os ≡ 0
unfolding group_orphans sum_orphans
no_orphans mint [] h = refl
no_orphans mint (o ∷ os) h = elim (Bool-cases (is_recoverable mint o)) [
  | inl hit ↦
      let full : is_empty (group_orphans mint (add_candidate [] o) os) ≡ false =
        group-nonempty mint (add_candidate [] o) os
          (unfold add_candidate in put-nonempty [] o.mint _) in
      absurd (ground arith)
  | inr miss ↦ rw miss (no_orphans mint os (ground arith))
]

no_finding :
    (compare : (String × Orphaned) → (String × Orphaned) → Ordering) (m : Map Orphaned)
    → no_error (map orphan_finding (sort_by compare m)) ≡ true
    → is_empty m ≡ true
unfolding sort_by orphan_finding is_error
no_finding compare [] e = refl
no_finding compare (entry ∷ m) e =
    no_finding_in (insert_by compare entry (sort_by compare m))
      (insert_by-nonempty compare entry (sort_by compare m)) e
  where
    no_finding_in :
        (es : List (String × Orphaned))
        → is_empty es ≡ false
        → no_error (map orphan_finding es) ≡ true
        → false ≡ true
    no_finding_in [] h e = cc
    no_finding_in ((mint, o) ∷ es) h e = ground arith

-- Where the diagnosis reports no error and the mints report every proof of a live event unspent or
-- spent, the wallet shows what the mints verify: the merged balance is the verified one, no live
-- event holds spent value, and no unspent value is orphaned.
pub diagnose-balanced :
    (locale_compare : String → String → Ordering) (observation : DoctorObservation) (now : ℕ)
    → (diagnose locale_compare observation now).ok ≡ true
    → all
        (λ k. is_settled (mint_state observation.mint k))
        (flat_map proof_keys (merged_live observation.relays))
      ≡ true
    → let b = (diagnose locale_compare observation now).balance in
      (b.merged ≡ b.mint_verified) × (b.ghost ≡ 0) × (b.orphaned_unspent ≡ 0)
unfolding diagnose all_findings explain_balance reconstruct reconstruct_merged ghost_tokens
    find_orphans
diagnose-balanced locale_compare observation now e h =
    let (a, after) = all-append is_fine _ _ e in
    let (ghosts, more) = all-append is_fine _ _ after in
    let (orphaned, rest) = all-append is_fine _ _ more in
    let (u, s) = live_settled observation.mint (merged_live observation.relays) ghosts h in
    let o = no_orphans observation.mint _ (no_finding _ _ orphaned) in (omega arith, s, o)
