-- ===== src/Doctor/Merge.antt =====
-- packages/wallet-doctor-core/src/reconstruct.ts: the proofs that several events share, those that no
-- live event holds, the merged view, and what the mints say.
use Prim.Native.Nat.{Ordering}
use cashu_fault_lab.Common.{
  ℕ, ◌+◌, ◌-◌, String, Bool, ltb, includes, unique, sort, Option, none, some, List, [], ◌∷◌, ◌++◌,
  map, length, filter, flat_map, if◌then◌else◌,
}
use cashu_fault_lab.Doctor.Types.{
  ProofView, TokenEventView, RelayObservation, ProofState, MintObservation, DoctorObservation,
}
use cashu_fault_lab.Doctor.Plan.{sum_tokens}
use cashu_fault_lab.Doctor.Reconstruct.{
  RelayView, DuplicateProof, OrphanCandidate, MergedView, ProofKey, mint_proof_key, same_key,
  has_key, proof_keys, latest_wallet_event, reconstruct_relay, all_tokens, all_wallet,
  superseded_anywhere, merged_live, naive_live,
}

-- xs.sort(compare), which keeps the order of equals
module _ {A : Type 0} (compare : A → A → Ordering) where
  unfoldable pub insert_by : A → List A → List A
  insert_by x [] = x ∷ []
  insert_by x (y ∷ ys) =
      let rest = insert_by x ys in
      elim (compare y x) [
        | Ordering.lt ↦ y ∷ rest
        | Ordering.eq ↦ x ∷ y ∷ ys
        | Ordering.gt ↦ x ∷ y ∷ ys
      ]

  unfoldable pub sort_by : List A → List A
  sort_by [] = []
  sort_by (x ∷ xs) = insert_by x (sort_by xs)

-- an entry of `proofOwners`: a proof and the events that hold it
pub record Owner : Type 0 where
  pub key : ProofKey
  pub proof : ProofView
  pub event_ids : List String

unfoldable pub add_owner : String → String → ProofView → List Owner → List Owner
add_owner event_id mint proof [] =
    record { key = mint_proof_key mint proof.y; proof = proof; event_ids = event_id ∷ [] } ∷ []
add_owner event_id mint proof (o ∷ os) =
    let rest = add_owner event_id mint proof os in
    if same_key o.key (mint_proof_key mint proof.y)
    then (if includes o.event_ids event_id
        then o ∷ os
        else record o { event_ids = o.event_ids ++ (event_id ∷ []) } ∷ os)
    else o ∷ rest

unfoldable pub add_owners : String → String → List ProofView → List Owner → List Owner
add_owners event_id mint [] os = os
add_owners event_id mint (p ∷ ps) os = add_owners event_id mint ps (add_owner event_id mint p os)

unfoldable pub owners_of : List TokenEventView → List Owner → List Owner
owners_of [] os = os
owners_of (t ∷ ts) os = owners_of ts (add_owners t.event_id t.mint t.proofs os)

unfoldable pub sum_owners : List Owner → ℕ
sum_owners [] = 0
sum_owners (o ∷ os) = o.proof.amount + sum_owners os

unfoldable pub duplicate_of : Owner → DuplicateProof
duplicate_of o = record { y = o.proof.y; amount = o.proof.amount; event_ids = sort o.event_ids }

unfoldable pub is_shared : Owner → Bool
is_shared o = ltb 1 (length o.event_ids)

-- an entry of `orphanByY`
pub record Orphan : Type 0 where
  pub mint : String
  pub proof : ProofView
  pub last_seen : List String

unfoldable pub add_orphan : String → String → ProofView → List Orphan → List Orphan
add_orphan event_id mint proof [] =
    record { mint = mint; proof = proof; last_seen = event_id ∷ [] } ∷ []
add_orphan event_id mint proof (o ∷ os) =
    let rest = add_orphan event_id mint proof os in
    if same_key (mint_proof_key o.mint o.proof.y) (mint_proof_key mint proof.y)
    then (if includes o.last_seen event_id
        then o ∷ os
        else record o { last_seen = o.last_seen ++ (event_id ∷ []) } ∷ os)
    else o ∷ rest

unfoldable pub add_orphans :
    List ProofKey → String → String → List ProofView → List Orphan → List Orphan
add_orphans live event_id mint [] os = os
add_orphans live event_id mint (p ∷ ps) os =
    add_orphans live event_id mint ps
      (if has_key live (mint_proof_key mint p.y) then os else add_orphan event_id mint p os)

unfoldable pub orphans_from :
    List String → List ProofKey → List TokenEventView → List Orphan → List Orphan
orphans_from live_ids live [] os = os
orphans_from live_ids live (t ∷ ts) os =
    orphans_from live_ids live ts
      (if includes live_ids t.event_id then os else add_orphans live t.event_id t.mint t.proofs os)

unfoldable pub candidate_of : Orphan → OrphanCandidate
candidate_of o = record {
  y = o.proof.y;
  keyset_id = o.proof.keyset_id;
  amount = o.proof.amount;
  mint = o.mint;
  last_seen_in = sort o.last_seen;
}

unfoldable pub find_orphaned : List RelayObservation → List Orphan
find_orphaned relays =
    orphans_from (map (λ (t : TokenEventView). t.event_id) (merged_live relays))
      (flat_map proof_keys (merged_live relays)) (all_tokens relays) []

-- the states of the mints by mint and point; the last observation counts
unfoldable pub mint_state : List MintObservation → ProofKey → Option ProofState
mint_state [] key = none
mint_state (o ∷ os) key = elim (mint_state os key) [
  | some state ↦ some state
  | none ↦ if same_key (mint_proof_key o.mint o.y) key then some o.state else none
]

pub record Reconstruction : Type 0 where
  pub per_relay : List RelayView
  pub merged : MergedView

module _ (locale_compare : String → String → Ordering) where
  -- `naive_balance` counts every proof that the unique balance counts, so the difference is exact.
  unfoldable pub reconstruct_merged : List RelayObservation → MergedView
  reconstruct_merged relays =
      let naive = naive_live relays in
      let owners = owners_of naive [] in
      record {
        wallet_event = latest_wallet_event (all_wallet relays);
        live_tokens = merged_live relays;
        naive_live_tokens = naive;
        balance = sum_tokens (merged_live relays);
        naive_balance = sum_tokens naive;
        double_counted = sum_tokens naive - sum_owners owners;
        duplicate_proofs =
            sort_by (λ (a b : DuplicateProof). locale_compare a.y b.y)
              (map duplicate_of (filter is_shared owners));
        superseded_anywhere = sort (unique (superseded_anywhere relays));
        orphan_candidates =
            sort_by (λ (a b : OrphanCandidate). locale_compare a.y b.y)
              (map candidate_of (find_orphaned relays));
      }

  unfoldable pub reconstruct : DoctorObservation → Reconstruction
  reconstruct observation = record {
    per_relay = map reconstruct_relay observation.relays;
    merged = reconstruct_merged observation.relays;
  }
