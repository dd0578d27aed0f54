-- ===== src/Doctor/Consolidated.antt =====
-- packages/wallet-doctor-oracle/src/plan-build.ts: what a consolidation deletes and covers.
use cashu_fault_lab.Common.{
  String, Bool, true, false, ◌≡◌, refl, sym, ◌∙◌, arith, eq_iff, str_eq, str_eq_refl, inl, inr,
  includes, List, [], ◌∷◌, ◌++◌, map, flat_map, unique, All, Member, here, there, Member-append,
  Member-append_left, Member-append_right, Member-flat_map, flat_map-Member, Member-filter,
  Member-kept, Member-map, includes-map, Member-includes, includes-Member, includes-sort,
  includes-unique, if◌then◌else◌,
}
use cashu_fault_lab.Doctor.Types.{ProofView, TokenEventView, DoctorObservation}
use cashu_fault_lab.Doctor.Reconstruct.{MergedView}
use cashu_fault_lab.Doctor.Check.{holds_value}
use cashu_fault_lab.Doctor.Findings.{Finding, points_of, state_in}
use cashu_fault_lab.Doctor.Build.{
  Consolidation, live_for, broken_for, deletes_for, covered_in, consolidation_at, consolidate,
  consolidations,
}
use cashu_fault_lab.Doctor.Events.{ids_of}

Member-unless {ℓ} : {A : Type ℓ} {x y : A} (b : Bool) → Member x (if b then [] else y ∷ []) → x ≡ y
Member-unless true m = elim m [ ]
Member-unless false here = refl
Member-unless false (there m) = elim m [ ]

pub map-Member {ℓ κ} :
    {A : Type ℓ} {B : Type κ} (f : A → B) (xs : List A) {b : B}
    → Member b (map f xs)
    → (x : A) × Member x xs × (f x ≡ b)
map-Member f [] m = elim m [ ]
map-Member f (x ∷ xs) here = (x, here, refl)
map-Member f (x ∷ xs) (there m) = let (y, n, e) = map-Member f xs m in (y, there n, e)

pub All-includes {κ} :
    {P : String → Type κ} (xs : List String)
    → ((x : String) → includes xs x ≡ true → P x)
    → All P xs
All-includes [] h = tt
All-includes (x ∷ xs) h =
    (h x (rw (str_eq_refl x) refl), All-includes xs (λ y e. h y (ground arith)))

module _ (observation : DoctorObservation) (merged : MergedView) (findings : List Finding) where
  pub consolidations-at :
      {c : Consolidation}
      → Member c (consolidations observation merged findings)
      → (mint : String) × (c ≡ consolidation_at observation merged findings mint)
  unfolding consolidations consolidate
  consolidations-at m =
      let (mint, n, o) = Member-flat_map (consolidate observation merged findings) _ m in
      (mint, Member-unless _ o)

  -- What is deleted for a mint is an event of this mint.
  pub deletes-token :
      (mint id : String)
      → includes (deletes_for observation merged findings mint) id ≡ true
      → (u : TokenEventView) × Member u (merged.live_tokens ++ merged.naive_live_tokens)
        × (u.event_id ≡ id)
        × (u.mint ≡ mint)
  unfolding deletes_for live_for broken_for
  deletes-token mint id e =
      let whole =
        live_for observation merged findings mint ++ broken_for observation merged findings mint in
      let (u, m, name) =
        includes-map (λ (t : TokenEventView). t.event_id) whole id
          (sym (includes-unique (ids_of whole) id)
            ∙ (sym (includes-sort (unique (ids_of whole)) id) ∙ e)) in
      elim (Member-append (live_for observation merged findings mint) m) [
        | inl live ↦
            let (n, same) = Member-filter _ merged.live_tokens live in
            (u, Member-append_left merged.naive_live_tokens n, name, (eq_iff u.mint mint).0 same)
        | inr broken ↦
            let (n, same) = Member-filter _ merged.naive_live_tokens broken in
            (
              u,
              Member-append_right merged.live_tokens n,
              name,
              (eq_iff u.mint mint).0 (ground arith),
            )
      ]

  -- A proof of value in a live event is covered at its mint.
  pub live-covered :
      (t : TokenEventView) (p : ProofView)
      → Member t merged.live_tokens
      → Member p t.proofs
      → holds_value (state_in observation.mint t p) ≡ true
      → includes (consolidation_at observation merged findings t.mint).covered_ys p.y ≡ true
  unfolding consolidation_at live_for covered_in points_of
  live-covered t p m n value =
      let here_live =
        Member-kept (λ (u : TokenEventView). str_eq u.mint t.mint) merged.live_tokens m
          (str_eq_refl t.mint) in
      let kept =
        Member-kept (λ (q : ProofView). holds_value (state_in observation.mint t q)) t.proofs n
          value in
      rw (includes-sort, includes-unique)
        (Member-includes _ (
          flat_map-Member (covered_in observation merged findings) _ here_live
            (includes-Member _ p.y (Member-map (λ (q : ProofView). q.y) _ kept))))

  -- What is covered at a mint is a proof of a live event of this mint.
  pub covered-live :
      (mint y : String)
      → includes (consolidation_at observation merged findings mint).covered_ys y ≡ true
      → (t : TokenEventView) × (p : ProofView) × Member t merged.live_tokens
        × Member p t.proofs
        × (t.mint ≡ mint)
        × (p.y ≡ y)
  unfolding consolidation_at live_for covered_in points_of
  covered-live mint y e =
      let covered =
        flat_map (covered_in observation merged findings)
          (live_for observation merged findings mint) in
      let found = sym (includes-unique covered y) ∙ (sym (includes-sort (unique covered) y) ∙ e) in
      let (t, m, n) =
        Member-flat_map (covered_in observation merged findings)
          (live_for observation merged findings mint) (includes-Member covered y found) in
      let (live, same) = Member-filter _ merged.live_tokens m in
      let (p, o, name) = map-Member (λ (q : ProofView). q.y) _ n in
      (t, p, live, (Member-filter _ t.proofs o).0, (eq_iff t.mint mint).0 same, name)
