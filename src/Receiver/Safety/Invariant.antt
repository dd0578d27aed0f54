-- ===== src/Receiver/Safety/Invariant.antt =====
-- An update of one delivery keeps the invariant of the whole store.
use cashu_fault_lab.Common.{
  String, ◌≡◌, ◌≢◌, ◌⊎◌, inl, inr, true, false, none, some, arith, get, get-put, get-empty, eq_iff,
  str_eq, Member, if◌then◌else◌,
}
use mathlib.Core.Path.{subst, subst₂}
use cashu_fault_lab.Delivery.Platform.{Platform}
use cashu_fault_lab.Receiver.Types.{DeliveryRecord, PaymentRequestRecord, rejected}
use cashu_fault_lab.Receiver.Store.{StoreState, empty_state}
use cashu_fault_lab.Receiver.Safety.{IsRecord, Change, Update, Inv}

module _ (platform : Platform) where
  pub empty-Inv : Inv platform empty_state
  empty-Inv = record {
    records = λ id r e. absurd (ground (arith, get-empty {V = DeliveryRecord} id));
    orphans = λ id e. get-empty id;
    claims = λ id c r e. absurd (ground (arith, get-empty {V = DeliveryRecord} id));
    reservations = λ id r q e. absurd (ground (arith, get-empty {V = DeliveryRecord} id));
    requests = λ k q e. absurd (ground (arith, get-empty {V = PaymentRequestRecord} k));
    bound = λ id r e. absurd (ground (arith, get-empty {V = DeliveryRecord} id));
  }

-- a delivery that is not rejected after the change was not rejected before
live-Change : {r r' : DeliveryRecord} → Change r r' → r'.phase ≢ rejected → r.phase ≢ rejected
live-Change {r} {r'} c live e = live (ground arith)

not-sym : (a b : String) → str_eq a b ≡ false → str_eq b a ≡ false
not-sym a b h = ground (arith, eq_iff a b, eq_iff b a)

module _ (platform : Platform) (id : String) (s t : StoreState) (r r' : DeliveryRecord)
    (inv : Inv platform s) (found : get s.deliveries id ≡ some r)
    (u : Update platform id s t r r') where
  look : (k : String) → get t.deliveries k ≡ (if str_eq id k then some r' else get s.deliveries k)
  look k = rw u.saved (get-put s.deliveries id r' k)

  -- the delivery that `t` has under `k` is the new one, or one that `s` has
  at :
      (k : String) (x : DeliveryRecord)
      → get t.deliveries k ≡ some x
      → ((id ≡ k) × (r' ≡ x)) ⊎ ((str_eq id k ≡ false) × (get s.deliveries k ≡ some x))
  at k x e = ground (arith, look k, eq_iff id k)

  Update-records :
      (k : String) (x : DeliveryRecord)
      → get t.deliveries k ≡ some x
      → IsRecord platform k x (get t.credits k)
  Update-records k x e = elim (at k x e) [
    | inl (p, q) ↦ subst₂ (λ k x. IsRecord platform k x (get t.credits k)) p q u.sound
    | inr (other, e') ↦ rw (u.credits k other) (inv.records k x e')
  ]

  Update-orphans : (k : String) → get t.deliveries k ≡ none → get t.credits k ≡ none
  Update-orphans k e = ground (arith, look k, u.credits k, inv.orphans k)

  Update-claims :
      (k claim : String) (x : DeliveryRecord)
      → get t.deliveries k ≡ some x
      → x.phase ≢ rejected
      → Member claim x.proof_claim_ids
      → get t.proof_claims claim ≡ some k
  Update-claims k claim x e = elim (at k x e) [
    | inl (p, q) ↦
        subst₂
          (λ k x.
            x.phase ≢ rejected → Member claim x.proof_claim_ids → get t.proof_claims claim ≡ some k)
          p q
          λ live m.
            u.claims claim id
              (inv.claims id claim r found (live-Change u.change live)
                (subst (Member claim) u.change.proof_claim_ids m))
              (inr live)
    | inr (other, e') ↦
        λ live m. u.claims claim k (inv.claims k claim x e' live m) (inl (not-sym id k other))
  ]

  Update-reservations :
      (k : String) (x : DeliveryRecord) (q : PaymentRequestRecord)
      → get t.deliveries k ≡ some x
      → x.phase ≢ rejected
      → get t.requests x.request_id ≡ some q
      → q.single_use ≡ true
      → get t.request_reservations x.request_id ≡ some k
  Update-reservations k x q e live f on = elim (at k x e) [
    | inl (p, w) ↦
        let live' : r'.phase ≢ rejected = rw w live in
        let f' : get s.requests r.request_id ≡ some q =
          ground (arith, u.change.request_id, u.requests) in
        let kept =
          u.reservations r.request_id id
            (inv.reservations id r q found (live-Change u.change live') f' on) (inr live') in
        ground (arith, kept, u.change.request_id)
    | inr (other, e') ↦
        u.reservations x.request_id k (inv.reservations k x q e' live (rw u.requests at f) on)
          (inl (not-sym id k other))
  ]

  Update-bound :
      (k : String) (x : DeliveryRecord)
      → get t.deliveries k ≡ some x
      → (q : PaymentRequestRecord) × (get t.requests x.request_id ≡ some q) × (q.amount ≡ x.amount)
  Update-bound k x e = elim (at k x e) [
    | inl (p, w) ↦
        let (q, f, a) = inv.bound id r found in
        (q, ground (arith, u.change.request_id, u.requests), ground (arith, u.change.amount))
    | inr (other, e') ↦ let (q, f, a) = inv.bound k x e' in (q, rw u.requests f, a)
  ]

  pub Update-Inv : Inv platform t
  Update-Inv = record {
    records = Update-records;
    orphans = Update-orphans;
    claims = Update-claims;
    reservations = Update-reservations;
    requests = rw u.requests inv.requests;
    bound = Update-bound;
  }
