-- ===== src/Delivery/Checkpoint.antt =====
-- packages/delivery-core/src/crash-boundary.ts: the one-shot checkpoint that stops a process at a
-- chosen boundary.
use cashu_fault_lab.Common.{
  ℕ, suc, ◌+◌, ◌<◌, ◌≡◌, refl, Bool, true, false, not, ◌&&◌, ◌||◌, List, [], ◌∷◌, ◌==◌, leb,
  if◌then◌else◌, arith, Number, nat, negative, other, is_safe, Result, ok, err,
}

-- senderCrashBoundaries, then receiverCrashBoundaries
pub data CrashBoundary : Type 0 where
  sender_before_proof_reservation : CrashBoundary
  sender_after_reservation_before_payload_persistence : CrashBoundary
  sender_after_payload_persistence_before_network_send : CrashBoundary
  sender_after_send_before_response : CrashBoundary
  receiver_before_mint_request : CrashBoundary
  receiver_after_mint_request_before_response : CrashBoundary
  receiver_after_mint_response_before_output_persistence : CrashBoundary
  receiver_after_output_persistence_before_merchant_credit : CrashBoundary
  receiver_after_credit_before_receipt_persistence : CrashBoundary
  receiver_after_receipt_persistence_before_response_or_outbox : CrashBoundary

pub CrashBoundary-discrete : Discrete CrashBoundary
CrashBoundary-discrete = hlevel

-- the options and the two variables of createOneShotCrashCheckpoint
pub record Checkpoint : Type 0 where
  pub boundary : CrashBoundary
  pub occurrence : ℕ
  pub hits : ℕ
  pub fired : Bool

-- the occurrence is 1 where the options leave it out
unfoldable pub create_one_shot : CrashBoundary → Number → Result (Unit {0}) Checkpoint
create_one_shot boundary (nat n) =
    if is_safe n && leb 1 n
    then ok (record { boundary = boundary; occurrence = n; hits = 0; fired = false })
    else err tt
create_one_shot boundary _ = err tt

same_boundary : CrashBoundary → CrashBoundary → Bool
same_boundary a b = elim (CrashBoundary-discrete a b) [ yes _ ↦ true | no _ ↦ false ]

-- `hit`: the new variables, and whether CrashBoundaryHit is thrown
unfoldable pub hit : Checkpoint → CrashBoundary → Checkpoint × Bool
unfolding same_boundary
hit c boundary =
    if not (same_boundary boundary c.boundary) || c.fired
    then (c, false)
    else if c.hits + 1 == c.occurrence
    then (record c { hits = c.hits + 1; fired = true }, true)
    else (record c { hits = c.hits + 1 }, false)

-- the hits of a run, each with whether it is stopped there
unfoldable pub stops : Checkpoint → List CrashBoundary → List Bool
unfolding hit
stops c [] = []
stops c (b ∷ bs) = let (c', stop) = hit c b in stop ∷ stops c' bs

abbrev pub count_true : List Bool → ℕ
count_true [] = 0
count_true (true ∷ bs) = suc (count_true bs)
count_true (false ∷ bs) = count_true bs

-- how often a run passes a boundary
unfoldable pub passes : CrashBoundary → List CrashBoundary → ℕ
unfolding same_boundary
passes b [] = 0
passes b (x ∷ xs) = if same_boundary x b then suc (passes b xs) else passes b xs

stops_fired :
    (c : Checkpoint) (bs : List CrashBoundary) → c.fired ≡ true → count_true (stops c bs) ≡ 0
unfolding stops
stops_fired c [] h = refl
stops_fired c (b ∷ bs) h = ground (arith, stops_fired c bs)

stops_waiting :
    (c : Checkpoint) (bs : List CrashBoundary)
    → c.fired ≡ false
    → c.hits < c.occurrence
    → count_true (stops c bs) ≡ (if leb c.occurrence (c.hits + passes c.boundary bs) then 1 else 0)
unfolding stops passes
stops_waiting c [] f h = ground arith
stops_waiting c (b ∷ bs) f h = ground (
  arith,
  stops_waiting c bs f h,
  stops_waiting (record c { hits = c.hits + 1 }) bs,
  stops_fired (record c { hits = c.hits + 1; fired = true }) bs,
)

-- A checkpoint made for the n-th pass of a boundary stops a run once if the run passes the
-- boundary at least n times, and never otherwise.
pub create_one_shot-stops :
    (b : CrashBoundary) (n : Number) (c : Checkpoint) (bs : List CrashBoundary)
    → create_one_shot b n ≡ ok c
    → (n ≡ nat c.occurrence)
      × (count_true (stops c bs) ≡ (if leb c.occurrence (passes b bs) then 1 else 0))
unfolding create_one_shot
create_one_shot-stops b other c bs e = cc
create_one_shot-stops b (negative n) c bs e = cc
create_one_shot-stops b (nat n) c bs e = ground (arith, stops_waiting c bs)
