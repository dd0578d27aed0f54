-- ===== src/Sender/Safety/Sends.antt =====
-- What `runAttempts` sends: at most one message for each attempt, always the stored payload.
use mathlib.Core.Path.{subst}
use cashu_fault_lab.Common.{
  ℕ, zero, suc, ◌+◌, ◌≤◌, String, true, false, ◌≡◌, refl, ap, ◌∙◌, Option, none, some, List, [],
  ◌∷◌, ◌++◌, All, ok, err, Result, arith, has, Bool-cases, inl, inr, Number, nat, negative, other,
}
use cashu_fault_lab.Common.Tasks.{pure, ◌>>=◌}
use cashu_fault_lab.Common.Tasks.Holds.{
  Holds, bind-Holds, then-Holds, attempt-Holds, lift-Holds, lift-Result,
}
use cashu_fault_lab.Delivery.Platform.{Platform}
use cashu_fault_lab.Sender.Types.{
  SenderDeliveryRecord, Act, World, SenderPorts, SendError, SendPaymentOutcome,
}
use cashu_fault_lab.Sender.State.{Sending, write, save_record, are_valid_diagnostics}
use cashu_fault_lab.Sender.Send.{
  use_port, mark_settled, release_rejected, mark_recovery_required, dispatch, pause, finish,
  try_again, conclude, begun_attempt, try_once, attempts_from, run_attempts,
}
use cashu_fault_lab.Sender.Send.Build.{SendPaymentOptions, validate_max_attempts}
use cashu_fault_lab.Sender.Send.Judge.{AttemptVerdict, settle, refuse, again, judge}
use cashu_fault_lab.Sender.Safety.Judged.{judge-Same}

-- how often the transport is called
unfoldable pub sends : List Act → ℕ
sends [] = 0
sends (Act.sent id bytes target ∷ acts) = suc (sends acts)
sends (_ ∷ acts) = sends acts

-- a message is the payload of the delivery
abbrev pub Carries : String → List ℕ → Act → Type 0
Carries id bytes (Act.sent j sent_bytes target) = (j ≡ id) × (sent_bytes ≡ bytes)
Carries id bytes _ = Unit

-- The acts since `start`: at most `n` messages, each of them the payload.
pub record Spent (start : List Act) (id : String) (bytes : List ℕ) (n : ℕ) (w : World)
    : Type 0 where
  pub added : List Act
  pub split : w.acts ≡ added ++ start
  pub few : sends added ≤ n
  pub carried : All (Carries id bytes) added

module _ (start : List Act) (id : String) (bytes : List ℕ) where
  abbrev Within : {A : Type 0} → ℕ → Result SendError A × World → Type 0
  Within n x = Holds (λ _ v. Spent start id bytes n v) (Spent start id bytes n) x

  more-Spent : (n k : ℕ) (w : World) → Spent start id bytes n w → Spent start id bytes (n + k) w
  more-Spent n k w s = record {
    added = s.added;
    split = s.split;
    few = omega (arith, s.few);
    carried = s.carried;
  }

  -- a world with the same acts
  same-Spent :
      (n : ℕ) (w v : World) → v.acts ≡ w.acts → Spent start id bytes n w → Spent start id bytes n v
  same-Spent n w v e s = record {
    added = s.added;
    split = e ∙ s.split;
    few = s.few;
    carried = s.carried;
  }

  save_record-Within :
      (r : SenderDeliveryRecord) (n k : ℕ) (w : World)
      → Spent start id bytes n w
      → Holds (λ _ v. Spent start id bytes n v) (Spent start id bytes (n + k)) (save_record r w)
  unfolding save_record write
  save_record-Within r n k w s = elim (Bool-cases (has w.records r.delivery_id)) [
    | inr absent ↦ rw absent (more-Spent n k w s)
    | inl present ↦ elim (Bool-cases (are_valid_diagnostics r.diagnostics)) [
      | inl valid ↦ rw (present, valid) (same-Spent n w _ refl s)
      | inr bad ↦ rw (present, bad) (more-Spent n k w s)
    ]
  ]

  -- a call of a port, with the room that it needs
  act-Spent :
      (act : Act) (n m : ℕ) (w : World)
      → ((acts : List Act) → sends acts ≤ n → sends (act ∷ acts) ≤ m)
      → Carries id bytes act
      → Spent start id bytes n w
      → Spent start id bytes m (record w { acts = act ∷ w.acts; answers = w.answers + 1 })
  act-Spent act n m w room h s = record {
    added = act ∷ s.added;
    split = ap (λ z. act ∷ z) s.split;
    few = room s.added s.few;
    carried = (h, s.carried);
  }

  use_port-Within :
      {A : Type 0} (act : Act) (port : ℕ → Result SendError A) (n m : ℕ) (w : World)
      → ((acts : List Act) → sends acts ≤ n → sends (act ∷ acts) ≤ m)
      → Carries id bytes act
      → Spent start id bytes n w
      → Within m (use_port act port w)
  unfolding use_port
  use_port-Within act port n m w room h s =
      let t = act-Spent act n m w room h s in
      elim (port w.answers) as (λ x. Within m (x, (use_port act port w).1)) [ ok a ↦ t | err e ↦ t ]

  -- from any world and any record with this payload, at most `k` more messages
  abbrev Sends : ℕ → (SenderDeliveryRecord → Sending SendPaymentOutcome) → Type 0
  Sends k next =
      (r : SenderDeliveryRecord) (n : ℕ) (w : World)
      → r.delivery_id ≡ id
      → r.payload_bytes ≡ bytes
      → Spent start id bytes n w
      → Within (n + k) (next r w)

module _ (start : List Act) (id : String) (bytes : List ℕ) (ports : SenderPorts) where
  abbrev Q : ℕ → {A : Type 0} → A → World → Type 0
  Q n _ w = Spent start id bytes n w

  finish-Sends : (k : ℕ) → Sends start id bytes k (finish ports)
  unfolding finish mark_recovery_required pure sends
  finish-Sends k r n w e b s =
      then-Holds (Q n) _ _ _ _ w (save_record-Within start id bytes _ n k w s) (λ _ v t.
        then-Holds (Q (n + k)) _ _ _ _ v
          (use_port-Within start id bytes _ _ n (n + k) v (λ acts h. omega (arith, h)) tt t)
          (λ _ u t. t))

  conclude-Sends :
      (k : ℕ) (next : SenderDeliveryRecord → Sending SendPaymentOutcome) (r : SenderDeliveryRecord)
      (v : AttemptVerdict) (n : ℕ) (w : World)
      → Sends start id bytes k next
      → r.delivery_id ≡ id
      → r.payload_bytes ≡ bytes
      → Spent start id bytes n w
      → Within start id bytes (n + k) (conclude ports next (r, v) w)
  unfolding conclude mark_settled release_rejected pure sends
  conclude-Sends k next r (settle receipt) n w h e b s =
      then-Holds (Q n) _ _ _ _ w (save_record-Within start id bytes _ n k w s) (λ _ v t.
        then-Holds (Q (n + k)) _ _ _ _ v
          (use_port-Within start id bytes _ _ n (n + k) v (λ acts h. omega (arith, h)) tt t)
          (λ _ u t. t))
  conclude-Sends k next r (refuse receipt) n w h e b s =
      then-Holds (Q n) _ _ _ _ w (save_record-Within start id bytes _ n k w s) (λ _ v t.
        then-Holds (Q (n + k)) _ _ _ _ v
          (use_port-Within start id bytes _ _ n (n + k) v (λ acts h. omega (arith, h)) tt t)
          (λ _ u t. t))
  conclude-Sends k next r (again true) n w h e b s =
      then-Holds (Q n) _ _ _ _ w (save_record-Within start id bytes r n k w s)
        (λ _ v t. h r n v e b t)
  conclude-Sends k next r (again false) n w h e b s =
      then-Holds (Q n) _ _ _ _ w (save_record-Within start id bytes r n k w s)
        (λ _ v t. finish-Sends k r n v e b t)

  pause-Within :
      (seed : String) (local n k : ℕ) (w : World)
      → Spent start id bytes n w
      → Holds
          (λ _ v. Spent start id bytes n v)
          (Spent start id bytes (n + k))
          (pause ports seed local w)
  unfolding pause use_port sends
  pause-Within seed local n k w s =
      bind-Holds (Q n) _ _ _ _ w (lift-Holds _ _ _ w s (more-Spent start id bytes n k w s))
        (λ delay v t. act-Spent start id bytes (Act.slept delay) n n v (λ acts h. h) tt t)

  try_again-Sends :
      (seed : String) (left local : ℕ) (rest : SenderDeliveryRecord → Sending SendPaymentOutcome)
      → Sends start id bytes left rest
      → Sends start id bytes left (try_again ports seed left local rest)
  unfolding try_again
  try_again-Sends seed zero local rest h = finish-Sends 0
  try_again-Sends seed (suc left) local rest h = λ r n w e b s.
      then-Holds (Q n) _ _ _ _ w (pause-Within seed local n (suc left) w s) (λ _ v t. h r n v e b t)

  dispatch-Within :
      (r : SenderDeliveryRecord) (n k : ℕ) (w : World)
      → r.delivery_id ≡ id
      → r.payload_bytes ≡ bytes
      → Spent start id bytes n w
      → Holds
          (λ _ v. Spent start id bytes (suc n) v)
          (Spent start id bytes (suc n + k))
          (dispatch ports r w)
  unfolding dispatch pure sends
  dispatch-Within r n k w e b s =
      attempt-Holds _ (Spent start id bytes (suc n)) _ _ _ w
        (bind-Holds (Q (suc n)) _ _ _ _ w
          (use_port-Within start id bytes _ _ n (suc n) w (λ acts h. omega (arith, h)) (e, b) s)
          (λ result v t. t))
        (λ e v t. t)

zero_left : (m : ℕ) → 0 + m ≡ m
zero_left m = omega arith

suc-shift : (n k : ℕ) → suc n + k ≡ n + suc k
suc-shift n k = omega arith

pub begun_attempt-same :
    (r : SenderDeliveryRecord)
    → ((begun_attempt r).delivery_id ≡ r.delivery_id)
      × ((begun_attempt r).payload_bytes ≡ r.payload_bytes)
unfolding begun_attempt
begun_attempt-same r = (refl, refl)

module _ (start : List Act) (id : String) (bytes : List ℕ) (platform : Platform)
    (ports : SenderPorts) where
  try_once-Sends :
      (k : ℕ) (next : SenderDeliveryRecord → Sending SendPaymentOutcome)
      → Sends start id bytes k next
      → Sends start id bytes (suc k) (try_once platform ports next)
  unfolding try_once
  try_once-Sends k next h r n w e b s =
      let (e', b') = begun_attempt-same r in
      then-Holds (Q start id bytes ports n) _ _ _ _ w
        (save_record-Within start id bytes (begun_attempt r) n (suc k) w s)
        (λ _ v t.
          subst
            (λ m. Within start id bytes m (
              (dispatch ports (begun_attempt r)
                  >>= (λ answer. conclude ports next (judge platform (begun_attempt r) answer)))
                v))
            (suc-shift n k)
            (bind-Holds (Q start id bytes ports (suc n)) _ _ _ _ v
              (dispatch-Within start id bytes ports (begun_attempt r) n k v (e' ∙ e) (b' ∙ b) t)
              (λ answer u q.
                let (i, c, _) = judge-Same platform (begun_attempt r) answer in
                conclude-Sends start id bytes ports k next _ _ (suc n) u h (i ∙ e' ∙ e) (c ∙ b' ∙ b)
                  q)))

  attempts_from-Sends :
      (seed : String) (left local : ℕ)
      → Sends start id bytes left (attempts_from platform ports seed left local)
  unfolding attempts_from
  attempts_from-Sends seed zero local = finish-Sends start id bytes ports 0
  attempts_from-Sends seed (suc left) local = try_once-Sends left _ (
      try_again-Sends start id bytes ports seed left local _
        (attempts_from-Sends seed left (local + 1)))

validate_max_attempts-le :
    (o : Option Number) (max_attempts : ℕ)
    → validate_max_attempts o ≡ ok max_attempts
    → max_attempts ≤ 100
unfolding validate_max_attempts
validate_max_attempts-le none m e = ground arith
validate_max_attempts-le (some (nat n)) m e = ground arith
validate_max_attempts-le (some (negative n)) m e = ground arith
validate_max_attempts-le (some other) m e = ground arith

module _ (platform : Platform) (ports : SenderPorts) where
  Spent-world :
      (start : List Act) (id : String) (bytes : List ℕ) (n : ℕ)
      (x : Result SendError SendPaymentOutcome × World)
      → Within start id bytes n x
      → Spent start id bytes n x.1
  Spent-world start id bytes n (ok a, v) s = s
  Spent-world start id bytes n (err e, v) s = s

  no-Spent :
      (w : World) (r : SenderDeliveryRecord) (n : ℕ)
      → Spent w.acts r.delivery_id r.payload_bytes n w
  unfolding sends
  no-Spent w r n = record { added = []; split = refl; few = omega arith; carried = tt }

  -- runAttempts, whatever it returns or throws, calls the transport at most as often as the attempts
  -- it is allowed, which are at most 100, and each time with the stored payload of the delivery.
  pub run_attempts-Spent :
      (r : SenderDeliveryRecord) (options : SendPaymentOptions) (max_attempts : ℕ) (w : World)
      → validate_max_attempts options.max_attempts ≡ ok max_attempts
      → (max_attempts ≤ 100)
        × Spent w.acts r.delivery_id r.payload_bytes max_attempts
            (run_attempts platform ports r options w).1
  unfolding run_attempts
  run_attempts-Spent r options m w e =
      let S = Spent w.acts r.delivery_id r.payload_bytes in
      (
        validate_max_attempts-le options.max_attempts m e,
        Spent-world w.acts r.delivery_id r.payload_bytes m _ (
            bind-Holds (λ n v. (validate_max_attempts options.max_attempts ≡ ok n) × S 0 v) _ _ _ _
              w (lift-Result (S 0) (S m) _ w (no-Spent w r 0) (no-Spent w r m))
              (λ n v t.
                then-Holds (λ _ u. S 0 u) _ _ _ _ v
                  (lift-Holds (S 0) (S m) _ v t.1 (
                    subst (λ z. S z v) (zero_left m)
                      (more-Spent w.acts r.delivery_id r.payload_bytes 0 m v t.1)))
                  (λ _ u q.
                    subst
                      (λ z.
                        Within w.acts r.delivery_id r.payload_bytes z
                          (attempts_from platform ports options.seed n 0 r u))
                      (ground arith)
                      (attempts_from-Sends w.acts r.delivery_id r.payload_bytes platform ports
                        options.seed n 0 r 0 u refl refl q)))),
      )
