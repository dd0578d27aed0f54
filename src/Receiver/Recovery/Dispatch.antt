-- ===== src/Receiver/Recovery/Dispatch.antt =====
-- What the receiver does at the mint and in its store over any requests in flight and restarts.
use mathlib.Core.Path.{subst}
use cashu_fault_lab.Common.{
  ℕ, ◌≤◌, String, true, false, ◌≡◌, ◌≢◌, refl, sym, ◌∙◌, inl, inr, Option, none, some, List, [],
  ◌∷◌, if◌then◌else◌, ◌==◌, ==_iff, Bool-cases, includes, err, arith,
}
use cashu_fault_lab.Delivery.Platform.{Platform}
use cashu_fault_lab.Delivery.Checkpoint.{Checkpoint}
use cashu_fault_lab.Delivery.Receipt.{DeliveryReceipt}
use cashu_fault_lab.Receiver.Types.{failure, AcceptDeliveryCommand}
use cashu_fault_lab.Receiver.Store.{empty_state}
use cashu_fault_lab.Receiver.Safety.Invariant.{empty-Inv}
use cashu_fault_lab.Receiver.Safety.Runs.{Call, perform, perform-Advance}
use cashu_fault_lab.Receiver.Recovery.Ports.{Ports}
use cashu_fault_lab.Receiver.Recovery.Tasks.{World, Task, done, step}
use cashu_fault_lab.Receiver.Recovery.Flow.{accept_delivery, recover_delivery}
use cashu_fault_lab.Receiver.Recovery.Traces.{
  times, Stage, calm, holds, Held, At, At-Held, Guarded, Move, Keeps, Frame-At,
}
use cashu_fault_lab.Receiver.Recovery.Rules.{stored-Move, Still}
use cashu_fault_lab.Receiver.Recovery.Entry.{accept_delivery-Respects, recover_delivery-Respects}

-- What happens to a receiver: a request arrives and takes a free number, a request goes on with its
-- next piece, another part calls the store, or the process is restarted, or another one takes over,
-- with its crash checkpoint and the locks that others hold.
pub data Event : Type 0 where
  accept : ℕ → AcceptDeliveryCommand → Event
  recover : ℕ → String → Event
  resume : ℕ → Event
  store : Call → Event
  restart : Option Checkpoint → List String → Event

-- the world, and the requests in flight by their numbers
pub record Receiver : Type 0 where
  pub world : World
  pub requests : ℕ → Task DeliveryReceipt

abbrev pub no_requests : ℕ → Task DeliveryReceipt
no_requests n = done (err failure)

abbrev pub fresh : Receiver
fresh = record {
  world = record {
    state = empty_state;
    redemption_locks = [];
    checkpoint = none;
    answers = 0;
    swaps = [];
  };
  requests = no_requests;
}

-- one request, all others as before
abbrev pub set_at {ℓ} : {A : Type ℓ} → ℕ → A → (ℕ → A) → ℕ → A
set_at n a f m = if n == m then a else f m

-- a request starts under a number that no request in flight has
unfoldable pub arrive : ℕ → Task DeliveryReceipt → Task DeliveryReceipt → Receiver → Receiver
arrive n task (done r) s = record s { requests = set_at n task s.requests }
arrive n task (step move next) s = s

-- the next piece of a request
unfoldable pub go_on : ℕ → Task DeliveryReceipt → Receiver → Receiver
go_on n (done r) s = s
go_on n (step move next) s = record {
  world = move s.world;
  requests = set_at n (next s.world) s.requests;
}

module _ (platform : Platform) (ports : Ports) where
  unfoldable pub handle : Event → Receiver → Receiver
  unfolding arrive go_on
  handle (accept n command) s = arrive n (accept_delivery platform ports command) (s.requests n) s
  handle (recover n id) s = arrive n (recover_delivery platform ports id) (s.requests n) s
  handle (resume n) s = go_on n (s.requests n) s
  handle (store c) s = record s {
    world = record s.world { state = perform platform c s.world.state };
  }
  handle (restart checkpoint locks) s = record {
    world = record s.world { checkpoint = checkpoint; redemption_locks = locks };
    requests = no_requests;
  }

  unfoldable pub serve : List Event → Receiver → Receiver
  unfolding handle
  serve [] s = s
  serve (e ∷ es) s = serve es (handle e s)

-- no two stages hold one lock
abbrev Apart : (ℕ → Stage) → Type 0
Apart stage =
    (n m : ℕ) (id : String) → holds (stage n) ≡ some id → holds (stage m) ≡ some id → n ≡ m

module _ (n : ℕ) (new : Stage) (stage : ℕ → Stage) (apart : Apart stage)
    (other_lock : (m : ℕ) (id : String)
      → n ≢ m
      → holds new ≡ some id
      → holds (stage m) ≡ some id
      → ⊥) where
  at_same : (m : ℕ) → (n == m) ≡ true → holds (set_at n new stage m) ≡ holds new
  at_same m e = rw e refl

  at_other : (m : ℕ) → (n == m) ≡ false → holds (set_at n new stage m) ≡ holds (stage m)
  at_other m e = rw e refl

  set_at-Apart : Apart (set_at n new stage)
  set_at-Apart m l id p q = elim (Bool-cases (n == m)) [
    | inl a ↦ elim (Bool-cases (n == l)) [
      | inl b ↦ sym ((==_iff n m).0 a) ∙ (==_iff n l).0 b
      | inr b ↦ absurd (
          other_lock l id (λ e. ground (arith, e)) (sym (at_same m a) ∙ p) (sym (at_other l b) ∙ q))
    ]
    | inr a ↦ elim (Bool-cases (n == l)) [
      | inl b ↦ absurd (
          other_lock m id (λ e. ground (arith, e)) (sym (at_same l b) ∙ q) (sym (at_other m a) ∙ p))
      | inr b ↦ apart m l id (sym (at_other m a) ∙ p) (sym (at_other l b) ∙ q)
    ]
  ]

module _ (platform : Platform) where
  -- Every request in flight stands in a stage that fits the world, and no two hold one lock.
  record Safe (s : Receiver) : Type 0 where
    guarded : Guarded platform s.world
    stage : ℕ → Stage
    at : (n : ℕ) → At (stage n) s.world
    keeps : (n : ℕ) → Keeps platform (Still platform none) (stage n) (s.requests n)
    apart : Apart stage

  arrive-Safe :
      (n : ℕ) (task old : Task DeliveryReceipt) (s : Receiver)
      → Safe s
      → Keeps platform (Still platform none) (calm none) task
      → Safe (arrive n task old s)
  unfolding arrive
  arrive-Safe n task (step move next) s h k = h
  arrive-Safe n task (done r) s h k = record {
    guarded = h.guarded;
    stage = set_at n (calm none) h.stage;
    at = λ m. elim (Bool-cases (n == m)) [ inl same ↦ rw same tt | inr other ↦ rw other (h.at m) ];
    keeps =
        λ m. elim (Bool-cases (n == m)) [ inl same ↦ rw same k | inr other ↦ rw other (h.keeps m) ];
    apart = set_at-Apart n (calm none) h.stage h.apart (λ m id e p q. cc);
  }

  -- a lock that another request holds is not the new one
  taken :
      (n : ℕ) (v : World) (s : Receiver) (h : Safe s) (new : Stage)
      → Move platform (holds (h.stage n)) new s.world v
      → (m : ℕ) (id : String) → n ≢ m
      → holds new ≡ some id
      → holds (h.stage m) ≡ some id
      → ⊥
  taken n v s h new move m id other p q = elim (move.owner id p) [
    | inl own ↦ other (h.apart n m id own q)
    | inr free ↦
        let held : includes s.world.redemption_locks id ≡ true =
          subst (λ z. Held z s.world) q (At-Held (h.stage m) s.world (h.at m)) in
        absurd (ground (arith, held, free))
  ]

  -- one request moves from its stage to another, and goes on as `task`
  moved :
      (n : ℕ) (v : World) (task : Task DeliveryReceipt) (s : Receiver) (h : Safe s) (new : Stage)
      → Move platform (holds (h.stage n)) new s.world v
      → Keeps platform (Still platform none) new task
      → Safe (record { world = v; requests = set_at n task s.requests })
  moved n v task s h new move k = record {
    guarded = move.guarded;
    stage = set_at n new h.stage;
    at = λ m. elim (Bool-cases (n == m)) [
      | inl same ↦ rw same move.at
      | inr other ↦ rw other (
          Frame-At platform (holds (h.stage n)) (h.stage m) s.world v move.frame
            (λ id p q. ground (arith, h.apart n m id q p, ==_iff n m)) (h.at m))
    ];
    keeps =
        λ m. elim (Bool-cases (n == m)) [ inl same ↦ rw same k | inr other ↦ rw other (h.keeps m) ];
    apart = set_at-Apart n new h.stage h.apart (taken n v s h new move);
  }

  next_piece :
      (s : Stage) (move : World → World) (next : World → Task DeliveryReceipt)
      → Keeps platform (Still platform none) s (step move next)
      → (w : World) → Guarded platform w
      → At s w
      → (s' : Stage) × Move platform (holds s) s' w (move w)
        × Keeps platform (Still platform none) s' (next w)
  unfolding Keeps
  next_piece s move next h w g a = h w g a

  go_on-Safe :
      (n : ℕ) (task : Task DeliveryReceipt) (s : Receiver)
      → Safe s
      → s.requests n ≡ task
      → Safe (go_on n task s)
  unfolding go_on
  go_on-Safe n (done r) s h e = h
  go_on-Safe n (step move next) s h e =
      let task = subst (λ t. Keeps platform (Still platform none) (h.stage n) t) e (h.keeps n) in
      let (new, m, k) = next_piece (h.stage n) move next task s.world h.guarded (h.at n) in
      moved n (move s.world) (next s.world) s h new m k

  handle-Safe :
      (ports : Ports) (e : Event) (s : Receiver) → Safe s → Safe (handle platform ports e s)
  unfolding handle
  handle-Safe ports (accept n command) s h =
      arrive-Safe n _ (s.requests n) s h (accept_delivery-Respects platform ports command)
  handle-Safe ports (recover n id) s h =
      arrive-Safe n _ (s.requests n) s h (recover_delivery-Respects platform ports id)
  handle-Safe ports (resume n) s h = go_on-Safe n (s.requests n) s h refl
  handle-Safe ports (store c) s h =
      let v = record s.world { state = perform platform c s.world.state } in
      let m =
        stored-Move platform (calm none) none s.world v h.guarded refl refl
          (perform-Advance platform c s.world.state h.guarded.inv) refl tt in
      record {
        guarded = m.guarded;
        stage = h.stage;
        at = λ n. Frame-At platform none (h.stage n) s.world v m.frame (λ id p q. cc) (h.at n);
        keeps = h.keeps;
        apart = h.apart;
      }
  handle-Safe ports (restart checkpoint locks) s h = record {
    guarded = record { inv = h.guarded.inv; once = h.guarded.once; begun = h.guarded.begun };
    stage = λ n. calm none;
    at = λ n. tt;
    keeps = λ n. unfold Keeps in refl;
    apart = λ n m id p q. absurd (cc);
  }

  serve-Safe :
      (ports : Ports) (es : List Event) (s : Receiver) → Safe s → Safe (serve platform ports es s)
  unfolding serve
  serve-Safe ports [] s h = h
  serve-Safe ports (e ∷ es) s h = serve-Safe ports es _ (handle-Safe ports e s h)

  fresh-Safe : Safe fresh
  unfolding times
  fresh-Safe = record {
    guarded = record {
      inv = empty-Inv platform;
      once = λ id. omega arith;
      begun = λ id n. absurd (omega arith);
    };
    stage = λ n. calm none;
    at = λ n. tt;
    keeps = λ n. unfold Keeps in refl;
    apart = λ n m id p q. absurd (cc);
  }

-- However requests in flight run in turn between their awaits, with other calls of the store and
-- restarts, and whatever the mint and the verifier answer, the mint is asked at most once to swap the
-- proofs of a delivery.
pub swap_called_once :
    (platform : Platform) (ports : Ports) (es : List Event) (id : String)
    → times id (serve platform ports es fresh).world.swaps ≤ 1
swap_called_once platform ports es id =
    (serve-Safe platform ports es fresh (fresh-Safe platform)).guarded.once id
