-- ===== src/Receiver/Recovery/Locks.antt =====
-- The combinators of the receiver's tasks, and the redemption lock.
use cashu_fault_lab.Common.{
  ℕ, String, Bool, false, ◌≡◌, refl, inl, inr, Option, none, some, ◌∷◌, Bool-cases, includes,
  str_eq_refl, Result, arith,
}
use cashu_fault_lab.Delivery.Platform.{Platform}
use cashu_fault_lab.Delivery.Checkpoint.{CrashBoundary}
use cashu_fault_lab.Receiver.Types.{Thrown}
use cashu_fault_lab.Receiver.Store.{StoreState, Operation, transaction}
use cashu_fault_lab.Receiver.Safety.Runs.{Call, perform, perform-Advance}
use cashu_fault_lab.Receiver.Recovery.Ports.{Exchange, dispatched, answered}
use cashu_fault_lab.Receiver.Recovery.Tasks.{
  World, Task, done, step, act, pure, throw, require, ◌>>=◌, ◌>>◌, attempt, call, ask, asked, pass,
  exchange, with_redemption_lock, release_lock, lock, locked,
}
use cashu_fault_lab.Receiver.Recovery.Traces.{
  Stage, calm, Held, Guarded, Move, Keeps, and_then-Keeps,
}
use cashu_fault_lab.Receiver.Recovery.Rules.{
  includes-unlock, stored-Move, quiet-Move, quiet-Keeps, Still, Respects, Yields, Leads,
  Respects-stage, Leads-stage, attempt-Keeps,
}

-- the end of a piece that keeps its stage, in a weaker form
pub Keeps-map :
    (platform : Platform) {A : Type 0} (P Q : Stage → Result Thrown A → Type 0) (s : Stage)
    (m : Task A)
    → ((t : Stage) (r : Result Thrown A) → P t r → Q t r)
    → Keeps platform P s m
    → Keeps platform Q s m
unfolding Keeps
Keeps-map platform P Q s (done r) f h = f s r h
Keeps-map platform P Q s (step move next) f h =
    λ w g a. let (t, m, k) = h w g a in (t, m, Keeps-map platform P Q t (next w) f k)

module _ (platform : Platform) (held : Option String) where
  pub bind-Respects :
      {A B : Type 0} (m : Task A) (f : A → Task B)
      → Respects platform held m
      → ((a : A) → Respects platform held (f a))
      → Respects platform held (m >>= f)
  unfolding ◌>>=◌
  bind-Respects m f hm hf =
      and_then-Keeps platform (Still platform held) (Still platform held) f (calm held) m hm
        (λ t a e. Respects-stage platform held t (f a) e (hf a)) (λ t x e. e)

  pub then-Respects :
      {A B : Type 0} (m : Task A) (k : Task B)
      → Respects platform held m
      → Respects platform held k
      → Respects platform held (m >> k)
  unfolding ◌>>◌
  then-Respects m k hm hk = bind-Respects m (λ _. k) hm (λ _. hk)

  pub bind-Leads :
      {A B : Type 0} (m : Task A) (f : A → Task (Task B))
      → Respects platform held m
      → ((a : A) → Leads platform held (f a))
      → Leads platform held (m >>= f)
  unfolding ◌>>=◌
  bind-Leads m f hm hf =
      and_then-Keeps platform (Still platform held) (Yields platform held) f (calm held) m hm
        (λ t a e. Leads-stage platform held t (f a) e (hf a)) (λ t x e. e)

  pub then-Leads :
      {A B : Type 0} (m : Task A) (k : Task (Task B))
      → Respects platform held m
      → Leads platform held k
      → Leads platform held (m >> k)
  unfolding ◌>>◌
  then-Leads m k hm hk = bind-Leads m (λ _. k) hm (λ _. hk)

  pub attempt-Respects :
      {A : Type 0} (body : Task (Task A)) (handler : Thrown → Task A)
      → Leads platform held body
      → ((e : Thrown) → Respects platform held (handler e))
      → Respects platform held (attempt body handler)
  attempt-Respects body handler hb hh = attempt-Keeps platform held (calm held) body handler hb hh

  pub pure-Respects : {A : Type 0} (a : A) → Respects platform held (pure a)
  unfolding pure Keeps
  pure-Respects a = refl

  pub pure-Leads :
      {A : Type 0} (m : Task A) → Respects platform held m → Leads platform held (pure m)
  unfolding pure Keeps
  pure-Leads m h = (refl, h)

  pub throw-Respects : (A : Type 0) (e : Thrown) → Respects platform held (throw {A = A} e)
  unfolding throw Keeps
  throw-Respects A e = refl

  pub throw-Leads : (A : Type 0) (e : Thrown) → Leads platform held (throw {A = Task A} e)
  unfolding throw Keeps
  throw-Leads A e = refl

  pub require-Respects : (test : Bool) (e : Thrown) → Respects platform held (require test e)
  unfolding require Keeps
  require-Respects test e = refl

  -- a piece that does not touch the store
  pub act-Respects :
      {A : Type 0} (move : World → World) (result : World → Result Thrown A)
      → ((w : World) → (move w).state ≡ w.state)
      → ((w : World) → (move w).redemption_locks ≡ w.redemption_locks)
      → ((w : World) → (move w).swaps ≡ w.swaps)
      → Respects platform held (act move result)
  act-Respects move result e l n =
      Keeps-map platform (λ t r. t ≡ calm held) (Still platform held) (calm held) (act move result)
        (λ t r same. rw same refl) (quiet-Keeps platform (calm held) move result e l n)

  pub ask-Respects : {A : Type 0} (port : ℕ → Result Thrown A) → Respects platform held (ask port)
  unfolding ask
  ask-Respects port = act-Respects _ _ (λ w. refl) (λ w. refl) (λ w. refl)

  pub asked-Respects : {A : Type 0} (port : ℕ → A) → Respects platform held (asked port)
  unfolding asked
  asked-Respects port = ask-Respects _

  pub pass-Respects : (b : CrashBoundary) → Respects platform held (pass b)
  unfolding pass
  pass-Respects b = act-Respects _ _ (λ w. refl) (λ w. refl) (λ w. refl)

  Held-same :
      (h : Option String) (w v : World)
      → v.redemption_locks ≡ w.redemption_locks
      → Held h w
      → Held h v
  Held-same none w v l a = tt
  Held-same (some id) w v l a = rw l a

  -- an operation that is one call of the store
  pub call-Respects :
      {A : Type 0} (op : Operation A) (c : Call)
      → ((s : StoreState) → (transaction op s).1 ≡ perform platform c s)
      → Respects platform held (call op)
  unfolding call act Keeps
  call-Respects op c h w g a =
      let v = record w { state = (transaction op w.state).1 } in
      (
        calm held,
        stored-Move platform (calm held) held w v g refl refl
            (rw (h w.state) (perform-Advance platform c w.state g.inv)) refl
            (Held-same held w v refl a),
        refl,
      )

  -- what a task reads before it goes on
  pub read-Respects :
      {A : Type 0} (next : World → Task A)
      → ((w : World) → Respects platform held (next w))
      → Respects platform held (step (λ w. w) next)
  unfolding Keeps
  read-Respects next h w g a =
      (calm held, quiet-Move platform (calm held) w w g refl refl refl a, h w)

  pub exchange-Respects :
      {A : Type 0} (hook : Task (Unit {0})) (x : Exchange A)
      → Respects platform held hook
      → Respects platform held (exchange hook x)
  unfolding exchange
  exchange-Respects hook (dispatched x) h =
      then-Respects hook (exchange hook x) h (exchange-Respects hook x h)
  exchange-Respects hook (answered result) h = unfold Keeps in refl

module _ (platform : Platform) where
  -- the lock is released on every path
  release_lock-Keeps :
      {A : Type 0} (id : String) (s : Stage) (m : Task A)
      → Keeps platform (Still platform (some id)) s m
      → Keeps platform (Still platform none) s (release_lock id m)
  unfolding Keeps release_lock act
  release_lock-Keeps id s (done r) e = λ w g a. (
    calm none,
    record {
      guarded = record { inv = g.inv; once = g.once; begun = g.begun };
      at = tt;
      frame = record {
        kept = λ k other h.
            (includes-unlock id k w.redemption_locks (λ same. other (rw e (rw same refl))) h, refl);
        stays = λ k b. b;
      };
      owner = λ k h. absurd (cc);
    },
    refl,
  )
  release_lock-Keeps id s (step move next) h =
      λ w g a. let (t, m, k) = h w g a in (t, m, release_lock-Keeps id t (next w) k)

  lock_taken :
      (id : String) (w : World)
      → Guarded platform w
      → includes w.redemption_locks id ≡ false
      → Move platform none
          (calm (some id))
          w
          (record w { redemption_locks = id ∷ w.redemption_locks })
  lock_taken id w g free = record {
    guarded = record { inv = g.inv; once = g.once; begun = g.begun };
    at = ground (arith, str_eq_refl id);
    frame = record { kept = λ k other h. (ground arith, refl); stays = λ k b. b };
    owner = λ k h. inr (let e : id ≡ k = cc in rw⁻¹ e free);
  }

  lock_refused : (w : World) → Guarded platform w → Move platform none (calm none) w w
  lock_refused w g = record {
    guarded = g;
    at = tt;
    frame = record { kept = λ k other h. (h, refl); stays = λ k b. b };
    owner = λ k h. absurd (cc);
  }

  pub lock-Respects :
      {A : Type 0} (id : String) (m : Task A)
      → Respects platform (some id) m
      → Respects platform none (with_redemption_lock id m)
  unfolding with_redemption_lock Keeps lock locked pure
  lock-Respects id m h = λ w g a. elim (Bool-cases (includes w.redemption_locks id)) [
    | inl taken ↦ (calm none, rw (taken, lock) (lock_refused w g), rw (taken, locked) refl)
    | inr free ↦ (
      calm (some id),
      rw (free, lock) (lock_taken id w g free),
      rw (free, locked) (release_lock-Keeps id (calm (some id)) m h),
    )
  ]
