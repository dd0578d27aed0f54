-- ===== src/Receiver/Recovery/Rules.antt =====
-- How the parts of the receiver's tasks keep to what others rely on.
use mathlib.Core.Path.{subst}
use cashu_fault_lab.Common.{
  String, true, ◌≡◌, ◌≢◌, refl, sym, ◌∙◌, inl, inr, Option, none, some, List, [], ◌∷◌, includes,
  eq_iff, Result, ok, err, arith,
}
use cashu_fault_lab.Delivery.Platform.{Platform}
use cashu_fault_lab.Receiver.Types.{Thrown}
use cashu_fault_lab.Receiver.Store.{StoreState}
use cashu_fault_lab.Receiver.Safety.Runs.{Advance}
use cashu_fault_lab.Receiver.Recovery.Tasks.{World, Task, done, step, act, attempt, unlock}
use cashu_fault_lab.Receiver.Recovery.Traces.{
  Stage, calm, ready, sent, holds, Held, Begun, At, At-Held, Guarded, Move, Keeps,
}

pub includes-unlock :
    (id k : String) (ls : List String)
    → id ≢ k
    → includes ls k ≡ true
    → includes (unlock id ls) k ≡ true
unfolding unlock
includes-unlock id k [] n h = h
includes-unlock id k (l ∷ ls) n h =
    ground (arith, eq_iff l id, eq_iff l k, includes-unlock id k ls n)

module _ (platform : Platform) where
  -- calls of the store keep a delivery past `prepared`
  pub Advance-Begun :
      (s t : StoreState) (id : String) → Advance platform s t → Begun id s → Begun id t
  Advance-Begun s t id a (r, f, p) =
      let (r', f', how, kept) = a.history id r f in
      (r', f', elim how [ inl e ↦ rw e p | inr change ↦ change.no_return p ])

  -- a piece that leaves the locks and the swaps alone
  pub stored-Move :
      (s : Stage) (held : Option String) (w v : World)
      → Guarded platform w
      → v.redemption_locks ≡ w.redemption_locks
      → v.swaps ≡ w.swaps
      → Advance platform w.state v.state
      → holds s ≡ held
      → At s v
      → Move platform held s w v
  stored-Move s held w v g l n a e at = record {
    guarded = record {
      inv = a.inv;
      once = λ id. rw n (g.once id);
      begun = λ id h. Advance-Begun w.state v.state id a (g.begun id (rw⁻¹ n h));
    };
    at = at;
    frame = record {
      kept = λ id other h. (rw l h, rw n refl);
      stays = λ id b. Advance-Begun w.state v.state id a b;
    };
    owner = λ id h. inl (sym e ∙ h);
  }

  -- a piece that does not touch the store
  pub quiet-Move :
      (s : Stage) (w v : World)
      → Guarded platform w
      → v.state ≡ w.state
      → v.redemption_locks ≡ w.redemption_locks
      → v.swaps ≡ w.swaps
      → At s v
      → Move platform (holds s) s w v
  quiet-Move s w v g e l n at = record {
    guarded = record {
      inv = rw e g.inv;
      once = λ id. rw n (g.once id);
      begun = λ id h. rw e (g.begun id (rw⁻¹ n h));
    };
    at = at;
    frame = record { kept = λ id other h. (rw l h, rw n refl); stays = λ id b. rw e b };
    owner = λ id h. inl h;
  }

  -- a task that ends as it starts may start in any stage with that lock
  pub from_stage :
      {A : Type 0} (P : Stage → Result Thrown A → Type 0) (held : Option String) (s : Stage)
      (m : Task A)
      → ((t u : Stage) (r : Result Thrown A) → holds t ≡ holds u → P t r → P u r)
      → holds s ≡ held
      → Keeps platform P (calm held) m
      → Keeps platform P s m
  unfolding Keeps
  from_stage P held s (done r) any e h = any (calm held) s r (sym e) h
  from_stage P held s (step move next) any e h = λ w g a.
      let (t, m, k) = h w g (subst (λ z. Held z w) e (At-Held s w a)) in
      (t, subst (λ z. Move platform z t w (move w)) (sym e) m, k)

  abbrev pub Still : {A : Type 0} → Option String → Stage → Result Thrown A → Type 0
  Still held s r = holds s ≡ held

  abbrev pub Respects : {A : Type 0} → Option String → Task A → Type 0
  Respects held m = Keeps platform (Still held) (calm held) m

  -- the promise that a `try` block returns respects the lock as well
  abbrev pub Yields : {A : Type 0} → Option String → Stage → Result Thrown (Task A) → Type 0
  Yields held s (ok promise) = (holds s ≡ held) × Respects held promise
  Yields held s (err e) = holds s ≡ held

  abbrev pub Leads : {A : Type 0} → Option String → Task (Task A) → Type 0
  Leads held m = Keeps platform (Yields held) (calm held) m

  pub Respects-stage :
      {A : Type 0} (held : Option String) (s : Stage) (m : Task A)
      → holds s ≡ held
      → Respects held m
      → Keeps platform (Still held) s m
  Respects-stage held s m e h = from_stage (Still held) held s m (λ t u r q p. sym q ∙ p) e h

  Yields-stage :
      {A : Type 0} (held : Option String) (t u : Stage) (r : Result Thrown (Task A))
      → holds t ≡ holds u
      → Yields held t r
      → Yields held u r
  Yields-stage held t u (ok p) q (e, h) = (sym q ∙ e, h)
  Yields-stage held t u (err x) q e = sym q ∙ e

  pub Leads-stage :
      {A : Type 0} (held : Option String) (s : Stage) (m : Task (Task A))
      → holds s ≡ held
      → Leads held m
      → Keeps platform (Yields held) s m
  Leads-stage held s m e h =
      from_stage (Yields held) held s m (λ t u r q p. Yields-stage held t u r q p) e h

  -- `attempt` from any stage
  pub attempt-Keeps :
      {A : Type 0} (held : Option String) (s : Stage) (body : Task (Task A))
      (handler : Thrown → Task A)
      → Keeps platform (Yields held) s body
      → ((e : Thrown) → Respects held (handler e))
      → Keeps platform (Still held) s (attempt body handler)
  unfolding Keeps attempt
  attempt-Keeps held s (done (ok p)) handler (e, h) hh = Respects-stage held s p e h
  attempt-Keeps held s (done (err x)) handler e hh = Respects-stage held s (handler x) e (hh x)
  attempt-Keeps held s (step move next) handler h hh =
      λ w g a. let (t, m, k) = h w g a in (t, m, attempt-Keeps held t (next w) handler k hh)

  -- a piece that keeps its stage
  pub quiet-Keeps :
      {A : Type 0} (s : Stage) (move : World → World) (result : World → Result Thrown A)
      → ((w : World) → (move w).state ≡ w.state)
      → ((w : World) → (move w).redemption_locks ≡ w.redemption_locks)
      → ((w : World) → (move w).swaps ≡ w.swaps)
      → Keeps platform (λ t r. t ≡ s) s (act move result)
  unfolding Keeps act
  quiet-Keeps s move result e l n = λ w g a. (
    s,
    quiet-Move s w (move w) g (e w) (l w) (n w) (At-same s w (move w) (e w) (l w) (n w) a),
    refl,
  )
    where
      At-same :
          (s : Stage) (w v : World)
          → v.state ≡ w.state
          → v.redemption_locks ≡ w.redemption_locks
          → v.swaps ≡ w.swaps
          → At s w
          → At s v
      At-same (calm none) w v e l n a = tt
      At-same (calm (some id)) w v e l n a = rw l a
      At-same (ready id) w v e l n a = (rw l a.0, rw n a.1)
      At-same (sent id) w v e l n a = (rw l a.0, rw n a.1, rw e a.2)
