-- ===== src/Receiver/Recovery/Traces.antt =====
-- Tasks of the receiver among others: what a task may rely on between its pieces, and what each of its
-- pieces must keep for the others.
use cashu_fault_lab.Common.{
  ℕ, ◌≤◌, suc, String, true, false, ◌≡◌, ◌≢◌, refl, ◌⊎◌, Option, none, some, List, [], ◌∷◌,
  includes, if◌then◌else◌, str_eq, get, Result, ok, err, arith,
}
use cashu_fault_lab.Delivery.Platform.{Platform}
use cashu_fault_lab.Receiver.Types.{DeliveryRecord, prepared, Thrown}
use cashu_fault_lab.Receiver.Store.{StoreState}
use cashu_fault_lab.Receiver.Safety.{Inv}
use cashu_fault_lab.Receiver.Recovery.Tasks.{World, Task, done, step, and_then}

-- how often `mint.swap` was called for a delivery
unfoldable pub times : String → List String → ℕ
times id [] = 0
times id (s ∷ ss) = if str_eq s id then suc (times id ss) else times id ss

-- where a task stands: with or without a lock; about to mark a delivery that it has found prepared;
-- or about to call `mint.swap` for a delivery that it has marked
pub data Stage : Type 0 where
  calm : Option String → Stage
  ready sent : String → Stage

-- the lock that a task holds
abbrev pub holds : Stage → Option String
holds (calm held) = held
holds (ready id) = some id
holds (sent id) = some id

abbrev pub Held : Option String → World → Type 0
Held none w = Unit {0}
Held (some id) w = includes w.redemption_locks id ≡ true

-- a delivery that is past `prepared`
abbrev pub Begun : String → StoreState → Type 0
Begun id s = (r : DeliveryRecord) × (get s.deliveries id ≡ some r) × (r.phase ≢ prepared)

-- what a task knows of the world
abbrev pub At : Stage → World → Type 0
At (calm held) w = Held held w
At (ready id) w = Held (some id) w × (times id w.swaps ≡ 0)
At (sent id) w = Held (some id) w × (times id w.swaps ≡ 0) × Begun id w.state

pub At-Held : (s : Stage) (w : World) → At s w → Held (holds s) w
At-Held (calm held) w h = h
At-Held (ready id) w h = h.0
At-Held (sent id) w h = h.0

module _ (platform : Platform) where
  -- A swap was called for at most once, and only for deliveries that are past `prepared`.
  pub record Guarded (w : World) : Type 0 where
    pub inv : Inv platform w.state
    pub once : (id : String) → times id w.swaps ≤ 1
    pub begun : (id : String) → 1 ≤ times id w.swaps → Begun id w.state

  -- What a piece of a task with this lock leaves to the others: their locks, the swaps under these,
  -- and the deliveries that have begun.
  pub record Frame (held : Option String) (w v : World) : Type 0 where
    pub kept :
        (id : String)
        → held ≢ some id
        → includes w.redemption_locks id ≡ true
        → (includes v.redemption_locks id ≡ true) × (times id v.swaps ≡ times id w.swaps)
    pub stays : (id : String) → Begun id w.state → Begun id v.state

  -- A piece of a task that takes it from one stage to another; a new lock was free.
  pub record Move (held : Option String) (s : Stage) (w v : World) : Type 0 where
    pub guarded : Guarded v
    pub at : At s v
    pub frame : Frame held w v
    pub owner :
        (id : String)
        → holds s ≡ some id
        → (held ≡ some id) ⊎ (includes w.redemption_locks id ≡ false)

  -- what another task knows stays true
  pub Frame-At :
      (held : Option String) (s : Stage) (w v : World)
      → Frame held w v
      → ((id : String) → holds s ≡ some id → held ≢ some id)
      → At s w
      → At s v
  Frame-At held (calm none) w v f other h = tt
  Frame-At held (calm (some id)) w v f other h = (f.kept id (other id refl) h).0
  Frame-At held (ready id) w v f other (l, t) =
      let (l', e) = f.kept id (other id refl) l in (l', ground (arith, e))
  Frame-At held (sent id) w v f other (l, t, b) =
      let (l', e) = f.kept id (other id refl) l in (l', ground (arith, e), f.stays id b)

  -- Whatever others do between its pieces, a task that starts in a stage moves as it may, and ends
  -- with `P`.
  unfoldable pub Keeps : {A : Type 0} → (Stage → Result Thrown A → Type 0) → Stage → Task A → Type 0
  Keeps P s (done r) = P s r
  Keeps P s (step move next) =
      (w : World)
      → Guarded w
      → At s w
      → (s' : Stage) × Move (holds s) s' w (move w) × Keeps P s' (next w)

  pub and_then-Keeps :
      {A B : Type 0} (P : Stage → Result Thrown A → Type 0) (Q : Stage → Result Thrown B → Type 0)
      (f : A → Task B) (s : Stage) (m : Task A)
      → Keeps P s m
      → ((t : Stage) (a : A) → P t (ok a) → Keeps Q t (f a))
      → ((t : Stage) (e : Thrown) → P t (err e) → Q t (err e))
      → Keeps Q s (and_then f m)
  unfolding Keeps and_then
  and_then-Keeps P Q f s (done (ok a)) h good bad = good s a h
  and_then-Keeps P Q f s (done (err e)) h good bad = bad s e h
  and_then-Keeps P Q f s (step move next) h good bad =
      λ w g a. let (t, m, k) = h w g a in (t, m, and_then-Keeps P Q f t (next w) k good bad)
