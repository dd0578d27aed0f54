-- ===== src/Receiver/Recovery/Tasks.antt =====
-- Asynchronous code of the receiver: what it does to the world, whether it returns or throws.
use cashu_fault_lab.Common.{
  ℕ, ◌+◌, String, Bool, true, false, Option, none, some, List, [], ◌∷◌, if◌then◌else◌, str_eq,
  includes, Result, ok, err, ensure,
}
use cashu_fault_lab.Delivery.Checkpoint.{CrashBoundary, Checkpoint, hit}
use cashu_fault_lab.Receiver.Types.{Thrown, crash}
use cashu_fault_lab.Receiver.Store.{StoreState, Operation, transaction}
use cashu_fault_lab.Receiver.Recovery.Ports.{Exchange, dispatched, answered}

-- The store with its redemption locks, the crash checkpoint of the dependencies, the calls of the
-- ports so far, and the deliveries that `mint.swap` was called for.
pub record World : Type 0 where
  pub state : StoreState
  pub redemption_locks : List String
  pub checkpoint : Option Checkpoint
  pub answers : ℕ
  pub swaps : List String

-- A task that runs up to its next `await` in one piece: its end, or such a piece with what follows it.
-- Other tasks run between two pieces.
pub data Task (A : Type 0) : Type 0 where
  done : Result Thrown A → Task A
  step : (World → World) → (World → Task A) → Task A

unfoldable pub pure : {A : Type 0} → A → Task A
pure a = done (ok a)

unfoldable pub throw : {A : Type 0} → Thrown → Task A
throw e = done (err e)

-- a piece that changes the world, with the result that it has in the world before
unfoldable pub act : {A : Type 0} → (World → World) → (World → Result Thrown A) → Task A
act move result = step move (λ w. done (result w))

unfoldable pub and_then : {A B : Type 0} → (A → Task B) → Task A → Task B
and_then f (done (ok a)) = f a
and_then f (done (err e)) = done (err e)
and_then f (step move next) = step move (λ w. and_then f (next w))

infixl 5 ◌>>=◌ ◌>>◌
unfoldable pub ◌>>=◌ : {A B : Type 0} → Task A → (A → Task B) → Task B
m >>= f = and_then f m

unfoldable pub ◌>>◌ : {A B : Type 0} → Task A → Task B → Task B
m >> k = m >>= λ _. k

-- if (!test) throw e
unfoldable pub require : Bool → Thrown → Task (Unit {0})
require test e = done (ensure test e)

-- `try { … return promise; } catch (error) { … }`: the promise is awaited after the block, so what
-- it throws is not caught.
unfoldable pub attempt : {A : Type 0} → Task (Task A) → (Thrown → Task A) → Task A
attempt (done (ok promise)) handler = promise
attempt (done (err e)) handler = handler e
attempt (step move next) handler = step move (λ w. attempt (next w) handler)

unfoldable pub call : {A : Type 0} → Operation A → Task A
call operation =
    act (λ w. record w { state = (transaction operation w.state).1 })
      (λ w. (transaction operation w.state).0)

unfoldable pub ask : {A : Type 0} → (ℕ → Result Thrown A) → Task A
ask port = act (λ w. record w { answers = w.answers + 1 }) (λ w. port w.answers)

unfoldable pub asked : {A : Type 0} → (ℕ → A) → Task A
asked port = ask (λ n. ok (port n))

-- await receiverCrashCheckpoint(deps).hit(boundary, deliveryId)
unfoldable pub pass_at :
    CrashBoundary → Option Checkpoint → Option Checkpoint × Result Thrown (Unit {0})
pass_at boundary none = (none, ok tt)
pass_at boundary (some c) =
    let (c', stop) = hit c boundary in (some c', if stop then err (crash boundary) else ok tt)

unfoldable pub pass : CrashBoundary → Task (Unit {0})
pass boundary =
    act (λ w. record w { checkpoint = (pass_at boundary w.checkpoint).0 })
      (λ w. (pass_at boundary w.checkpoint).1)

-- a request to the mint with its hook
unfoldable pub exchange : {A : Type 0} → Task (Unit {0}) → Exchange A → Task A
exchange hook (dispatched rest) = hook >> exchange hook rest
exchange hook (answered result) = done result

-- locks.delete(id)
unfoldable pub unlock : String → List String → List String
unlock id [] = []
unlock id (l ∷ ls) = let rest = unlock id ls in if str_eq l id then rest else l ∷ rest

unfoldable pub acquired : {A : Type 0} → Result Thrown A → Result Thrown (Option A)
acquired (ok a) = ok (some a)
acquired (err e) = err e

-- the `finally` block, whatever the operation ends with
unfoldable pub release_lock : {A : Type 0} → String → Task A → Task (Option A)
release_lock id (done result) =
    act (λ w. record w { redemption_locks = unlock id w.redemption_locks }) (λ _. acquired result)
release_lock id (step move next) = step move (λ w. release_lock id (next w))

unfoldable pub lock : String → World → World
lock id w =
    if includes w.redemption_locks id
    then w
    else record w { redemption_locks = id ∷ w.redemption_locks }

unfoldable pub locked : {A : Type 0} → String → Task A → Bool → Task (Option A)
locked id operation true = pure none
locked id operation false = release_lock id operation

-- withRedemptionLock: `none` where the lock is not acquired
unfoldable pub with_redemption_lock : {A : Type 0} → String → Task A → Task (Option A)
with_redemption_lock id operation =
    step (lock id) (λ w. locked id operation (includes w.redemption_locks id))
