-- ===== src/Common/Tasks.antt =====
-- Asynchronous code: what it does to a world, whether it returns or throws. What it changed before it
-- threw stays changed.
pub mod Holds
use mathlib.Core.Bool.{Bool}
use cashu_fault_lab.Common.Results.{Result, ok, err, ensure}

abbrev pub Task : Type 0 → Type 0 → Type 0 → Type 0
Task W E A = W → Result E A × W

module _ {W E : Type 0} where
  unfoldable pub pure : {A : Type 0} → A → Task W E A
  pure a w = (ok a, w)

  unfoldable pub throw : {A : Type 0} → E → Task W E A
  throw e w = (err e, w)

  unfoldable pub lift : {A : Type 0} → Result E A → Task W E A
  lift r w = (r, w)

  unfoldable pub and_then : {A B : Type 0} → (A → Task W E B) → Result E A × W → Result E B × W
  and_then f (ok a, w) = f a w
  and_then f (err e, w) = (err e, w)

  unfoldable pub or_catch : {A : Type 0} → (E → Task W E A) → Result E A × W → Result E A × W
  or_catch handler (ok a, w) = (ok a, w)
  or_catch handler (err e, w) = handler e w

  infixl 5 ◌>>=◌ ◌>>◌
  unfoldable pub ◌>>=◌ : {A B : Type 0} → Task W E A → (A → Task W E B) → Task W E B
  (m >>= f) w = and_then f (m w)

  unfoldable pub ◌>>◌ : {A B : Type 0} → Task W E A → Task W E B → Task W E B
  m >> k = m >>= λ _. k

  -- try { return await m } catch (error) { return await handler(error) }
  unfoldable pub attempt : {A : Type 0} → Task W E A → (E → Task W E A) → Task W E A
  attempt m handler w = or_catch handler (m w)
