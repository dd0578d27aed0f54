-- ===== src/Common/Tasks/Holds.antt =====
-- What holds where a task returns, and where it throws.
use mathlib.Core.Path.{◌≡◌, refl}
use cashu_fault_lab.Common.Results.{Result, ok, err}
use cashu_fault_lab.Common.Tasks.{Task, lift, and_then, or_catch, ◌>>=◌, ◌>>◌, attempt}

module _ {W E : Type 0} where
  abbrev pub Holds : {A : Type 0} → (A → W → Type 0) → (W → Type 0) → Result E A × W → Type 0
  Holds Q F (ok a, w) = Q a w
  Holds Q F (err e, w) = F w

  and_then-Holds :
      {A B : Type 0} (Q : A → W → Type 0) (R : B → W → Type 0) (F : W → Type 0) (f : A → Task W E B)
      (x : Result E A × W)
      → Holds Q F x
      → ((a : A) (w : W) → Q a w → Holds R F (f a w))
      → Holds R F (and_then f x)
  unfolding and_then
  and_then-Holds Q R F f (ok a, w) h k = k a w h
  and_then-Holds Q R F f (err e, w) h k = h

  or_catch-Holds :
      {A : Type 0} (Q : A → W → Type 0) (F G : W → Type 0) (handler : E → Task W E A)
      (x : Result E A × W)
      → Holds Q F x
      → ((e : E) (w : W) → F w → Holds Q G (handler e w))
      → Holds Q G (or_catch handler x)
  unfolding or_catch
  or_catch-Holds Q F G handler (ok a, w) h k = h
  or_catch-Holds Q F G handler (err e, w) h k = k e w h

  pub bind-Holds :
      {A B : Type 0} (Q : A → W → Type 0) (R : B → W → Type 0) (F : W → Type 0) (m : Task W E A)
      (f : A → Task W E B) (w : W)
      → Holds Q F (m w)
      → ((a : A) (v : W) → Q a v → Holds R F (f a v))
      → Holds R F ((m >>= f) w)
  unfolding ◌>>=◌
  bind-Holds Q R F m f w h k = and_then-Holds Q R F f (m w) h k

  pub then-Holds :
      {A B : Type 0} (Q : A → W → Type 0) (R : B → W → Type 0) (F : W → Type 0) (m : Task W E A)
      (k : Task W E B) (w : W)
      → Holds Q F (m w)
      → ((a : A) (v : W) → Q a v → Holds R F (k v))
      → Holds R F ((m >> k) w)
  unfolding ◌>>◌
  then-Holds Q R F m k w h j = bind-Holds Q R F m (λ _. k) w h j

  pub attempt-Holds :
      {A : Type 0} (Q : A → W → Type 0) (F G : W → Type 0) (m : Task W E A)
      (handler : E → Task W E A) (w : W)
      → Holds Q F (m w)
      → ((e : E) (v : W) → F v → Holds Q G (handler e v))
      → Holds Q G (attempt m handler w)
  unfolding attempt
  attempt-Holds Q F G m handler w h k = or_catch-Holds Q F G handler (m w) h k

  pub lift-Holds :
      {A : Type 0} (P F : W → Type 0) (r : Result E A) (w : W)
      → P w
      → F w
      → Holds (λ _ v. P v) F (lift r w)
  unfolding lift
  lift-Holds P F (ok a) w h k = h
  lift-Holds P F (err e) w h k = k

  pub lift-Result :
      {A : Type 0} (P F : W → Type 0) (r : Result E A) (w : W)
      → P w
      → F w
      → Holds (λ a v. (r ≡ ok a) × P v) F (lift r w)
  unfolding lift
  lift-Result P F (ok a) w h k = (refl, h)
  lift-Result P F (err e) w h k = k
