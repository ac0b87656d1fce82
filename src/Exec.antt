-- ===== src/Exec.antt =====
-- Async methods that mutate an object and may throw. What was written before a throw stays
-- written, so the state comes back beside the exception too.
pub mod Returns
pub mod Ends
use mathlib.Core.Bool.{Bool, true, false}
use mathlib.Core.Option.{Option, none, some}

pub data Result {ℓ} (E A : Type ℓ) : Type ℓ where
  ok : A → Result E A
  err : E → Result E A

abbrev pub Exec {ℓ} : Type ℓ → Type ℓ → Type ℓ → Type ℓ
Exec S E A = S → Result E A × S

module _ {ℓ} {S E A : Type ℓ} where
  unfoldable pub pure : A → Exec S E A
  pure a s = (ok a, s)

  unfoldable pub raise : E → Exec S E A
  raise e s = (err e, s)

  unfoldable pub gets : (S → A) → Exec S E A
  gets f s = (ok (f s), s)

  -- `throw e` unless a value is there
  unfoldable pub require : E → Option A → Exec S E A
  unfolding pure raise
  require e none = raise e
  require e (some a) = pure a

  -- `try m catch (e) h`
  abbrev pub handle : Result E A → (E → Exec S E A) → Exec S E A
  handle (ok a) h s = (ok a, s)
  handle (err e) h s = h e s

  unfoldable pub attempt : Exec S E A → (E → Exec S E A) → Exec S E A
  attempt m h s = let (r, s') = m s in handle r h s'

module _ {ℓ} {S E A B : Type ℓ} where
  abbrev pub continue : Result E A → (A → Exec S E B) → Exec S E B
  continue (ok a) f s = f a s
  continue (err e) f s = (err e, s)

  infixl 10 ◌>>=◌ ◌>>◌
  -- opening this opens the actions above too
  unfoldable pub ◌>>=◌ : Exec S E A → (A → Exec S E B) → Exec S E B
  unfolding pure raise gets require
  ◌>>=◌ m f s = let (r, s') = m s in continue r f s'

  abbrev pub ◌>>◌ : Exec S E A → Exec S E B → Exec S E B
  m >> n = m >>= λ _. n

module _ {ℓ} {S E : Type ℓ} where
  unfoldable pub modify : (S → S) → Exec S E (Unit {ℓ})
  modify f s = (ok tt, f s)

  -- `if (b) throw e`
  unfoldable pub throw_if : Bool → E → Exec S E (Unit {ℓ})
  unfolding pure raise
  throw_if true e = raise e
  throw_if false e = pure tt
