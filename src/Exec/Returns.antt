-- ===== src/Exec/Returns.antt =====
-- What is known of the parts of an action that returned.
use drive_guard.Prelude.{
  ◌≡◌, refl, Bool, true, false, Option, none, some, if◌then◌else◌, arith, ◌⊎◌, inl, inr,
}
use drive_guard.Exec.{Result, ok, err, Exec, pure, raise, require, ◌>>=◌, throw_if, continue}

module _ {S E A B : Type 0} where
  pub bind-ok :
      (m : Exec S E A) (f : A → Exec S E B) (s : S) (b : B)
      → ((m >>= f) s).0 ≡ ok b
      → (a : A) × ((m s).0 ≡ ok a) × ((f a (m s).1).0 ≡ ok b)
  unfolding ◌>>=◌
  bind-ok m f s b h = let (r, t) = m s in go r t h
    where
      go :
          (r : Result E A) (t : S)
          → (continue r f t).0 ≡ ok b
          → (a : A) × (r ≡ ok a) × ((f a t).0 ≡ ok b)
      go (ok a) t h = (a, refl, h)
      go (err e) t h = absurd (ground arith)

module _ {S E B : Type 0} where
  pub throw_if-ok :
      (b : Bool) (e : E) (f : Unit {0} → Exec S E B) (s : S) (x : B)
      → ((throw_if b e >>= f) s).0 ≡ ok x
      → (b ≡ false) × ((f tt s).0 ≡ ok x)
  unfolding ◌>>=◌ throw_if raise pure
  throw_if-ok true e f s x h = absurd (ground arith)
  throw_if-ok false e f s x h = (refl, h)

  pub if-ok :
      (b : Bool) (m n : Exec S E B) (s : S) (x : B)
      → ((if b then m else n) s).0 ≡ ok x
      → ((b ≡ true) × ((m s).0 ≡ ok x)) ⊎ ((b ≡ false) × ((n s).0 ≡ ok x))
  if-ok true m n s x h = inl (refl, h)
  if-ok false m n s x h = inr (refl, h)

  pub require-ok :
      (e : E) (o : Option B) (s : S) (x : B) → (require {S = S} e o s).0 ≡ ok x → o ≡ some x
  unfolding require pure raise
  require-ok e none s x h = absurd (ground arith)
  require-ok e (some a) s x h = ground arith

  pub pure-ok : (a : B) (s : S) (x : B) → (pure {S = S} {E = E} a s).0 ≡ ok x → a ≡ x
  unfolding pure
  pure-ok a s x h = ground arith

  pub raise-ok : (e : E) (s : S) (x : B) → (raise {S = S} {A = B} e s).0 ≡ ok x → ⊥
  unfolding raise
  raise-ok e s x h = ground arith
