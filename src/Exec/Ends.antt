-- ===== src/Exec/Ends.antt =====
-- Triples for actions: what holds before, and what holds after a return and after an exception.
use drive_guard.Prelude.{Bool, true, false, if◌then◌else◌, ◌≡◌, refl}
use drive_guard.Exec.{Result, ok, err, Exec, pure, raise, handle, attempt, ◌>>=◌, continue}

module _ {S E A : Type 0} where
  abbrev pub After : (A → S → Type 0) → (E → S → Type 0) → Result E A → S → Type 0
  After Q R (ok a) s = Q a s
  After Q R (err e) s = R e s

  pub record Ends (P : S → Type 0) (m : Exec S E A) (Q : A → S → Type 0) (R : E → S → Type 0)
      : Type 0 where
    pub at : (s : S) → P s → After Q R (m s).0 (m s).1

  module _ {P : S → Type 0} {Q : A → S → Type 0} {R : E → S → Type 0} where
    pub Ends-pure : (a : A) → ((s : S) → P s → Q a s) → Ends P (pure a) Q R
    unfolding pure
    Ends-pure a h = record { at = h }

    pub Ends-raise : (e : E) → ((s : S) → P s → R e s) → Ends P (raise e) Q R
    unfolding raise
    Ends-raise e h = record { at = h }

    pub Ends-if :
        (b : Bool) {m n : Exec S E A}
        → (b ≡ true → Ends P m Q R)
        → (b ≡ false → Ends P n Q R)
        → Ends P (if b then m else n) Q R
    Ends-if true hm hn = hm refl
    Ends-if false hm hn = hn refl

    -- What the exceptions of `m` leave is where the handler starts.
    pub Ends-attempt :
        {m : Exec S E A} {h : E → Exec S E A} (T : E → S → Type 0)
        → Ends P m Q T
        → ((e : E) → Ends (T e) (h e) Q R)
        → Ends P (attempt m h) Q R
    unfolding attempt
    Ends-attempt {m} {h} T hm hh = record { at = λ s p. let (r, t) = m s in go r t (hm.at s p) }
      where
        go : (r : Result E A) (t : S) → After Q T r t → After Q R (handle r h t).0 (handle r h t).1
        go (ok a) t q = q
        go (err e) t q = (hh e).at t q

    pub Ends-after :
        {m : Exec S E A} {Q' : A → S → Type 0} {R' : E → S → Type 0}
        → Ends P m Q' R'
        → ((a : A) (s : S) → Q' a s → Q a s)
        → ((e : E) (s : S) → R' e s → R e s)
        → Ends P m Q R
    Ends-after {m} {Q'} {R'} hm hq hr = record {
      at = λ s p. let (r, t) = m s in go r t (hm.at s p);
    }
      where
        go : (r : Result E A) (t : S) → After Q' R' r t → After Q R r t
        go (ok a) t q = hq a t q
        go (err e) t q = hr e t q

module _ {S E A B : Type 0} {P : S → Type 0} {Q : B → S → Type 0} {R : E → S → Type 0} where
  pub Ends-bind :
      {m : Exec S E A} {f : A → Exec S E B} (M : A → S → Type 0)
      → Ends P m M R
      → ((a : A) → Ends (M a) (f a) Q R)
      → Ends P (m >>= f) Q R
  unfolding ◌>>=◌
  Ends-bind {m} {f} M hm hf = record { at = λ s p. let (r, t) = m s in go r t (hm.at s p) }
    where
      go :
          (r : Result E A) (t : S) → After M R r t → After Q R (continue r f t).0 (continue r f t).1
      go (ok a) t q = (hf a).at t q
      go (err e) t q = q
