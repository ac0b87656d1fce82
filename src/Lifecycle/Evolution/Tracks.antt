-- ===== src/Lifecycle/Evolution/Tracks.antt =====
-- Actions of the repository and of the service that make only steps of the record's lives, with
-- what they rely on and what they leave known, and a rule for each way to build one.
use drive_guard.Prelude.{ℕ, ◌≡◌, refl, subst, Bool, true, false, Option, none, some, if◌then◌else◌}
use drive_guard.Exec.{
  Result, ok, err, pure, raise, require, attempt, ◌>>=◌, throw_if, handle, continue,
}
use drive_guard.Lifecycle.{Fault}
use drive_guard.Lifecycle.Repository.{Records}
use drive_guard.Lifecycle.Service.{World, Service, outside}
use drive_guard.Lifecycle.Evolution.{IsEvolution, IsEvolution-refl, IsEvolution-trans}

abbrev pub Known : Type 1
Known = Records → Type 0

abbrev pub nothing : Known
nothing records = Unit

abbrev pub Leaves : {A : Type 0} → (A → Known) → Result Fault A → Known
Leaves Q (ok a) records = Q a records
Leaves Q (err e) records = Unit

-- From a state where `P` is known, `m` makes an evolution, and leaves `Q` known if it returns.
pub record Tracks {A : Type 0} (P : Known) (m : Service A) (Q : A → Known) : Type 0 where
  pub at :
      (w : World)
      → P w.records
      → IsEvolution w.records (m w).1.records × Leaves Q (m w).0 (m w).1.records

module _ {A : Type 0} {P : Known} where
  pub Tracks-pure : {Q : A → Known} (a : A) → ((s : Records) → P s → Q a s) → Tracks P (pure a) Q
  unfolding pure
  Tracks-pure a h = record { at = λ w p. (IsEvolution-refl w.records, h w.records p) }

  pub Tracks-raise : {Q : A → Known} (e : Fault) → Tracks P (raise e) Q
  unfolding raise
  Tracks-raise e = record { at = λ w p. (IsEvolution-refl w.records, tt) }

  pub Tracks-require :
      {Q : A → Known} (e : Fault) (o : Option A)
      → ((a : A) (s : Records) → o ≡ some a → P s → Q a s)
      → Tracks P (require e o) Q
  unfolding require pure raise
  Tracks-require e none h = record { at = λ w p. (IsEvolution-refl w.records, tt) }
  Tracks-require e (some a) h = record {
    at = λ w p. (IsEvolution-refl w.records, h a w.records refl p);
  }

  pub Tracks-outside : (f : ℕ → A) → Tracks P (outside f) (λ a. P)
  unfolding outside
  Tracks-outside f = record { at = λ w p. (IsEvolution-refl w.records, p) }

  pub Tracks-if :
      {Q : A → Known} (b : Bool) (m n : Service A)
      → (b ≡ true → Tracks P m Q)
      → (b ≡ false → Tracks P n Q)
      → Tracks P (if b then m else n) Q
  Tracks-if true m n tm tn = tm refl
  Tracks-if false m n tm tn = tn refl

  pub Tracks-attempt :
      {Q : A → Known} (m : Service A) (h : Fault → Service A)
      → Tracks P m Q
      → ((e : Fault) → Tracks nothing (h e) Q)
      → Tracks P (attempt m h) Q
  unfolding attempt
  Tracks-attempt {Q} m h tm th = record { at = λ w p. let (r, w') = m w in go w r w' (tm.at w p) }
    where
      go :
          (w : World) (r : Result Fault A) (w' : World)
          → IsEvolution w.records w'.records × Leaves Q r w'.records
          → let (r', w'') = handle r h w' in
            IsEvolution w.records w''.records × Leaves Q r' w''.records
      go w (ok a) w' x = x
      go w (err e) w' x = let y = (th e).at w' tt in (IsEvolution-trans x.0 y.0, y.1)

module _ {A B : Type 0} {P : Known} {R : B → Known} where
  pub Tracks-bind :
      (Q : A → Known) (m : Service A) (f : A → Service B)
      → Tracks P m Q
      → ((a : A) → Tracks (Q a) (f a) R)
      → Tracks P (m >>= f) R
  unfolding ◌>>=◌
  Tracks-bind Q m f tm tf = record { at = λ w p. let (r, w') = m w in go w r w' (tm.at w p) }
    where
      go :
          (w : World) (r : Result Fault A) (w' : World)
          → IsEvolution w.records w'.records × Leaves Q r w'.records
          → let (r', w'') = continue r f w' in
            IsEvolution w.records w''.records × Leaves R r' w''.records
      go w (ok a) w' x = let y = (tf a).at w' x.1 in (IsEvolution-trans x.0 y.0, y.1)
      go w (err e) w' x = (x.0, tt)

  -- The rest of a block that needs nothing beyond what was known before.
  pub Tracks-then :
      (m : Service A) (f : A → Service B)
      → Tracks P m (λ a. P)
      → ((a : A) → Tracks P (f a) R)
      → Tracks P (m >>= f) R
  Tracks-then m f tm tf = Tracks-bind (λ a. P) m f tm tf

module _ {P : Known} where
  pub Tracks-throw_if :
      {Q : Unit {0} → Known} (b : Bool) (e : Fault)
      → (b ≡ false → (s : Records) → P s → Q tt s)
      → Tracks P (throw_if b e) Q
  unfolding throw_if pure raise
  Tracks-throw_if true e h = record { at = λ w p. (IsEvolution-refl w.records, tt) }
  Tracks-throw_if false e h = record {
    at = λ w p. (IsEvolution-refl w.records, h refl w.records p);
  }

  pub Tracks-forget :
      {A : Type 0} {Q : A → Known} (m : Service A) → Tracks nothing m Q → Tracks P m Q
  Tracks-forget m t = record { at = λ w p. t.at w tt }

  pub Tracks-result :
      {A : Type 0} {Q R : A → Known} (m : Service A)
      → Tracks P m Q
      → ((a : A) (s : Records) → Q a s → R a s)
      → Tracks P m R
  Tracks-result {A} {Q} {R} m t h = record {
    at = λ w p. (((t.at w p).0), go (m w).0 (m w).1.records (t.at w p).1);
  }
    where
      go : (r : Result Fault A) (s : Records) → Leaves Q r s → Leaves R r s
      go (ok a) s q = h a s q
      go (err e) s q = tt

-- What is known after a return.
pub returned :
    {A : Type 0} (Q : A → Known) {r : Result Fault A} (s : Records) (a : A)
    → r ≡ ok a
    → Leaves Q r s
    → Q a s
returned Q s a e l = subst (λ x. Leaves Q x s) e l
