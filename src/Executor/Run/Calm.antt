-- ===== src/Executor/Run/Calm.antt =====
-- The actions of an execution that neither call the tool nor ask the reconciler. They leave the
-- history as it is, and what they throw is no answer of a dependency.
pub mod Parts
use drive_guard.Prelude.{
  ℕ, Bool, true, false, Option, none, some, if◌then◌else◌, ◌≡◌, refl, ◌∙◌, subst, sym, arith, List,
}
use drive_guard.Exec.{Result, ok, err, pure, raise, require, gets, ◌>>=◌, continue}
use drive_guard.Exec.Ends.{Ends, After}
use drive_guard.Policy.Provenance.{Issued}
use drive_guard.Executor.{Thrown}
use drive_guard.Executor.Circuit.{Circuits}
use drive_guard.Executor.Records.{ExecutionRecords, Store}
use drive_guard.Executor.Idempotency.{Idempotency}
use drive_guard.Executor.Failures.{failure_code, is_dependency_code}
use drive_guard.Executor.Run.{
  Env, Executing, World, Act, ExecutionResult, outside, on_records, on_circuits, on_issued,
  on_idempotency, succeeds, awaited,
}

-- An error that is not the failure of a dependency.
abbrev pub IsOwn : Thrown → Type 0
IsOwn e = is_dependency_code (failure_code e.kind) ≡ false

pub record IsCalm {A : Type 0} (m : Executing A) : Type 0 where
  pub quiet : (w : World) → (m w).1.acts ≡ w.acts
  pub own : (w : World) (e : Thrown) → (m w).0 ≡ err e → IsOwn e

-- An operation of the store throws only what is no failure of a dependency.
pub record IsOwnStore {A : Type 0} (m : Store A) : Type 0 where
  pub throws : (s : ExecutionRecords) (e : Thrown) → (m s).0 ≡ err e → IsOwn e

module _ {A : Type 0} where
  pub IsCalm-pure : (a : A) → IsCalm (pure a)
  unfolding pure
  IsCalm-pure a = record { quiet = λ w. refl; own = λ w e h. absurd (ground arith) }

  pub IsCalm-raise : (e : Thrown) → IsOwn e → IsCalm (raise {A = A} e)
  unfolding raise
  IsCalm-raise e o = record { quiet = λ w. refl; own = λ w e h. ground arith }

  pub IsCalm-gets : (f : World → A) → IsCalm (gets f)
  unfolding gets
  IsCalm-gets f = record { quiet = λ w. refl; own = λ w e h. absurd (ground arith) }

  pub IsCalm-require : (e : Thrown) (o : Option A) → IsOwn e → IsCalm (require e o)
  unfolding require
  IsCalm-require e none h = IsCalm-raise e h
  IsCalm-require e (some a) h = IsCalm-pure a

  pub IsCalm-outside : (f : ℕ → A) → IsCalm (outside f)
  unfolding outside
  IsCalm-outside f = record { quiet = λ w. refl; own = λ w e h. absurd (ground arith) }

  pub IsCalm-on_circuits : (m : Circuits → A × Circuits) → IsCalm (on_circuits m)
  unfolding on_circuits
  IsCalm-on_circuits m = record { quiet = λ w. refl; own = λ w e h. absurd (ground arith) }

  pub IsCalm-on_issued : (m : Issued → A × Issued) → IsCalm (on_issued m)
  unfolding on_issued
  IsCalm-on_issued m = record { quiet = λ w. refl; own = λ w e h. absurd (ground arith) }

  pub IsCalm-on_idempotency :
      (m : Idempotency ExecutionResult → A × Idempotency ExecutionResult)
      → IsCalm (on_idempotency m)
  unfolding on_idempotency
  IsCalm-on_idempotency m = record { quiet = λ w. refl; own = λ w e h. absurd (ground arith) }

  pub IsCalm-on_records : (m : Store A) → IsOwnStore m → IsCalm (on_records m)
  unfolding on_records
  IsCalm-on_records m o = record { quiet = λ w. refl; own = λ w e h. o.throws w.records e h }

  pub IsCalm-awaited : (env : Env) (f : ℕ → A) → IsCalm (awaited env f)
  unfolding awaited
  IsCalm-awaited env f = record { quiet = λ w. refl; own = λ w e h. absurd (ground arith) }

  pub IsCalm-if : (b : Bool) {m n : Executing A} → IsCalm m → IsCalm n → IsCalm (if b then m else n)
  IsCalm-if true cm cn = cm
  IsCalm-if false cm cn = cn

  pub IsCalm-succeeds : (m : Executing A) → IsCalm m → IsCalm (succeeds m)
  unfolding succeeds
  IsCalm-succeeds m c = record { quiet = c.quiet; own = λ w e h. absurd (ground arith) }

module _ {A B : Type 0} (m : Executing A) (f : A → Executing B) where
  pub IsCalm-bind : IsCalm m → ((a : A) → IsCalm (f a)) → IsCalm (m >>= f)
  unfolding ◌>>=◌
  IsCalm-bind c d = record {
    quiet = λ w. let (r, t) = m w in quiet_go r t ∙ c.quiet w;
    own = λ w e h. let (r, t) = m w in own_go r t e (c.own w e) h;
  }
    where
      quiet_go : (r : Result Thrown A) (t : World) → (continue r f t).1.acts ≡ t.acts
      quiet_go (ok a) t = (d a).quiet t
      quiet_go (err e) t = refl

      own_go :
          (r : Result Thrown A) (t : World) (e : Thrown)
          → (r ≡ err e → IsOwn e)
          → (continue r f t).0 ≡ err e
          → IsOwn e
      own_go (ok a) t e k h = (d a).own t e h
      own_go (err x) t e k h = k (ground arith)

-- A calm action keeps what is known of the history.
module _ {A : Type 0} {m : Executing A} (P : List Act → Type 0) (c : IsCalm m) where
  pub Ends-calm : Ends (λ w. P w.acts) m (λ a w. P w.acts) (λ e w. IsOwn e × P w.acts)
  Ends-calm = record {
    at = λ w p. let (r, t) = m w in go r t (subst P (sym (c.quiet w)) p) (c.own w);
  }
    where
      go :
          (r : Result Thrown A) (t : World)
          → P t.acts
          → ((e : Thrown) → r ≡ err e → IsOwn e)
          → After (λ a w. P w.acts) (λ e w. IsOwn e × P w.acts) r t
      go (ok a) t q k = q
      go (err e) t q k = (k e refl, q)
