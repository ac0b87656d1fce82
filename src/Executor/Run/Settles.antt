-- ===== src/Executor/Run/Settles.antt =====
-- When an execution settles: the rules by which its parts neither throw nor lose its record, under
-- a clock that reads timestamps and other executions that leave its record alone.
pub mod Parts
pub mod Failures
pub mod Rounds
pub mod Owner
use drive_guard.Prelude.{
  ℕ, Bool, true, false, Option, none, some, if◌then◌else◌, ◌≤◌, ◌≡◌, refl, subst, sym, ◌++◌, [],
  ◌∷◌,
}
use drive_guard.Prelude.Dict.{get, put, get-put_self}
use drive_guard.Exec.{Result, ok, err, pure, raise, require, gets, ◌>>=◌, modify}
use drive_guard.Exec.Ends.{Ends, After, Ends-pure, Ends-raise, Ends-after, Ends-bind}
use drive_guard.Context.Time.{max_timestamp}
use drive_guard.Policy.Provenance.{Issued}
use drive_guard.Executor.{
  ExecutionState, created, running, Thrown, Attempt, ExecutionRecord, ExecutionRequest,
}
use drive_guard.Executor.Circuit.{Circuits}
use drive_guard.Executor.Records.{
  ExecutionRecords, transition, add_attempt, moved_record, tried_record, is_legal, is_running,
}
use drive_guard.Executor.Records.Life.{transition-legal, add_attempt-running}
use drive_guard.Executor.Run.{
  Env, Executing, World, ExecutionEvent, outside, on_records, on_circuits, on_issued, succeeds,
}

abbrev pub is_settled : ExecutionState → Bool
is_settled created = false
is_settled running = false
is_settled _ = true

-- The clock reads times that are timestamps.
abbrev pub IsClock : Env → Type 0
IsClock env = (n : ℕ) → env.now_ms n ≤ max_timestamp

-- Other executions leave the record of the request alone.
abbrev pub LeavesOwn : Env → ExecutionRequest → Type 0
LeavesOwn env request =
    (n : ℕ) (m : ExecutionRecords)
    → get request.execution_id (env.others_records n m) ≡ get request.execution_id m

module _ (request : ExecutionRequest) where
  -- The record of the request is there, in this state.
  pub record HasState (s : ExecutionState) (w : World) : Type 0 where
    pub own : ExecutionRecord
    pub found : get request.execution_id w.records ≡ some own
    pub state_eq : own.state ≡ s

module _ (env : Env) (request : ExecutionRequest) where
  abbrev Own : ExecutionState → World → Type 0
  Own = HasState request

  pub same_records : (s : ExecutionState) (v w : World) → v.records ≡ w.records → Own s w → Own s v
  same_records s v w e h = record { own = h.own; found = rw e h.found; state_eq = h.state_eq }

  -- The action keeps the state of the record.
  pub record Keeps {A : Type 0} (m : Executing A) : Type 0 where
    pub at : (s : ExecutionState) → Ends (Own s) m (λ a. Own s) (λ e. Own s)

  -- The action keeps the state of the record, and does not throw.
  pub record Returns {A : Type 0} (m : Executing A) : Type 0 where
    pub at : (s : ExecutionState) → Ends (Own s) m (λ a. Own s) (λ e w. ⊥)

  module _ {A : Type 0} where
    pub Returns-pure : (a : A) → Returns (pure a)
    Returns-pure a = record { at = λ s. Ends-pure a (λ w h. h) }

    pub Keeps-pure : (a : A) → Keeps (pure a)
    Keeps-pure a = record { at = λ s. Ends-pure a (λ w h. h) }

    pub Keeps-raise : (e : Thrown) → Keeps (raise {A = A} e)
    Keeps-raise e = record { at = λ s. Ends-raise e (λ w h. h) }

    pub Keeps-require : (e : Thrown) (o : Option A) → Keeps (require e o)
    unfolding require
    Keeps-require e none = Keeps-raise e
    Keeps-require e (some a) = Keeps-pure a

    pub Returns-gets : (f : World → A) → Returns (gets f)
    unfolding gets
    Returns-gets f = record { at = λ s. record { at = λ w h. h } }

    pub Returns-outside : (f : ℕ → A) → Returns (outside f)
    unfolding outside
    Returns-outside f = record { at = λ s. record { at = λ w h. same_records s _ w refl h } }

    pub Returns-on_circuits : (m : Circuits → A × Circuits) → Returns (on_circuits m)
    unfolding on_circuits
    Returns-on_circuits m = record { at = λ s. record { at = λ w h. same_records s _ w refl h } }

    pub Returns-on_issued : (m : Issued → A × Issued) → Returns (on_issued m)
    unfolding on_issued
    Returns-on_issued m = record { at = λ s. record { at = λ w h. same_records s _ w refl h } }

    pub Keeps-Returns : {m : Executing A} → Returns m → Keeps m
    Keeps-Returns r = record { at = λ s. Ends-after (r.at s) (λ a w h. h) (λ e w h. absurd h) }

    pub Keeps-if : (b : Bool) {m n : Executing A} → Keeps m → Keeps n → Keeps (if b then m else n)
    Keeps-if true km kn = km
    Keeps-if false km kn = kn

    pub Returns-if :
        (b : Bool) {m n : Executing A} → Returns m → Returns n → Returns (if b then m else n)
    Returns-if true rm rn = rm
    Returns-if false rm rn = rn

    pub Returns-succeeds : (m : Executing A) → Keeps m → Returns (succeeds m)
    unfolding succeeds
    Returns-succeeds m k = record {
      at = λ s. record { at = λ w h. let (r, t) = m w in either s r t ((k.at s).at w h) };
    }
      where
        either :
            (s : ExecutionState) (r : Result Thrown A) (t : World)
            → After (λ a. Own s) (λ e. Own s) r t
            → Own s t
        either s (ok a) t h = h
        either s (err e) t h = h

  module _ {A B : Type 0} (m : Executing A) (f : A → Executing B) where
    pub Keeps-bind : Keeps m → ((a : A) → Keeps (f a)) → Keeps (m >>= f)
    Keeps-bind km kf = record { at = λ s. Ends-bind (λ a. Own s) (km.at s) (λ a. (kf a).at s) }

    pub Returns-bind : Returns m → ((a : A) → Returns (f a)) → Returns (m >>= f)
    Returns-bind rm rf = record { at = λ s. Ends-bind (λ a. Own s) (rm.at s) (λ a. (rf a).at s) }

  pub Keeps-record :
      (event : ExecutionEvent) → Keeps (modify (λ w. record w { events = w.events ++ event ∷ [] }))
  unfolding modify
  Keeps-record event = record { at = λ s. record { at = λ w h. same_records s _ w refl h } }

  -- A change of the record by an operation of the store.
  changed :
      (s : ExecutionState) (w : World) (r : ExecutionRecord)
      → r.state ≡ s
      → Own s (record w { records = put request.execution_id r w.records })
  changed s w r e = record {
    own = r;
    found = get-put_self request.execution_id r w.records;
    state_eq = e;
  }

  pub transition-Ends :
      (s t : ExecutionState) (at : ℕ)
      → is_legal s t ≡ true
      → Ends (Own s) (on_records (transition request.execution_id t at)) (λ r. Own t) (λ e w. ⊥)
  unfolding on_records moved_record
  transition-Ends s t at l = record {
    at = λ w h.
        rw
          (transition-legal request.execution_id w.records h.own h.found t at
            (subst (λ k. is_legal k t ≡ true) (sym h.state_eq) l))
          (changed t w (moved_record h.own t at) refl);
  }

  pub add_attempt-Ends :
      (a : Attempt)
      → Ends
          (Own running)
          (on_records (add_attempt request.execution_id a))
          (λ r. Own running)
          (λ e w. ⊥)
  unfolding on_records tried_record
  add_attempt-Ends a = record {
    at = λ w h.
        rw
          (add_attempt-running request.execution_id w.records h.own h.found a
            (subst (λ k. is_running k ≡ true) (sym h.state_eq) refl))
          (changed running w (tried_record h.own a) h.state_eq);
  }
