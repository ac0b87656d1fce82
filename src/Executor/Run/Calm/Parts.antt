-- ===== src/Executor/Run/Calm/Parts.antt =====
-- The parts of executor.ts that are calm: events, timestamps, changes of a record, and the ends.
use drive_guard.Prelude.{
  ℕ, Bool, true, false, Option, Option-cases, inl, inr, ◌++◌, [], ◌∷◌, refl, arith, String,
}
use drive_guard.Prelude.Dict.{get}
use drive_guard.Exec.{pure, ◌>>=◌, modify, throw_if}
use drive_guard.Json.{Value}
use drive_guard.Context.Time.{to_utc_timestamp}
use drive_guard.Tools.{ToolDefinition}
use drive_guard.Executor.{
  ExecutionState, ErrorCode, Thrown, Attempt, ExecutionRequest, SafeError, Classification,
  ambiguous, retryable, non_retryable,
}
use drive_guard.Executor.Records.{create, require_execution, transition, add_attempt}
use drive_guard.Executor.Recovery.{RecoveryReceipt, delay_for_retry}
use drive_guard.Executor.Circuit.{CircuitPermit, refused, allowed, probing}
use drive_guard.Executor.Circuit
use drive_guard.Executor.Run.{
  Env, ExecutionEvent, EventType, EventCode, other_thrown, outside, on_circuits, now, emit, deliver,
  sleep,
}
use drive_guard.Executor.Run.Finish.{finish, reject, transition_if}
use drive_guard.Executor.Run.Failure.{report_failure, schedule_retry}
use drive_guard.Executor.Run.Calm.{
  IsCalm, IsOwn, IsOwnStore, IsCalm-pure, IsCalm-raise, IsCalm-gets, IsCalm-require, IsCalm-outside,
  IsCalm-on_circuits, IsCalm-on_records, IsCalm-awaited, IsCalm-if, IsCalm-succeeds, IsCalm-bind,
}

pub transition-IsOwnStore :
    (id : String) (next : ExecutionState) (at : ℕ) → IsOwnStore (transition id next at)
unfolding transition require_execution ◌>>=◌ modify throw_if
transition-IsOwnStore id next at = record {
  throws = λ s e h. elim (Option-cases (get id s)) [
    | inl n ↦ ground (arith, n)
    | inr (r, f) ↦ ground (arith, f)
  ];
}

pub add_attempt-IsOwnStore : (id : String) (a : Attempt) → IsOwnStore (add_attempt id a)
unfolding add_attempt require_execution ◌>>=◌ modify throw_if
add_attempt-IsOwnStore id a = record {
  throws = λ s e h. elim (Option-cases (get id s)) [
    | inl n ↦ ground (arith, n)
    | inr (r, f) ↦ ground (arith, f)
  ];
}

pub IsCalm-modify_events :
    (event : ExecutionEvent) → IsCalm (modify (λ w. record w { events = w.events ++ event ∷ [] }))
unfolding modify
IsCalm-modify_events event = record { quiet = λ w. refl; own = λ w e h. absurd (ground arith) }

module _ (env : Env) where
  pub IsCalm-now : IsCalm (now env)
  unfolding now
  IsCalm-now =
      IsCalm-bind _ _ (IsCalm-outside env.now_ms)
        (λ ms. IsCalm-require other_thrown (to_utc_timestamp ms) refl)

  IsCalm-deliver : (b : Bool) (event : ExecutionEvent) → IsCalm (deliver env b event)
  IsCalm-deliver true event = IsCalm-modify_events event
  IsCalm-deliver false event = IsCalm-raise _ refl

  pub IsCalm-emit :
      (request : ExecutionRequest) (event_type : EventType) (number : ℕ) (code : Option EventCode)
      (delay_ms : Option ℕ)
      → IsCalm (emit env request event_type number code delay_ms)
  unfolding emit
  IsCalm-emit request event_type number code delay_ms =
      IsCalm-bind _ _ IsCalm-now
        (λ at. IsCalm-bind _ _ (IsCalm-awaited env _) (λ b. IsCalm-deliver b _))

  pub IsCalm-sleep : (delay_ms : ℕ) → IsCalm (sleep env delay_ms)
  unfolding sleep
  IsCalm-sleep delay_ms =
      IsCalm-bind _ _ (IsCalm-awaited env _)
        (λ b. IsCalm-if b (IsCalm-pure tt) (IsCalm-raise _ refl))

  pub IsCalm-schedule_retry :
      (request : ExecutionRequest) (definition : ToolDefinition) (key : String) (number : ℕ)
      (code : ErrorCode)
      → IsCalm (schedule_retry env request definition key number code)
  IsCalm-schedule_retry request definition key number code = IsCalm-succeeds _ (
      IsCalm-bind _ _ (IsCalm-emit request _ number _ _)
        (λ _. IsCalm-sleep (delay_for_retry env.retry_policy number)))

  IsCalm-told_breaker :
      {A : Type 0} (key : String) (f : Circuit.Change → A)
      → IsCalm (do
        ms ← outside env.now_ms
        change ← on_circuits (Circuit.failed env.failure_threshold ms key)
        pure (f change))
  IsCalm-told_breaker key f = IsCalm-bind _ _ (IsCalm-outside env.now_ms) (λ ms.
      IsCalm-bind _ _ (IsCalm-on_circuits (Circuit.failed env.failure_threshold ms key))
        (λ change. IsCalm-pure (f change)))

  pub IsCalm-report_failure :
      (request : ExecutionRequest) (definition : ToolDefinition) (key : String)
      (permit : CircuitPermit) (c : Classification)
      → IsCalm (report_failure env request definition key permit c)
  unfolding report_failure
  IsCalm-report_failure request definition key permit retryable = IsCalm-told_breaker key _
  IsCalm-report_failure request definition key permit ambiguous = IsCalm-told_breaker key _
  IsCalm-report_failure request definition key refused non_retryable = IsCalm-pure (false, false)
  IsCalm-report_failure request definition key allowed non_retryable = IsCalm-pure (false, false)
  IsCalm-report_failure request definition key probing non_retryable =
      IsCalm-bind _ _ (IsCalm-on_circuits (Circuit.succeeded key)) (λ change. IsCalm-pure _)

  module _ (request : ExecutionRequest) where
    pub IsCalm-transition_if :
        (b : Bool) (next : ExecutionState) (at : ℕ) → IsCalm (transition_if env request b next at)
    IsCalm-transition_if true next at =
        IsCalm-bind _ _ (IsCalm-on_records _ (transition-IsOwnStore request.execution_id next at))
          (λ r. IsCalm-pure tt)
    IsCalm-transition_if false next at = IsCalm-pure tt

    pub IsCalm-finish :
        (status : ExecutionState) (attempts : ℕ) (error : Option SafeError) (result : Option Value)
        (recovery : Option RecoveryReceipt)
        → IsCalm (finish env request status attempts error result recovery)
    unfolding finish
    IsCalm-finish status attempts error result recovery = IsCalm-bind _ _ IsCalm-now (λ at.
        IsCalm-bind _ _ (IsCalm-gets _)
          (λ found. IsCalm-bind _ _ (IsCalm-transition_if _ status at) (λ _. IsCalm-pure _)))

    pub IsCalm-reject :
        (code : ErrorCode) (is_retryable : Bool) → IsCalm (reject env request code is_retryable)
    unfolding reject
    IsCalm-reject code is_retryable = IsCalm-bind _ _ IsCalm-now (λ at.
        IsCalm-bind _ _ (IsCalm-gets _)
          (λ found. IsCalm-bind _ _ (IsCalm-transition_if _ _ at) (λ _. IsCalm-pure _)))

pub create-IsOwnStore : (request : ExecutionRequest) (at : ℕ) → IsOwnStore (create request at)
unfolding create ◌>>=◌ modify throw_if
create-IsOwnStore request at = record {
  throws = λ s e h. elim (Option-cases (get request.execution_id s)) [
    | inl n ↦ absurd (ground (arith, n))
    | inr (r, f) ↦ ground (arith, f)
  ];
}

pub IsCalm-throw_if : (b : Bool) (e : Thrown) → IsOwn e → IsCalm (throw_if b e)
unfolding throw_if
IsCalm-throw_if true e o = IsCalm-raise e o
IsCalm-throw_if false e o = IsCalm-pure tt
