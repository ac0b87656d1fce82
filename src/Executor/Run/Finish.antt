-- ===== src/Executor/Run/Finish.antt =====
-- packages/executor/src/executor.ts: how an execution ends (#reject, #rejectionResult, #finish and
-- the two endings after an event that was not delivered).
use drive_guard.Prelude.{ℕ, Bool, false, Option, none, some, if◌then◌else◌}
use drive_guard.Prelude.Dict.{get}
use drive_guard.Exec.{pure, gets, ◌>>=◌, ◌>>◌}
use drive_guard.Json.{Value}
use drive_guard.Tools.{ToolDefinition}
use drive_guard.Executor.{
  ExecutionState, failed, outcome_unknown, rejected, ErrorCode, internal_execution_error,
  unknown_outcome, Classification, ambiguous, retryable, non_retryable, ExecutionRecord,
  ExecutionRequest, SafeError,
}
use drive_guard.Executor.Records.{transition, is_running, is_created}
use drive_guard.Executor.Recovery.{RecoveryReceipt}
use drive_guard.Executor.Failures.{safe_error}
use drive_guard.Executor.Run.{Env, Executing, ExecutionResult, World, on_records, now}

abbrev pub is_record_running : Option ExecutionRecord → Bool
is_record_running none = false
is_record_running (some r) = is_running r.state

abbrev pub is_record_created : Option ExecutionRecord → Bool
is_record_created none = false
is_record_created (some r) = is_created r.state

abbrev created_at_or : ℕ → Option ExecutionRecord → ℕ
created_at_or at none = at
created_at_or at (some r) = r.created_at

module _ (env : Env) (request : ExecutionRequest) where
  -- The record of the request.
  abbrev pub own_record : World → Option ExecutionRecord
  own_record w = get request.execution_id w.records

  abbrev pub transition_if : Bool → ExecutionState → ℕ → Executing (Unit {0})
  transition_if b next at =
      if b then on_records (transition request.execution_id next at) >>= (λ _. pure tt) else pure tt

  -- #finish
  unfoldable pub finish :
      ExecutionState
      → ℕ
      → Option SafeError
      → Option Value
      → Option RecoveryReceipt
      → Executing ExecutionResult
  unfolding now on_records
  finish status attempts error result recovery = do
    at ← now env
    found ← gets own_record
    transition_if (is_record_running found) status at
    pure (record {
      execution_id = request.execution_id;
      tool_name = request.tool_name;
      status = status;
      attempt_count = attempts;
      deduplicated = false;
      started_at = created_at_or at found;
      completed_at = at;
      result = result;
      error = error;
      recovery = recovery;
    })

  -- #rejectionResult
  unfoldable pub rejection_result : ErrorCode → ℕ → ℕ → Bool → ExecutionResult
  rejection_result code started_at completed_at is_retryable = record {
    execution_id = request.execution_id;
    tool_name = request.tool_name;
    status = rejected;
    attempt_count = 0;
    deduplicated = false;
    started_at = started_at;
    completed_at = completed_at;
    result = none;
    error = some (record { code = code; is_retryable = is_retryable });
    recovery = none;
  }

  -- #reject
  unfoldable pub reject : ErrorCode → Bool → Executing ExecutionResult
  unfolding now on_records rejection_result
  reject code is_retryable = do
    at ← now env
    found ← gets own_record
    transition_if (is_record_created found) rejected at
    pure (rejection_result code (created_at_or at found) at is_retryable)

  -- An end without a result of the tool, with the code of an error.
  abbrev pub finish_failed : ExecutionState → ℕ → ErrorCode → Executing ExecutionResult
  finish_failed status attempts code = finish status attempts (some (safe_error code)) none none

  -- #finishAfterSuccessfulEffectEventFailure
  unfoldable pub finish_after_effect : ToolDefinition → ℕ → Executing ExecutionResult
  unfolding finish
  finish_after_effect definition attempts =
      if definition.side_effect
      then finish_failed outcome_unknown attempts unknown_outcome
      else finish_failed failed attempts internal_execution_error

  -- #finishAfterFailedAttemptEventFailure
  unfoldable pub finish_after_failure : Classification → ℕ → Executing ExecutionResult
  unfolding finish
  finish_after_failure ambiguous attempts = finish_failed outcome_unknown attempts unknown_outcome
  finish_after_failure retryable attempts = finish_failed failed attempts internal_execution_error
  finish_after_failure non_retryable attempts =
      finish_failed failed attempts internal_execution_error
