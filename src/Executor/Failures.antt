-- ===== src/Executor/Failures.antt =====
-- packages/executor/src/errors.ts.
use drive_guard.Prelude.{Bool, true, false, not, ◌&&◌, ◌||◌, if◌then◌else◌}
use drive_guard.Lifecycle
use drive_guard.Executor.{
  ErrorCode, execution_not_authorized, authorization_expired, authorization_already_used,
  authorization_mismatch, dependency_timeout, dependency_unavailable, tool_execution_failed,
  Classification, retryable, non_retryable, ambiguous, FailureType, timeout, connection_abort,
  ambiguous_side_effect, tool_dependency_timeout, tool_dependency_unavailable, ThrownKind,
  executor_fault, tool_error, action_error, FailureProperty, absent, Thrown, SafeError,
}
use drive_guard.Executor.Recovery.{recovery_failure_type}

-- safeExecutionError
abbrev pub safe_error : ErrorCode → SafeError
safe_error code = record { code = code; is_retryable = false }

abbrev code_of : ThrownKind → ErrorCode
code_of (action_error Lifecycle.authorization_expired) = authorization_expired
code_of (action_error Lifecycle.authorization_already_used) = authorization_already_used
code_of (action_error Lifecycle.authorization_mismatch) = authorization_mismatch
code_of _ = execution_not_authorized

-- authorizationErrorCode
unfoldable pub authorization_error_code : Thrown → ErrorCode
authorization_error_code e = code_of e.kind

pub record ClassifiedFailure : Type 0 where
  pub classification : Classification
  pub code : ErrorCode
  pub failure_type : FailureType

abbrev pub failure_code : ThrownKind → ErrorCode
failure_code (executor_fault code) = code
failure_code (tool_error tool_dependency_timeout) = dependency_timeout
failure_code (tool_error tool_dependency_unavailable) = dependency_unavailable
failure_code _ = tool_execution_failed

abbrev pub is_dependency_code : ErrorCode → Bool
is_dependency_code dependency_timeout = true
is_dependency_code dependency_unavailable = true
is_dependency_code _ = false

abbrev has_failure_type : FailureProperty → Bool
has_failure_type absent = false
has_failure_type _ = true

abbrev is_ambiguous_type : FailureType → Bool
is_ambiguous_type timeout = true
is_ambiguous_type connection_abort = true
is_ambiguous_type ambiguous_side_effect = true
is_ambiguous_type _ = false

abbrev classify : Thrown → Bool → Bool → Classification
classify e side_effect retry_safe =
    let explicit = has_failure_type e.failure_type in
    let explicitly_ambiguous = explicit && is_ambiguous_type (recovery_failure_type e) in
    if not (is_dependency_code (failure_code e.kind))
    then non_retryable
    else if side_effect && (explicitly_ambiguous || (not explicit && not retry_safe))
    then ambiguous
    else if side_effect && not retry_safe
    then non_retryable
    else retryable

-- classifyToolFailure
unfoldable pub classify_tool_failure : Thrown → Bool → Bool → ClassifiedFailure
unfolding recovery_failure_type
classify_tool_failure e side_effect retry_safe = record {
  classification = classify e side_effect retry_safe;
  code = failure_code e.kind;
  failure_type = recovery_failure_type e;
}
