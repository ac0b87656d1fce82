-- ===== src/Executor.antt =====
-- packages/executor/src: the data of an execution (types.ts), and the parts of the executor, each in
-- a child module. The message of an error is fixed by its code, so it is left out.
pub mod Circuit
pub mod Records
pub mod Recovery
pub mod Failures
pub mod Idempotency
pub mod Concurrency
pub mod Run
use drive_guard.Prelude.{ℕ, String, Bool, Option, List}
use drive_guard.Json.{Value}
use drive_guard.Policy.{RiskLevel}
use drive_guard.Policy.Provenance.{DecisionObject}
use drive_guard.Lifecycle.{Fault}

pub data ExecutionState : Type 0 where
  created running succeeded failed retry_exhausted outcome_unknown rejected : ExecutionState

-- EXECUTION_ERROR_CODES
pub data ErrorCode : Type 0 where
  execution_validation_error execution_not_authorized authorization_expired
        authorization_already_used authorization_mismatch idempotency_conflict dependency_timeout
        dependency_unavailable executor_busy circuit_open retries_exhausted unknown_outcome
        tool_execution_failed internal_execution_error :
      ErrorCode

pub data Classification : Type 0 where
  retryable non_retryable ambiguous : Classification

-- RECOVERY_FAILURE_TYPES (recovery.ts), and ToolFailureType of packages/tools/src/contracts.ts
pub data FailureType : Type 0 where
  timeout http_503 connection_abort definite_failure ambiguous_side_effect duplicate_request :
      FailureType

-- TOOL_ERROR_CODES of packages/tools/src/contracts.ts
pub data ToolErrorCode : Type 0 where
  tool_validation_error tool_capability_unavailable tool_dependency_unavailable
        tool_dependency_timeout tool_response_invalid tool_resource_not_found tool_conflict :
      ToolErrorCode

-- The class of what is thrown.
pub data ThrownKind : Type 0 where
  executor_fault : ErrorCode → ThrownKind
  tool_error : ToolErrorCode → ThrownKind
  action_error : Fault → ThrownKind
  other_error : ThrownKind

-- Reflect.get(error, "failureType"): undefined, one of the types, or anything else
pub data FailureProperty : Type 0 where
  absent unlisted : FailureProperty
  listed : FailureType → FailureProperty

-- What a `catch` receives.
pub record Thrown : Type 0 where
  pub kind : ThrownKind
  pub failure_type : FailureProperty

-- new ExecutorFault(code, …)
abbrev pub fault : ErrorCode → Thrown
fault code = record { kind = executor_fault code; failure_type = absent }

pub data AttemptOutcome : Type 0 where
  attempt_succeeded attempt_failed attempt_timed_out : AttemptOutcome

-- ExecutionAttempt
pub record Attempt : Type 0 where
  pub number : ℕ
  pub started_at : ℕ
  pub completed_at : ℕ
  pub outcome : AttemptOutcome
  pub error_code : Option ErrorCode

-- ExecutionStateTransition
pub record StateChange : Type 0 where
  pub from : Option ExecutionState
  pub to : ExecutionState
  pub transitioned_at : ℕ

pub record ExecutionRecord : Type 0 where
  pub execution_id : String
  pub tool_name : String
  pub action_fingerprint : String
  pub idempotency_key : String
  pub state : ExecutionState
  pub attempts : List Attempt
  pub state_history : List StateChange
  pub created_at : ℕ
  pub updated_at : ℕ

pub record ExecutionRequest : Type 0 where
  pub execution_id : String
  pub tool_name : String
  pub validated_arguments : Value
  pub action_fingerprint : String
  pub run_id : String
  pub session_id : String
  pub user_id : String
  pub vehicle_id : String
  pub trace_id : String
  pub risk_level : RiskLevel
  pub policy_decision : DecisionObject
  pub action_id : Option String
  pub authorization_id : Option String
  pub context_snapshot_id : Option String
  pub context_version : Option ℕ
  pub idempotency_key : String
  pub created_at : ℕ

-- SafeExecutionError
pub record SafeError : Type 0 where
  pub code : ErrorCode
  pub is_retryable : Bool
