-- ===== src/Executor/Recovery.antt =====
-- packages/executor/src/recovery.ts: RecoveryManager, and packages/executor/src/retry.ts:
-- RetryPolicy.
pub mod Decisions
pub mod Reads
use drive_guard.Prelude.{
  ℕ, suc, zero, ◌-◌, Bool, true, false, ◌&&◌, Option, none, some, List, [], ◌∷◌, length, min, ltb,
  if◌then◌else◌,
}
use drive_guard.Exec.{Result, ok, err}
use drive_guard.Tools.{IdempotencyHint, read_only, idempotent}
use drive_guard.Executor.{
  Classification, retryable, FailureType, timeout, http_503, connection_abort, definite_failure,
  ambiguous_side_effect, duplicate_request, tool_dependency_timeout, tool_dependency_unavailable,
  ThrownKind, tool_error, FailureProperty, listed, Thrown,
}

pub data OperationType : Type 0 where
  read write : OperationType

pub data ReconciliationStatus : Type 0 where
  executed not_executed unknown : ReconciliationStatus

pub data RecoveryAction : Type 0 where
  retry reconcile safe_degradation stop : RecoveryAction

pub data RecoveryStatus : Type 0 where
  recovered degraded unknown_recovery : RecoveryStatus

pub data RecoveryReason : Type 0 where
  read_transient_retry read_retry_exhausted write_definite_safe_retry write_retry_not_safe
        ambiguous_write_requires_reconciliation reconciled_executed reconciled_not_executed_retry
        reconciliation_unknown :
      RecoveryReason

-- RecoveryDecisionInput
pub record RecoveryInput : Type 0 where
  pub operation_type : OperationType
  pub failure_type : FailureType
  pub idempotency_hint : IdempotencyHint
  pub attempt : ℕ
  pub max_attempts : ℕ
  pub reconciliation_status : Option ReconciliationStatus

pub record RecoveryDecision : Type 0 where
  pub action : RecoveryAction
  pub reason : RecoveryReason

pub record RecoveryReceipt : Type 0 where
  pub operation_type : OperationType
  pub failure_type : FailureType
  pub action : RecoveryAction
  pub status : RecoveryStatus
  pub attempt_count : ℕ
  pub retry_count : ℕ
  pub idempotency_key_reused : Bool
  pub reconciliation_status : Option ReconciliationStatus

abbrev by_code : ThrownKind → FailureType
by_code (tool_error tool_dependency_timeout) = timeout
by_code (tool_error tool_dependency_unavailable) = connection_abort
by_code _ = definite_failure

abbrev failure_or : FailureProperty → FailureType → FailureType
failure_or (listed t) u = t
failure_or _ u = u

-- recoveryFailureType
unfoldable pub recovery_failure_type : Thrown → FailureType
recovery_failure_type e = failure_or e.failure_type (by_code e.kind)

abbrev pub is_transient_read : FailureType → Bool
is_transient_read timeout = true
is_transient_read http_503 = true
is_transient_read connection_abort = true
is_transient_read duplicate_request = true
is_transient_read _ = false

abbrev pub is_ambiguous_write : FailureType → Bool
is_ambiguous_write ambiguous_side_effect = true
is_ambiguous_write timeout = true
is_ambiguous_write connection_abort = true
is_ambiguous_write _ = false

abbrev is_definite_transient : FailureType → Bool
is_definite_transient http_503 = true
is_definite_transient duplicate_request = true
is_definite_transient _ = false

abbrev pub is_idempotent : IdempotencyHint → Bool
is_idempotent idempotent = true
is_idempotent _ = false

abbrev decide_reconciled : RecoveryInput → Option ReconciliationStatus → RecoveryDecision
decide_reconciled i none = record {
  action = reconcile;
  reason = ambiguous_write_requires_reconciliation;
}
decide_reconciled i (some executed) = record { action = stop; reason = reconciled_executed }
decide_reconciled i (some not_executed) =
    if is_idempotent i.idempotency_hint && ltb i.attempt i.max_attempts
    then record { action = retry; reason = reconciled_not_executed_retry }
    else record { action = stop; reason = reconciliation_unknown }
decide_reconciled i (some unknown) = record { action = stop; reason = reconciliation_unknown }

abbrev decide_for : RecoveryInput → OperationType → RecoveryDecision
decide_for i read =
    if is_transient_read i.failure_type && ltb i.attempt i.max_attempts
    then record { action = retry; reason = read_transient_retry }
    else record { action = safe_degradation; reason = read_retry_exhausted }
decide_for i write =
    if is_ambiguous_write i.failure_type
    then decide_reconciled i i.reconciliation_status
    else if is_definite_transient i.failure_type
        && is_idempotent i.idempotency_hint
        && ltb i.attempt i.max_attempts
    then record { action = retry; reason = write_definite_safe_retry }
    else record { action = safe_degradation; reason = write_retry_not_safe }

-- decide
unfoldable pub decide : RecoveryInput → RecoveryDecision
decide i = decide_for i i.operation_type

abbrev nth_or_zero : List ℕ → ℕ → ℕ
nth_or_zero [] n = 0
nth_or_zero (x ∷ xs) zero = x
nth_or_zero (x ∷ xs) (suc n) = nth_or_zero xs n

-- The entry of a list of delays for the retry after an attempt; past the end it is the last.
unfoldable pub delay_after : List ℕ → ℕ → ℕ
delay_after delays attempt = nth_or_zero delays (min (attempt - 1) (length delays - 1))

-- RetryPolicy
pub record RetryPolicy : Type 0 where
  pub max_attempts : ℕ
  pub backoff_ms : List ℕ

abbrev pub is_retryable : Classification → Bool
is_retryable retryable = true
is_retryable _ = false

-- shouldRetry
unfoldable pub should_retry : RetryPolicy → Classification → ℕ → Bool
should_retry policy c attempt = is_retryable c && ltb attempt policy.max_attempts

-- delayForRetry
unfoldable pub delay_for_retry : RetryPolicy → ℕ → ℕ
unfolding delay_after
delay_for_retry policy attempt = delay_after policy.backoff_ms attempt

abbrev pub is_retry : RecoveryAction → Bool
is_retry retry = true
is_retry _ = false

abbrev exhausted : FailureType → ℕ → RecoveryReceipt
exhausted failure attempts = record {
  operation_type = read;
  failure_type = failure;
  action = safe_degradation;
  status = degraded;
  attempt_count = attempts;
  retry_count = attempts - 1;
  idempotency_key_reused = ltb 1 attempts;
  reconciliation_status = none;
}

module _ {A : Type 0} (max_attempts : ℕ) (delays : List ℕ) (operation : ℕ → Result Thrown A) where
  abbrev read_input : FailureType → ℕ → RecoveryInput
  read_input failure attempt = record {
    operation_type = read;
    failure_type = failure;
    idempotency_hint = read_only;
    attempt = attempt;
    max_attempts = max_attempts;
    reconciliation_status = none;
  }

  -- The loop of executeRead, with `left` rounds left; `operation n` is what the n-th call of the
  -- operation does. The result comes with the number of the calls that were made, and with the
  -- delays that were slept, the latest first.
  unfoldable pub read_loop :
      ℕ → ℕ → FailureType → ℕ → List ℕ → Result RecoveryReceipt A × ℕ × List ℕ
  read_loop zero attempt last calls slept = (err (exhausted last max_attempts), calls, slept)
  read_loop (suc left) attempt last calls slept = elim (operation attempt) [
    | ok a ↦ (ok a, suc calls, slept)
    | err e ↦ elim (is_retry (decide (read_input (recovery_failure_type e) attempt)).action) [
      | true ↦
          read_loop left (suc attempt) (recovery_failure_type e) (suc calls)
            (delay_after delays attempt ∷ slept)
      | false ↦ (err (exhausted (recovery_failure_type e) attempt), suc calls, slept)
    ]
  ]

  -- executeRead; an error is RecoveryExhaustedError with its receipt.
  unfoldable pub execute_read : Result RecoveryReceipt A × ℕ × List ℕ
  unfolding read_loop
  execute_read = read_loop max_attempts 1 definite_failure 0 []
