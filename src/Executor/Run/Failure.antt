-- ===== src/Executor/Run/Failure.antt =====
-- packages/executor/src/executor.ts: what #executeOwner does after an attempt that threw.
use drive_guard.Prelude.{
  ℕ, Bool, true, false, not, ◌&&◌, ◌-◌, Option, none, some, ◌∷◌, ltb, if◌then◌else◌, String,
}
use drive_guard.Exec.{pure, attempt, require, modify, ◌>>=◌, ◌>>◌}
use drive_guard.Json.{Value}
use drive_guard.Tools.{ToolDefinition}
use drive_guard.Executor.{
  succeeded, failed, outcome_unknown, retry_exhausted, ErrorCode, internal_execution_error,
  unknown_outcome, retries_exhausted, dependency_timeout, Classification, ambiguous, non_retryable,
  FailureType, AttemptOutcome, attempt_failed, attempt_timed_out, Thrown, ExecutionRequest,
}
use drive_guard.Executor.Circuit.{CircuitState, closed, opened, CircuitPermit, probing}
use drive_guard.Executor.Circuit
use drive_guard.Executor.Records.{add_attempt}
use drive_guard.Executor.Recovery.{
  OperationType, read, write, ReconciliationStatus, executed, not_executed, unknown, RecoveryAction,
  RecoveryStatus, recovered, degraded, unknown_recovery, safe_degradation, retry, RecoveryInput,
  RecoveryReceipt, decide, is_retry, is_retryable, should_retry, delay_for_retry,
}
use drive_guard.Executor.Failures.{ClassifiedFailure, classify_tool_failure, safe_error}
use drive_guard.Executor.Run.{
  Env, Executing, ExecutionResult, ReconciliationQuery, error_code, reconciliation_code, reconciled,
  execution_attempt_failed, circuit_opened, circuit_closed, execution_outcome_unknown,
  execution_reconciliation_started, execution_reconciliation_completed, execution_succeeded,
  execution_failed, execution_retry_scheduled, succeeds, on_records, on_circuits, other_thrown,
  outside, awaited, now, emit, tell, tell_if, tell_code, sleep, is_retry_safe,
}
use drive_guard.Executor.Run.Finish.{
  finish, finish_failed, finish_after_effect, finish_after_failure,
}

-- What a round of the loop of #executeOwner ends in: a result, or another round.
pub data Round : Type 0 where
  done : ExecutionResult → Round
  again : RecoveryReceipt → Round

abbrev pub finished : Executing ExecutionResult → Executing Round
finished m = m >>= λ r. pure (done r)

abbrev pub is_closed : CircuitState → Bool
is_closed closed = true
is_closed _ = false

abbrev pub is_opened : CircuitState → Bool
is_opened opened = true
is_opened _ = false

abbrev pub is_probing : CircuitPermit → Bool
is_probing probing = true
is_probing _ = false

abbrev is_timeout_code : ErrorCode → Bool
is_timeout_code dependency_timeout = true
is_timeout_code _ = false

abbrev pub is_ambiguous : Classification → Bool
is_ambiguous ambiguous = true
is_ambiguous _ = false

abbrev is_definite : Classification → Bool
is_definite non_retryable = true
is_definite _ = false

abbrev failed_outcome : ErrorCode → AttemptOutcome
failed_outcome code = if is_timeout_code code then attempt_timed_out else attempt_failed

abbrev operation_of : ToolDefinition → OperationType
operation_of d = if d.side_effect then write else read

abbrev status_of : ReconciliationStatus → RecoveryStatus
status_of executed = recovered
status_of unknown = unknown_recovery
status_of not_executed = degraded

abbrev pub is_executed : ReconciliationStatus → Bool
is_executed executed = true
is_executed _ = false

module _ (env : Env) (request : ExecutionRequest) (definition : ToolDefinition) (key : String) where
  -- What the circuit breaker is told; whether the circuit opened, and whether it closed.
  unfoldable pub report_failure : CircuitPermit → Classification → Executing (Bool × Bool)
  unfolding outside on_circuits
  report_failure permit c =
      if not (is_definite c)
      then (do
        ms ← outside env.now_ms
        change ← on_circuits (Circuit.failed env.failure_threshold ms key)
        pure (not (is_opened change.0) && is_opened change.1, false))
      else if is_probing permit
      then (do change ← on_circuits (Circuit.succeeded key); pure (false, not (is_closed change.0)))
      else pure (false, false)

  abbrev pub schedule_retry : ℕ → ErrorCode → Executing Bool
  schedule_retry number code =
      let delay_ms = delay_for_retry env.retry_policy number in
      succeeds (do
        emit env request execution_retry_scheduled number (some (error_code code)) (some delay_ms)
        sleep env delay_ms)

  abbrev query : ReconciliationQuery
  query = record {
    tool_name = request.tool_name;
    validated_arguments = request.validated_arguments;
    idempotency_key = request.idempotency_key;
  }

  abbrev pub Answer : Type 0
  Answer = ReconciliationStatus × Option Value

  abbrev pub ask : (ℕ → ReconciliationQuery → Option Answer) → ℕ → Executing Answer
  ask reconcile number = do
    emit env request execution_reconciliation_started number none none
    answer ← awaited env (λ n. reconcile n query)
    given ← require other_thrown answer
    modify (λ w. record w { acts = reconciled given.0 ∷ w.acts })
    emit env request execution_reconciliation_completed number (some (reconciliation_code given.0))
        none
    pure given

  abbrev pub reconcile_by : Option (ℕ → ReconciliationQuery → Option Answer) → ℕ → Executing Answer
  reconcile_by none number = pure (unknown, none)
  reconcile_by (some reconcile) number = attempt (ask reconcile number) (λ e. pure (unknown, none))

  unfoldable pub reconcile : ℕ → Executing Answer
  unfolding emit awaited
  reconcile number = reconcile_by env.reconciler number

  abbrev pub ambiguous_input : FailureType → ℕ → ReconciliationStatus → RecoveryInput
  ambiguous_input failure number status = record {
    operation_type = write;
    failure_type = failure;
    idempotency_hint = definition.idempotency_hint;
    attempt = number;
    max_attempts = env.retry_policy.max_attempts;
    reconciliation_status = some status;
  }

  abbrev receipt_of :
      OperationType
      → FailureType
      → RecoveryAction
      → RecoveryStatus
      → ℕ
      → Option ReconciliationStatus
      → RecoveryReceipt
  receipt_of operation failure action status number reconciliation = record {
    operation_type = operation;
    failure_type = failure;
    action = action;
    status = status;
    attempt_count = number;
    retry_count = number - 1;
    idempotency_key_reused = ltb 1 number;
    reconciliation_status = reconciliation;
  }

  -- The reconciler says that the side effect took place.
  unfoldable pub finish_executed : ℕ → Option Value → RecoveryReceipt → Executing Round
  unfolding emit finish finish_after_effect
  finish_executed number result receipt = do
    delivered ← tell env request execution_succeeded number
    finished (
        if delivered
        then finish env request succeeded number none result (some receipt)
        else finish_after_effect env request definition number)

  unfoldable pub retry_reconciled : ℕ → ErrorCode → RecoveryReceipt → Executing Round
  unfolding emit sleep finish delay_for_retry
  retry_reconciled number code receipt = do
    scheduled ← schedule_retry number code
    if scheduled
        then pure (again receipt)
        else finished (
            finish env request failed number (some (safe_error internal_execution_error)) none
              (some receipt))

  abbrev pub settle_ambiguous : ℕ → ClassifiedFailure → RecoveryAction → Answer → Executing Round
  settle_ambiguous number c action answer =
      let receipt =
        receipt_of write c.failure_type action (status_of answer.0) number (some answer.0) in
      if is_executed answer.0
      then finish_executed number answer.1 receipt
      else if is_retry action
      then retry_reconciled number c.code receipt
      else finished (
          finish env request outcome_unknown number (some (safe_error unknown_outcome)) none
            (some receipt))

  -- After an AMBIGUOUS_SIDE_EFFECT.
  unfoldable pub after_ambiguous : ℕ → ClassifiedFailure → Executing Round
  unfolding emit reconcile decide finish_executed retry_reconciled finish
  after_ambiguous number c = do
    _ ← tell_code env request execution_outcome_unknown number c.code
    answer ← reconcile number
    settle_ambiguous number c (decide (ambiguous_input c.failure_type number answer.0)).action
        answer

  -- No retry is left, or none is allowed.
  unfoldable pub give_up : ℕ → ClassifiedFailure → Executing Round
  unfolding emit finish
  give_up number c =
      let exhausted = is_retryable c.classification in
      let error = safe_error (if exhausted then retries_exhausted else c.code) in
      do
        _ ← tell_code env request execution_failed number error.code
        finished (
            finish env request (if exhausted then retry_exhausted else failed) number (some error)
              none
              (some (
                receipt_of (operation_of definition) c.failure_type safe_degradation degraded number
                  none)))

  unfoldable pub retry_later : ℕ → ClassifiedFailure → Executing Round
  unfolding emit sleep finish delay_for_retry
  retry_later number c = do
    scheduled ← schedule_retry number c.code
    if scheduled
        then pure (
            again (
              receipt_of (operation_of definition) c.failure_type retry unknown_recovery number
                none))
        else finished (finish_failed env request failed number internal_execution_error)

  unfoldable pub after_told : ℕ → ClassifiedFailure → Executing Round
  unfolding after_ambiguous should_retry give_up retry_later
  after_told number c =
      if is_ambiguous c.classification
      then after_ambiguous number c
      else if not (should_retry env.retry_policy c.classification number)
      then give_up number c
      else retry_later number c

  -- The catch clause of an attempt.
  unfoldable pub after_failure : ℕ → ℕ → CircuitPermit → Thrown → Executing Round
  unfolding now on_records classify_tool_failure report_failure emit finish_after_failure finish
      after_told
  after_failure number started_at permit error =
      let c = classify_tool_failure error definition.side_effect (is_retry_safe definition) in
      do
        completed_at ← now env
        _ ← on_records (
            add_attempt request.execution_id (record {
              number = number;
              started_at = started_at;
              completed_at = completed_at;
              outcome = failed_outcome c.code;
              error_code = some c.code;
            }))
        circuit ← report_failure permit c.classification
        told ← tell_code env request execution_attempt_failed number c.code
        if not told
            then finished (finish_after_failure env request c.classification number)
            else (do
              told_opened ← tell_if env request circuit.0 circuit_opened number
              if not told_opened
                  then finished (finish_after_failure env request c.classification number)
                  else (do
                    told_closed ← tell_if env request circuit.1 circuit_closed number
                    if not told_closed
                        then finished (finish_failed env request failed number c.code)
                        else after_told number c))
