-- ===== src/Executor/Run/Attempts.antt =====
-- packages/executor/src/executor.ts: the loop of #executeOwner over the attempts.
use drive_guard.Prelude.{ℕ, zero, suc, ◌-◌, not, Option, none, some, ◌∷◌, if◌then◌else◌, String}
use drive_guard.Exec.{pure, raise, attempt, modify, ◌>>=◌, ◌>>◌}
use drive_guard.Json.{Value}
use drive_guard.Tools.{ToolDefinition}
use drive_guard.Executor.{
  succeeded, failed, retry_exhausted, internal_execution_error, circuit_open, retries_exhausted,
  attempt_succeeded, ExecutionRequest,
}
use drive_guard.Executor.Circuit.{CircuitPermit, refused, allowed, probing}
use drive_guard.Executor.Circuit
use drive_guard.Executor.Records.{add_attempt}
use drive_guard.Executor.Recovery.{recovered, RecoveryReceipt}
use drive_guard.Executor.Run.{
  Env, Executing, ExecutionResult, ToolCall, called, circuit_closed, circuit_half_open,
  execution_succeeded, execution_attempt_started, on_records, on_circuits, other_thrown, outside,
  awaited, returned, now, emit, tell, tell_if, circuit_key,
}
use drive_guard.Executor.Run.Finish.{finish, finish_failed, finish_after_effect}
use drive_guard.Executor.Run.Failure.{
  Round, done, again, finished, is_closed, is_probing, after_failure,
}

abbrev recovered_receipt : ℕ → Option RecoveryReceipt → Option RecoveryReceipt
recovered_receipt number none = none
recovered_receipt number (some r) =
    some (record r { status = recovered; attempt_count = number; retry_count = number - 1 })

module _ (env : Env) (request : ExecutionRequest) (definition : ToolDefinition) (key : String) where
  abbrev pub tool_call : ℕ → ToolCall
  tool_call number = record {
    definition = definition;
    validated_arguments = request.validated_arguments;
    attempt = number;
    idempotency_key = request.idempotency_key;
  }

  -- timeoutController.run over definition.execute
  unfoldable pub call_tool : ℕ → Executing (Option Value)
  unfolding awaited returned
  call_tool number = do
    answer ← awaited env (λ n. env.tool n (tool_call number))
    modify (λ w. record w { acts = called (tool_call number) answer ∷ w.acts })
    returned answer

  -- cloneResult
  unfoldable pub clone_result : Option Value → Executing (Option Value)
  clone_result value = if env.clones value then pure value else raise other_thrown

  -- The try clause of an attempt, once the tool has returned.
  unfoldable pub after_value : ℕ → ℕ → Option RecoveryReceipt → Option Value → Executing Round
  unfolding now on_records on_circuits emit finish finish_after_effect clone_result
  after_value number started_at receipt value = do
    completed_at ← now env
    _ ← on_records (
        add_attempt request.execution_id (record {
          number = number;
          started_at = started_at;
          completed_at = completed_at;
          outcome = attempt_succeeded;
          error_code = none;
        }))
    change ← on_circuits (Circuit.succeeded key)
    told_closed ← tell_if env request (not (is_closed change.0)) circuit_closed number
    if not told_closed then finished (finish_after_effect env request definition number) else (do
      told ← tell env request execution_succeeded number
      if not told then finished (finish_after_effect env request definition number) else (do
        copy ← clone_result value
        finished
            (finish env request succeeded number none copy (recovered_receipt number receipt))))

  -- The try statement of an attempt.
  unfoldable pub run_attempt : ℕ → ℕ → CircuitPermit → Option RecoveryReceipt → Executing Round
  unfolding call_tool after_value after_failure
  run_attempt number started_at permit receipt =
      attempt (call_tool number >>= (λ value. after_value number started_at receipt value))
        (λ error. after_failure env request definition key number started_at permit error)

  unfoldable pub fail_probe : Executing (Unit {0})
  unfolding outside on_circuits
  fail_probe = do
    ms ← outside env.now_ms
    _ ← on_circuits (Circuit.failed env.failure_threshold ms key)
    pure tt

  unfoldable pub start_attempt : ℕ → CircuitPermit → Option RecoveryReceipt → Executing Round
  unfolding now emit fail_probe finish run_attempt
  start_attempt number permit receipt = do
    started_at ← now env
    told ← tell env request execution_attempt_started number
    if told then run_attempt number started_at permit receipt else (do
      if is_probing permit then fail_probe else pure tt
      finished (finish_failed env request failed (number - 1) internal_execution_error))

  abbrev pub with_permit : ℕ → Option RecoveryReceipt → CircuitPermit → Executing Round
  with_permit number receipt refused =
      finished (finish_failed env request failed (number - 1) circuit_open)
  with_permit number receipt allowed = start_attempt number allowed receipt
  with_permit number receipt probing = do
    told ← tell env request circuit_half_open number
    if told then start_attempt number probing receipt else (do
      fail_probe
      finished (finish_failed env request failed (number - 1) internal_execution_error))

  -- The body of the loop.
  unfoldable pub round : ℕ → Option RecoveryReceipt → Executing Round
  unfolding outside on_circuits start_attempt finish emit fail_probe
  round number receipt = do
    ms ← outside env.now_ms
    permit ← on_circuits (Circuit.acquire env.cooldown_ms ms key)
    with_permit number receipt permit

  -- What the loop does after a round.
  abbrev pub go_on :
      (RecoveryReceipt → Executing ExecutionResult) → Round → Executing ExecutionResult
  go_on continue (done result) = pure result
  go_on continue (again receipt) = continue receipt

  -- The loop, with `left` rounds left.
  unfoldable pub rounds : ℕ → ℕ → Option RecoveryReceipt → Executing ExecutionResult
  unfolding round finish
  rounds zero number receipt =
      finish_failed env request retry_exhausted env.retry_policy.max_attempts retries_exhausted
  rounds (suc left) number receipt = do
    outcome ← round number receipt
    go_on (λ next. rounds left (suc number) (some next)) outcome

unfoldable pub run_rounds : Env → ExecutionRequest → ToolDefinition → Executing ExecutionResult
unfolding rounds circuit_key
run_rounds env request definition =
    rounds env request definition (circuit_key env.js definition) env.retry_policy.max_attempts 1
      none
