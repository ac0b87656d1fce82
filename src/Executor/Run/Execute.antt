-- ===== src/Executor/Run/Execute.antt =====
-- packages/executor/src/executor.ts: execute, without a durable coordinator or inside its owner
-- context, and #validate.
use drive_guard.Prelude.{
  ℕ, String, Bool, true, false, not, ◌&&◌, ◌||◌, Option, none, some, str_eq, if◌then◌else◌,
}
use drive_guard.Prelude.Sets.{includes}
use drive_guard.Prelude.Text.{is_fingerprint}
use drive_guard.Exec.{Result, ok, err, pure, raise, require, gets, attempt, throw_if, ◌>>=◌, ◌>>◌}
use drive_guard.Json.{Value}
use drive_guard.Tools.{ToolDefinition}
use drive_guard.Policy.{formal_tool_names, forbidden_tool_names}
use drive_guard.Policy.Provenance.{is_issued_for, is_issued_for_execution, ExecutionBinding}
use drive_guard.Lifecycle.{same_risk}
use drive_guard.Lifecycle.Canonical.{FingerprintInput, create_action_fingerprint}
use drive_guard.Executor.{
  ExecutionState, created, running, rejected, failed, ErrorCode, execution_validation_error,
  execution_not_authorized, idempotency_conflict, executor_busy, internal_execution_error,
  ThrownKind, executor_fault, fault, ExecutionRecord, ExecutionRequest,
}
use drive_guard.Executor.Idempotency.{Acquisition, owner, duplicate, conflict, result_of}
use drive_guard.Executor.Idempotency
use drive_guard.Executor.Records.{create, transition, is_created}
use drive_guard.Executor.Failures.{safe_error}
use drive_guard.Executor.Run.{
  Env, Executing, ExecutionResult, World, execution_deduplicated, other_thrown, on_records,
  on_idempotency, succeeds, awaited, now, tell,
}
use drive_guard.Executor.Run.Finish.{finish_failed, rejection_result, reject, own_record}
use drive_guard.Executor.Run.Binding.{safe_id, policy_execution_binding, request_binding}
use drive_guard.Executor.Run.Owner.{is_low_risk, execute_owner}

-- The code of what a validation throws.
abbrev pub validation_code : ThrownKind → ErrorCode
validation_code (executor_fault code) = code
validation_code _ = execution_validation_error

abbrev pub is_accepted : Option Bool → Bool
is_accepted none = false
is_accepted (some b) = b

-- An original that has not ended is none that a duplicate can take over.
abbrev pub settled_status : ExecutionState → ExecutionState
settled_status created = failed
settled_status running = failed
settled_status state = state

abbrev pub is_rejected : ExecutionState → Bool
is_rejected rejected = true
is_rejected _ = false

abbrev pub or_else : Option ExecutionResult → ExecutionResult → ExecutionResult
or_else none r = r
or_else (some r) _ = r

module _ (env : Env) (request : ExecutionRequest) where
  abbrev pub is_own_definition : ToolDefinition → Bool
  is_own_definition d = str_eq d.name request.tool_name && same_risk d.risk_level request.risk_level

  abbrev pub own_definition : Option ToolDefinition → Option ToolDefinition
  own_definition none = none
  own_definition (some d) = if is_own_definition d then some d else none

  abbrev pub fingerprint_input : String → ℕ → FingerprintInput
  fingerprint_input snapshot_id version = record {
    tool_name = request.tool_name;
    validated_arguments = request.validated_arguments;
    session_id = request.session_id;
    user_id = request.user_id;
    vehicle_id = request.vehicle_id;
    context_snapshot_id = snapshot_id;
    context_version = version;
  }

  abbrev pub require_same : String → Executing (Unit {0})
  require_same fingerprint =
      throw_if (not (str_eq fingerprint request.action_fingerprint))
        (fault execution_not_authorized)

  -- The fingerprint of an R0 or R1 call; one that cannot be made is an error of another class.
  abbrev pub check_fingerprint : Option String → Option ℕ → Executing (Unit {0})
  check_fingerprint (some id) (some version) = do
    fingerprint ←
        require other_thrown (create_action_fingerprint env.js (fingerprint_input id version))
    require_same fingerprint
  check_fingerprint _ _ = raise (fault execution_not_authorized)

  abbrev pub is_issued : ToolDefinition → World → ExecutionBinding → Bool
  is_issued d w binding =
      is_issued_for_execution env.js w.issued request.policy_decision d request.validated_arguments
        binding

  abbrev pub check_issued : ToolDefinition → Executing (Unit {0})
  check_issued d = do
    issued ←
        gets
          (λ w. is_issued_for env.js w.issued request.policy_decision d request.validated_arguments)
    throw_if (not issued) (fault execution_not_authorized)
    binding ← require (fault execution_not_authorized) (policy_execution_binding request)
    bound ← gets (λ w. is_issued d w binding)
    throw_if (not bound) (fault execution_not_authorized)

  -- #validate. A createdAt that is no timestamp is no value of its type here.
  unfoldable pub validate : Executing ToolDefinition
  unfolding policy_execution_binding create_action_fingerprint includes
  validate = do
    throw_if
        (not (
          safe_id request.execution_id
          && safe_id request.tool_name
          && safe_id request.run_id
          && safe_id request.session_id
          && safe_id request.user_id
          && safe_id request.vehicle_id
          && safe_id request.trace_id
          && safe_id request.idempotency_key))
        (fault execution_validation_error)
    throw_if (not (is_fingerprint request.action_fingerprint)) (fault execution_validation_error)
    throw_if
        (not (includes formal_tool_names request.tool_name)
          || includes forbidden_tool_names request.tool_name)
        (fault execution_validation_error)
    definition ←
        require (fault execution_validation_error)
          (own_definition (env.definition_of request.tool_name))
    throw_if (not (is_accepted (definition.check request.validated_arguments)))
        (fault execution_validation_error)
    throw_if (not (env.clones (some request.validated_arguments)))
        (fault execution_validation_error)
    throw_if
        (not (str_eq request.policy_decision.fields.tool_name request.tool_name)
          || not (same_risk request.policy_decision.fields.risk_level request.risk_level))
        (fault execution_not_authorized)
    if is_low_risk request.risk_level
        then check_fingerprint request.context_snapshot_id request.context_version
        else pure tt
    if is_low_risk request.risk_level then check_issued definition else pure tt
    pure definition

  -- What a request that is not valid is answered with.
  abbrev pub invalid_result : ErrorCode → ℕ → ExecutionResult
  invalid_result code at = record {
    execution_id =
        if safe_id request.execution_id then request.execution_id else "invalid-execution";
    tool_name = if safe_id request.tool_name then request.tool_name else "unknown-tool";
    status = rejected;
    attempt_count = 0;
    deduplicated = false;
    started_at = at;
    completed_at = at;
    result = none;
    error = some (safe_error code);
    recovery = none;
  }

  -- #validationFailure
  abbrev pub validation_failure : ℕ → ExecutionResult
  validation_failure at = rejection_result env request execution_validation_error at at false

  abbrev pub answer_conflict : Option ExecutionRecord → ℕ → Executing ExecutionResult
  answer_conflict none at = do
    _ ← on_records (create request at)
    reject env request idempotency_conflict false
  answer_conflict (some r) at =
      pure (rejection_result env request idempotency_conflict r.created_at at false)

  abbrev pub transition_own : ExecutionState → ℕ → Executing (Unit {0})
  transition_own next at = on_records (transition request.execution_id next at) >>= λ _. pure tt

  abbrev pub settle_duplicate : ExecutionState → ℕ → Executing (Unit {0})
  settle_duplicate status at =
      if is_rejected status
      then transition_own rejected at
      else transition_own running at >> transition_own (settled_status status) at

  abbrev pub settle_created : Option ExecutionRecord → ExecutionState → ℕ → Executing (Unit {0})
  settle_created none status at = pure tt
  settle_created (some r) status at =
      if is_created r.state then settle_duplicate status at else pure tt

  -- #transitionDuplicate
  unfoldable pub transition_duplicate : ExecutionState → ℕ → Executing (Unit {0})
  unfolding on_records
  transition_duplicate status at = do
    found ← gets (own_record env request)
    settle_created found status at

  -- `await acquisition.result`
  unfoldable pub original_of : ℕ → Executing ExecutionResult
  unfolding awaited result_of
  original_of promise = do
    known ← gets (λ w. result_of promise w.idempotency.settled)
    awaited env (λ n. or_else known (env.original n promise))

  -- cloneResult of a result that is there
  abbrev pub copy_result : Option Value → Executing (Option Value)
  copy_result none = pure none
  copy_result (some v) = if env.clones (some v) then pure (some v) else raise other_thrown

  -- The answer to a replay of the very execution.
  abbrev pub replayed : ExecutionResult → Executing ExecutionResult
  replayed original = do
    copy ← copy_result original.result
    pure (record original { deduplicated = true; result = copy })

  -- The answer to another execution under the key.
  abbrev pub shared_result : ExecutionResult → ℕ → ℕ → Option Value → ExecutionResult
  shared_result original started_at completed_at result = record {
    execution_id = request.execution_id;
    tool_name = request.tool_name;
    status = settled_status original.status;
    attempt_count = 0;
    deduplicated = true;
    started_at = started_at;
    completed_at = completed_at;
    result = result;
    error = original.error;
    recovery = none;
  }

  abbrev pub undelivered_result : ℕ → ℕ → ExecutionResult
  undelivered_result started_at completed_at = record {
    execution_id = request.execution_id;
    tool_name = request.tool_name;
    status = failed;
    attempt_count = 0;
    deduplicated = true;
    started_at = started_at;
    completed_at = completed_at;
    result = none;
    error = some (safe_error internal_execution_error);
    recovery = none;
  }

  -- The record is there already.
  abbrev pub replay : ℕ → Executing ExecutionResult
  replay promise = do
    original ← original_of promise
    _ ← now env
    _ ← tell env request execution_deduplicated 0
    replayed original

  abbrev pub share : ℕ → ℕ → Executing ExecutionResult
  share promise at = do
    own ← on_records (create request at)
    original ← original_of promise
    completed_at ← now env
    told ← tell env request execution_deduplicated 0
    transition_duplicate (if told then original.status else failed) completed_at
    if told
        then (do
          copy ← copy_result original.result
          pure (shared_result original own.created_at completed_at copy))
        else pure (undelivered_result own.created_at completed_at)

  abbrev pub answer_duplicate : Option ExecutionRecord → ℕ → ℕ → Executing ExecutionResult
  answer_duplicate none promise at = share promise at
  answer_duplicate (some r) promise at = replay promise

  abbrev pub complete : ℕ → ExecutionResult → Executing ExecutionResult
  complete promise result = on_idempotency (λ s. (result, Idempotency.complete promise result s))

  -- The owner of the key, once the concurrency controller has answered.
  unfoldable pub run_owner : ToolDefinition → Bool → Executing ExecutionResult
  unfolding execute_owner reject
  run_owner definition admitted =
      if admitted
      then attempt (execute_owner env request definition)
          (λ e. finish_failed env request failed 0 internal_execution_error)
      else reject env request executor_busy true

  abbrev pub admit : ToolDefinition → ℕ → Executing ExecutionResult
  admit definition promise = do
    admitted ← awaited env env.admits
    result ← run_owner definition admitted
    complete promise result

  abbrev pub own : ToolDefinition → ℕ → ℕ → Executing ExecutionResult
  own definition promise at = do
    made ← succeeds (on_records (create request at))
    if made then admit definition promise else complete promise (validation_failure at)

  abbrev pub acquired : ToolDefinition → ℕ → Acquisition → Executing ExecutionResult
  acquired definition at (owner promise) = own definition promise at
  acquired definition at (duplicate promise) = do
    found ← gets (own_record env request)
    answer_duplicate found promise at
  acquired definition at conflict = do
    found ← gets (own_record env request)
    answer_conflict found at

  abbrev pub after_validation :
      ℕ → Result ErrorCode (ToolDefinition × String) → Executing ExecutionResult
  after_validation at (err code) = pure (invalid_result code at)
  after_validation at (ok (definition, binding)) = do
    acquisition ←
        on_idempotency
          (Idempotency.acquire request.idempotency_key request.action_fingerprint binding)
    acquired definition at acquisition

  -- The definition and the binding of the request, or the code of what is wrong with it.
  unfoldable pub validated : Executing (Result ErrorCode (ToolDefinition × String))
  unfolding validate request_binding
  validated =
      attempt
        (do
          definition ← validate
          binding ← require other_thrown (request_binding env.js request)
          pure (ok (definition, binding)))
        (λ error. pure (err (validation_code error.kind)))

  -- execute
  unfoldable pub execute : Executing ExecutionResult
  unfolding now validated run_owner
  execute = do at ← now env; outcome ← validated; after_validation at outcome
