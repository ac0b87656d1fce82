-- ===== src/Executor/Run/Owner.antt =====
-- packages/executor/src/executor.ts: #executeOwner, which is authorized, then runs the attempts.
use drive_guard.Prelude.{ℕ, String, Bool, true, false, ◌||◌, Option, none, some, if◌then◌else◌}
use drive_guard.Exec.{require, ◌>>=◌}
use drive_guard.Tools.{ToolDefinition}
use drive_guard.Policy.{RiskLevel, is_r0, is_r1, DecisionType, allow, require_confirmation}
use drive_guard.Policy.Provenance.{consume}
use drive_guard.Lifecycle.Consumption.{ConsumeCommand}
use drive_guard.Executor.{
  running, failed, execution_not_authorized, internal_execution_error, Thrown, fault,
  ExecutionRequest,
}
use drive_guard.Executor.Records.{transition}
use drive_guard.Executor.Failures.{authorization_error_code}
use drive_guard.Executor.Run.{
  Env, Executing, ExecutionResult, authorization_consumed, execution_started, on_records, on_issued,
  awaited, now, emit, tell,
}
use drive_guard.Executor.Run.Finish.{finish, finish_failed, reject}
use drive_guard.Executor.Run.Binding.{policy_execution_binding}
use drive_guard.Executor.Run.Attempts.{run_rounds}

abbrev pub is_allow : DecisionType → Bool
is_allow allow = true
is_allow _ = false

abbrev is_require_confirmation : DecisionType → Bool
is_require_confirmation require_confirmation = true
is_require_confirmation _ = false

-- R0 or R1
abbrev pub is_low_risk : RiskLevel → Bool
is_low_risk risk = is_r0 risk || is_r1 risk

module _ (env : Env) (request : ExecutionRequest) (definition : ToolDefinition) where
  abbrev command_with :
      Option String → Option String → Option String → Option ℕ → Option ConsumeCommand
  command_with (some action_id) (some authorization_id) (some snapshot_id) (some version) =
      some (record {
        authorization_id = authorization_id;
        action_id = action_id;
        action_fingerprint = request.action_fingerprint;
        tool_name = definition.name;
        session_id = request.session_id;
        user_id = request.user_id;
        vehicle_id = request.vehicle_id;
        context_snapshot_id = snapshot_id;
        context_version = version;
        validated_arguments = request.validated_arguments;
      })
  command_with _ _ _ _ = none

  -- The command to consume the authorization, if the request has what it takes.
  abbrev pub consume_command : Option ConsumeCommand
  consume_command =
      if is_require_confirmation request.policy_decision.fields.decision
      then command_with request.action_id request.authorization_id request.context_snapshot_id
          request.context_version
      else none

  -- From the RUNNING state on.
  unfoldable pub start : Executing ExecutionResult
  unfolding now on_records emit finish run_rounds
  start = do
    at ← now env
    _ ← on_records (transition request.execution_id running at)
    told ← tell env request execution_started 0
    if told
        then run_rounds env request definition
        else finish_failed env request failed 0 internal_execution_error

  abbrev pub unless_refused : Option Thrown → Executing ExecutionResult
  unless_refused (some error) = reject env request (authorization_error_code error) false
  unless_refused none = do
    told ← tell env request authorization_consumed 0
    if told then start else reject env request internal_execution_error false

  abbrev pub with_command : Option ConsumeCommand → Executing ExecutionResult
  with_command none = reject env request execution_not_authorized false
  with_command (some command) = do
    refusal ← awaited env (λ n. env.refuses n command)
    unless_refused refusal

  -- The permit of an R0 or R1 call.
  unfoldable pub with_permit : Executing ExecutionResult
  unfolding policy_execution_binding on_issued start reject
  with_permit =
      if is_allow request.policy_decision.fields.decision
      then (do
        binding ← require (fault execution_not_authorized) (policy_execution_binding request)
        consumed ← on_issued (λ s.
            consume env.js s request.policy_decision definition request.validated_arguments binding)
        if consumed then start else reject env request execution_not_authorized false)
      else reject env request execution_not_authorized false

  -- #executeOwner
  unfoldable pub execute_owner : Executing ExecutionResult
  unfolding with_permit start reject emit awaited authorization_error_code
  execute_owner =
      if is_low_risk request.risk_level then with_permit else with_command consume_command
