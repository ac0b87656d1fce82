-- ===== src/Executor/Run/Binding.antt =====
-- packages/executor/src/executor.ts: what a request is bound to (#policyExecutionBinding and
-- #requestBinding). The texts are those of packages/policy/src/types.ts.
use drive_guard.Prelude.{ℕ, String, Bool, ◌&&◌, Option, none, some, leb, if◌then◌else◌}
use drive_guard.Prelude.Text.{is_safe_id}
use drive_guard.Js.{Js}
use drive_guard.Json.{Value, null, bool, text, count, time, obj, end, field}
use drive_guard.Context.Freshness.{max_safe_integer}
use drive_guard.Policy.{
  DecisionType, allow, deny, require_confirmation, replan, ReasonCode, forbidden_rx,
  invalid_policy_input, policy_exception, capability_unavailable, service_unavailable,
  context_invalid, context_future_timestamp, context_stale, context_not_latest,
  context_relevant_state_changed, context_path_unknown, r3_confirmation_required,
  r2_confirmation_required, r1_allowed, r0_allowed, default_deny, FreshnessStatus, fresh, stale,
  invalid_future_timestamp, not_latest, unknown_freshness, ConflictStatus, no_conflict,
  version_changed_but_irrelevant, relevant_state_changed, unknown_relevant_path, not_evaluated,
  unknown_conflict, Evidence, Decision,
}
use drive_guard.Policy.Provenance.{ExecutionBinding}
use drive_guard.Lifecycle.Canonical.{canonical, risk_text, digest}
use drive_guard.Executor.{ExecutionRequest}

-- safeId
abbrev pub safe_id : String → Bool
safe_id = is_safe_id 255

abbrev binding_with : ExecutionRequest → Option String → Option ℕ → Option ExecutionBinding
binding_with request none version = none
binding_with request (some id) none = none
binding_with request (some id) (some version) =
    if safe_id id && leb version max_safe_integer && leb 1 version
    then some (record {
      run_id = request.run_id;
      session_id = request.session_id;
      trace_id = request.trace_id;
      action_fingerprint = request.action_fingerprint;
      context_snapshot_id = id;
      context_version = version;
    })
    else none

-- #policyExecutionBinding; `none` is the fault EXECUTION_NOT_AUTHORIZED.
unfoldable pub policy_execution_binding : ExecutionRequest → Option ExecutionBinding
policy_execution_binding request =
    binding_with request request.context_snapshot_id request.context_version

abbrev decision_text : DecisionType → String
decision_text allow = "ALLOW"
decision_text deny = "DENY"
decision_text require_confirmation = "REQUIRE_CONFIRMATION"
decision_text replan = "REPLAN"

abbrev reason_text : ReasonCode → String
reason_text forbidden_rx = "FORBIDDEN_RX"
reason_text invalid_policy_input = "INVALID_POLICY_INPUT"
reason_text policy_exception = "POLICY_EXCEPTION"
reason_text capability_unavailable = "CAPABILITY_UNAVAILABLE"
reason_text service_unavailable = "SERVICE_UNAVAILABLE"
reason_text context_invalid = "CONTEXT_INVALID"
reason_text context_future_timestamp = "CONTEXT_FUTURE_TIMESTAMP"
reason_text context_stale = "CONTEXT_STALE"
reason_text context_not_latest = "CONTEXT_NOT_LATEST"
reason_text context_relevant_state_changed = "CONTEXT_RELEVANT_STATE_CHANGED"
reason_text context_path_unknown = "CONTEXT_PATH_UNKNOWN"
reason_text r3_confirmation_required = "R3_CONFIRMATION_REQUIRED"
reason_text r2_confirmation_required = "R2_CONFIRMATION_REQUIRED"
reason_text r1_allowed = "R1_ALLOWED"
reason_text r0_allowed = "R0_ALLOWED"
reason_text default_deny = "DEFAULT_DENY"

abbrev freshness_text : FreshnessStatus → String
freshness_text fresh = "FRESH"
freshness_text stale = "STALE"
freshness_text invalid_future_timestamp = "INVALID_FUTURE_TIMESTAMP"
freshness_text not_latest = "NOT_LATEST"
freshness_text unknown_freshness = "UNKNOWN"

abbrev conflict_text : ConflictStatus → String
conflict_text no_conflict = "NO_CONFLICT"
conflict_text version_changed_but_irrelevant = "VERSION_CHANGED_BUT_IRRELEVANT"
conflict_text relevant_state_changed = "RELEVANT_STATE_CHANGED"
conflict_text unknown_relevant_path = "UNKNOWN_RELEVANT_PATH"
conflict_text not_evaluated = "NOT_EVALUATED"
conflict_text unknown_conflict = "UNKNOWN"

abbrev text_or_null : Option String → Value
text_or_null none = null
text_or_null (some s) = text s

abbrev count_or_null : Option ℕ → Value
count_or_null none = null
count_or_null (some n) = count n

abbrev time_or_null : Option ℕ → Value
time_or_null none = null
time_or_null (some t) = time t

evidence_value : Evidence → Value
evidence_value e = obj (
    field "freshnessStatus" (text (freshness_text e.freshness_status)) (
      field "conflictStatus" (text (conflict_text e.conflict_status)) (
        field "contextChanged" (bool e.context_changed) (
          field "requiredCapabilityAvailable" (bool e.required_capability_available)
            (field "serviceAvailable" (bool e.service_available) end)))))

decision_value : Decision → Value
unfolding evidence_value
decision_value d = obj (
    field "decision" (text (decision_text d.decision)) (
      field "ruleId" (text d.rule_id) (
        field "reasonCode" (text (reason_text d.reason_code)) (
          field "toolName" (text d.tool_name) (
            field "riskLevel" (text (risk_text d.risk_level)) (
              field "contextSnapshotId" (text_or_null d.context_snapshot_id) (
                field "contextVersion" (count_or_null d.context_version) (
                  field "evaluatedAt" (time_or_null d.evaluated_at)
                    (field "evidence" (evidence_value d.evidence) end)))))))))

request_value : ExecutionRequest → Value
unfolding decision_value
request_value r = obj (
    field "toolName" (text r.tool_name) (
      field "validatedArguments" r.validated_arguments (
        field "actionFingerprint" (text r.action_fingerprint) (
          field "runId" (text r.run_id) (
            field "sessionId" (text r.session_id) (
              field "userId" (text r.user_id) (
                field "vehicleId" (text r.vehicle_id) (
                  field "traceId" (text r.trace_id) (
                    field "riskLevel" (text (risk_text r.risk_level)) (
                      field "policyDecision" (decision_value r.policy_decision.fields) (
                        field "actionId" (text_or_null r.action_id) (
                          field "authorizationId" (text_or_null r.authorization_id) (
                            field "contextSnapshotId" (text_or_null r.context_snapshot_id) (
                              field "contextVersion" (count_or_null r.context_version)
                                end))))))))))))))

-- #requestBinding; `none` is an exception of canonicalSerialize.
unfoldable pub request_binding : Js → ExecutionRequest → Option String
unfolding request_value canonical
request_binding js request = digest js (canonical js (request_value request))
