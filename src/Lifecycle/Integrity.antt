-- ===== src/Lifecycle/Integrity.antt =====
-- packages/action-lifecycle/src/integrity.ts.
use drive_guard.Prelude.{
  ℕ, String, Bool, true, false, ◌&&◌, Option, none, some, str_eq, ◌==◌, if◌then◌else◌,
}
use drive_guard.Exec.{Result, ok, err}
use drive_guard.Js.{Js}
use drive_guard.Policy.{DecisionType, require_confirmation}
use drive_guard.Lifecycle.{
  PendingAction, PendingActionRecord, Fault, invalid_command, action_integrity_failed, same_risk,
}
use drive_guard.Lifecycle.Canonical.{create_action_fingerprint}

abbrev pub asks_confirmation : DecisionType → Bool
asks_confirmation require_confirmation = true
asks_confirmation _ = false

abbrev pub is_text : Option String → String → Bool
is_text none s = false
is_text (some t) s = str_eq t s

abbrev pub is_number : Option ℕ → ℕ → Bool
is_number none n = false
is_number (some m) n = m == n

-- The comparisons of assertPendingActionIntegrity, given the fingerprint of the action.
unfoldable pub matches_decision : PendingAction → String → Bool
matches_decision a fingerprint =
    str_eq fingerprint a.action_fingerprint
    && asks_confirmation a.policy_decision.decision
    && str_eq a.policy_decision.rule_id a.policy_rule_id
    && str_eq a.policy_decision.tool_name a.tool_name
    && same_risk a.policy_decision.risk_level a.risk_level
    && is_text a.policy_decision.context_snapshot_id a.context_snapshot_id
    && is_number a.policy_decision.context_version a.context_version

abbrev check_decision : PendingAction → Option String → Result Fault (Unit {0})
check_decision a none = err invalid_command
check_decision a (some fingerprint) =
    if matches_decision a fingerprint then ok tt else err action_integrity_failed

-- assertPendingActionIntegrity; a value with no canonical text makes the fingerprint throw.
unfoldable pub assert_action_integrity : Js → PendingAction → Result Fault (Unit {0})
assert_action_integrity js a = check_decision a (
    create_action_fingerprint js (record {
      tool_name = a.tool_name;
      validated_arguments = a.validated_arguments;
      session_id = a.session_id;
      user_id = a.user_id;
      vehicle_id = a.vehicle_id;
      context_snapshot_id = a.context_snapshot_id;
      context_version = a.context_version;
    }))

-- The comparisons of assertPendingActionRecordIntegrity.
unfoldable pub matches_context : PendingActionRecord → Bool
matches_context r =
    str_eq r.original_context.snapshot_id r.action.context_snapshot_id
    && r.original_context.context_version == r.action.context_version
    && str_eq r.original_context.user.user_id r.action.user_id
    && str_eq r.original_context.vehicle.vehicle_id r.action.vehicle_id

abbrev check_context : PendingActionRecord → Result Fault (Unit {0}) → Result Fault (Unit {0})
check_context r (err e) = err e
check_context r (ok u) = if matches_context r then ok tt else err action_integrity_failed

-- assertPendingActionRecordIntegrity
unfoldable pub assert_record_integrity : Js → PendingActionRecord → Result Fault (Unit {0})
unfolding assert_action_integrity
assert_record_integrity js r = check_context r (assert_action_integrity js r.action)
