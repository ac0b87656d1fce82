-- ===== src/Lifecycle/Consumption.antt =====
-- packages/action-lifecycle/src/authorization-consumption.ts.
pub mod Meaning
use drive_guard.Prelude.{
  ℕ, String, Bool, ◌&&◌, Option, none, some, str_eq, ◌==◌, leb, if◌then◌else◌, is_some,
}
use drive_guard.Exec.{Result, ok, err}
use drive_guard.Js.{Js}
use drive_guard.Json.{Value}
use drive_guard.Lifecycle.{
  PendingActionRecord, ExecutionAuthorization, Fault, authorization_mismatch,
  authorization_already_used, authorization_expired, is_ready,
}
use drive_guard.Lifecycle.Canonical.{create_action_fingerprint}

-- ConsumeExecutionAuthorizationCommand
pub record ConsumeCommand : Type 0 where
  pub authorization_id : String
  pub action_id : String
  pub action_fingerprint : String
  pub tool_name : String
  pub session_id : String
  pub user_id : String
  pub vehicle_id : String
  pub context_snapshot_id : String
  pub context_version : ℕ
  pub validated_arguments : Value

-- The twelve comparisons, given the fingerprint of the request.
unfoldable pub matches_command :
    PendingActionRecord → ExecutionAuthorization → ConsumeCommand → String → Bool
matches_command r a c requested =
    str_eq a.authorization_id c.authorization_id
    && str_eq a.action_id c.action_id
    && str_eq a.action_fingerprint c.action_fingerprint
    && str_eq a.tool_name c.tool_name
    && str_eq r.action.session_id c.session_id
    && str_eq r.action.user_id c.user_id
    && str_eq r.action.vehicle_id c.vehicle_id
    && str_eq a.context_snapshot_id c.context_snapshot_id
    && a.context_version == c.context_version
    && str_eq r.action.action_fingerprint c.action_fingerprint
    && str_eq requested c.action_fingerprint
    && str_eq r.action.tool_name c.tool_name

abbrev compare_request :
    PendingActionRecord
    → ExecutionAuthorization
    → ConsumeCommand
    → Option String
    → Result Fault ExecutionAuthorization
compare_request r a c none = err authorization_mismatch
compare_request r a c (some requested) =
    if matches_command r a c requested then ok a else err authorization_mismatch

abbrev check_unused :
    Js
    → PendingActionRecord
    → ExecutionAuthorization
    → ConsumeCommand
    → ℕ
    → Result Fault ExecutionAuthorization
check_unused js r a c now =
    if is_some r.authorization_consumed_at
    then err authorization_already_used
    else if leb a.expires_at now
    then err authorization_expired
    else compare_request r a c (
        create_action_fingerprint js (record {
          tool_name = c.tool_name;
          validated_arguments = c.validated_arguments;
          session_id = c.session_id;
          user_id = c.user_id;
          vehicle_id = c.vehicle_id;
          context_snapshot_id = r.action.context_snapshot_id;
          context_version = r.action.context_version;
        }))

abbrev check_available :
    Js
    → PendingActionRecord
    → Option ExecutionAuthorization
    → ConsumeCommand
    → ℕ
    → Result Fault ExecutionAuthorization
check_available js r none c now = err authorization_mismatch
check_available js r (some a) c now =
    if is_ready r.action.state then check_unused js r a c now else err authorization_mismatch

-- verifyExecutionAuthorizationForConsumption
unfoldable pub verify :
    Js → PendingActionRecord → ConsumeCommand → ℕ → Result Fault ExecutionAuthorization
verify js r c now = check_available js r r.authorization c now
