-- ===== src/Tests/Fixtures.antt =====
-- Concrete snapshots, definitions, records and an environment.
use drive_guard.Prelude.{ℕ, String, true, false, none, some, [], ◌∷◌, str_eq, if◌then◌else◌}
use drive_guard.Json.{finite, obj, end}
use drive_guard.Js.{Js}
use drive_guard.Context.{ContextSnapshot}
use drive_guard.Context.Conflict.Values.{deep_equal}
use drive_guard.Tools.{ToolDefinition, charging, vehicle_simulator, non_idempotent}
use drive_guard.Policy.{
  RuleInput, r1, r2, fresh, no_conflict, latest_required, Decision, require_confirmation,
  r2_confirmation_required,
}
use drive_guard.Policy.Profiles.{tool_policy_profiles}
use drive_guard.Lifecycle.{
  ready_for_execution, confirmed, awaiting_confirmation, ActionIntent, PendingAction,
  ExecutionAuthorization, PendingActionRecord,
}
use drive_guard.Lifecycle.Revalidation.{CurrentActionContext}
use drive_guard.Context.Freshness.{version}
use drive_guard.Lifecycle.Consumption.{ConsumeCommand}
use drive_guard.Lifecycle.Service.{Env, World}
use drive_guard.Lifecycle.Service.Confirm.{ConfirmCommand}

abbrev pub snapshot : ℕ → ℕ → String → ContextSnapshot
snapshot at v trunk = record {
  vehicle = record {
    vehicle_id = "vehicle-1";
    timestamp = at;
    version = v;
    speed_kph = finite "0";
    gear = "P";
    drive_mode = "NORMAL";
    soc = finite "40";
    charging_state = "IDLE";
    estimated_range_km = finite "160";
    latitude = finite "31.2";
    longitude = finite "121.4";
    doors = record {
      front_left = "CLOSED";
      front_right = "CLOSED";
      rear_left = "CLOSED";
      rear_right = "CLOSED";
      trunk = trunk;
    };
    windows = record {
      front_left = "CLOSED";
      front_right = "CLOSED";
      rear_left = "CLOSED";
      rear_right = "CLOSED";
    };
    cabin_temperature = finite "21";
    outside_temperature = finite "12";
    occupants = [];
  };
  trip = record {
    timestamp = at;
    version = 1;
    destination = none;
    route_id = none;
    remaining_distance_km = finite "0";
    eta_minutes = finite "0";
    navigation_active = false;
  };
  weather = record { condition = "CLEAR"; temperature_c = finite "12" };
  user = record { user_id = "user-1"; role = "DRIVER" };
  capabilities = record {
    navigation = true;
    charging = true;
    cabin_temperature = true;
    seat_heating = true;
    media = true;
    roadside_assistance = true;
  };
  captured_at = at;
  context_version = v;
  snapshot_id = "snapshot-1";
}

-- A digest for tests, which tells the token apart from all other texts.
abbrev pub token_digest : String
token_digest = "aaaaaaaaaaaaaaaaaaaaaaaaaaaaaaaaaaaaaaaaaaaaaaaaaaaaaaaaaaaaaaaa"

abbrev pub other_digest : String
other_digest = "bbbbbbbbbbbbbbbbbbbbbbbbbbbbbbbbbbbbbbbbbbbbbbbbbbbbbbbbbbbbbbbb"

abbrev pub js : Js
js = record {
  quote = λ s. s;
  before = λ a b. false;
  decimal = λ n. "1";
  iso = λ n. "1970-01-01T00:00:00.000Z";
  sha256 = λ t. if str_eq t "token-123" then token_digest else other_digest;
  structured_clone = λ v. some v;
  is_deep_strict_equal = deep_equal;
}

abbrev pub reserve_slot : ToolDefinition
reserve_slot = record {
  ref = 1;
  name = "reserve_charging_slot";
  label = "Reserve a charging slot";
  check = λ v. some true;
  risk_level = r2;
  side_effect = true;
  timeout_hint_ms = 1000;
  idempotency_hint = non_idempotent;
  required_capabilities = charging ∷ [];
  required_services = vehicle_simulator ∷ [];
}

abbrev pub decision : Decision
decision = record {
  decision = require_confirmation;
  rule_id = "DG-POL-008";
  reason_code = r2_confirmation_required;
  tool_name = "reserve_charging_slot";
  risk_level = r2;
  context_snapshot_id = some "snapshot-1";
  context_version = some 1;
  evaluated_at = some 1000;
  evidence = record {
    freshness_status = fresh;
    conflict_status = no_conflict;
    context_changed = false;
    required_capability_available = true;
    service_available = true;
  };
}

abbrev pub intent : ActionIntent
intent = record {
  action_id = "action-1";
  tool_name = "reserve_charging_slot";
  validated_arguments = obj end;
  risk_level = r2;
  run_id = "run-1";
  session_id = "session-1";
  trace_id = "trace-1";
  user_id = "user-1";
  vehicle_id = "vehicle-1";
  policy_rule_id = "DG-POL-008";
  policy_decision = decision;
  context_snapshot_id = "snapshot-1";
  context_version = 1;
  created_at = 1000;
  expires_at = 61000;
  action_fingerprint = other_digest;
  confirmation_summary = "Reserve a charging slot";
}

abbrev pub awaiting_action : PendingAction
awaiting_action = record {
  intent = intent;
  state = awaiting_confirmation;
  updated_at = 1000;
  state_history = record { from = none; to = awaiting_confirmation; transitioned_at = 1000 } ∷ [];
}

abbrev pub awaiting_record : PendingActionRecord
awaiting_record = record {
  action = awaiting_action;
  original_context = snapshot 1000 1 "CLOSED";
  token_hash = some token_digest;
  confirmation_id = none;
  authorization = none;
  authorization_consumed_at = none;
}

abbrev pub authorization : ExecutionAuthorization
authorization = record {
  authorization_id = "authorization-1";
  action_id = "action-1";
  action_fingerprint = other_digest;
  tool_name = "reserve_charging_slot";
  risk_level = r2;
  confirmation_id = "confirmation-1";
  policy_rule_id = "DG-POL-008";
  context_snapshot_id = "snapshot-1";
  context_version = 1;
  issued_at = 2000;
  expires_at = 12000;
}

abbrev pub ready_action : PendingAction
ready_action = record {
  intent = intent;
  state = ready_for_execution;
  updated_at = 2000;
  state_history =
      record { from = none; to = awaiting_confirmation; transitioned_at = 1000 }
      ∷ record { from = some awaiting_confirmation; to = confirmed; transitioned_at = 2000 }
      ∷ record { from = some confirmed; to = ready_for_execution; transitioned_at = 2000 }
      ∷ [];
}

abbrev pub ready_record : PendingActionRecord
ready_record = record {
  action = ready_action;
  original_context = snapshot 1000 1 "CLOSED";
  token_hash = none;
  confirmation_id = some "confirmation-1";
  authorization = some authorization;
  authorization_consumed_at = none;
}

abbrev pub consume_command : ConsumeCommand
consume_command = record {
  authorization_id = "authorization-1";
  action_id = "action-1";
  action_fingerprint = other_digest;
  tool_name = "reserve_charging_slot";
  session_id = "session-1";
  user_id = "user-1";
  vehicle_id = "vehicle-1";
  context_snapshot_id = "snapshot-1";
  context_version = 1;
  validated_arguments = obj end;
}

abbrev pub confirm_command : ConfirmCommand
confirm_command = record {
  bound = record { action_id = "action-1"; session_id = "session-1"; user_id = "user-1" };
  confirmation_token = "token-123";
}

abbrev pub current : CurrentActionContext
current = record {
  snapshot = snapshot 1500 1 "CLOSED";
  latest_context_version = version 1;
  availability = record {
    capabilities = (snapshot 1500 1 "CLOSED").capabilities;
    services = record { vehicle_simulator = true; weather = true; emergency_support = true };
  };
}

abbrev pub env : Env
env = record {
  js = js;
  now_ms = λ n. 2000;
  delivers = λ n. true;
  action_id = λ n. some "action-1";
  confirmation_id = λ n. some "confirmation-1";
  authorization_id = λ n. some "authorization-1";
  event_id = λ n. some "event-1";
  token = λ n. some "token-123";
  current_context = λ n a. some current;
  definition_of = λ name. some reserve_slot;
  profiles = tool_policy_profiles;
  is_trusted_definition = λ d. true;
  confirmation_ttl_ms = 60000;
  authorization_ttl_ms = 10000;
}

abbrev pub awaiting_world : World
awaiting_world = record { records = ("action-1", awaiting_record) ∷ []; events = []; calls = 0 }

abbrev pub ready_world : World
ready_world = record { records = ("action-1", ready_record) ∷ []; events = []; calls = 0 }

abbrev pub low_risk : RuleInput
low_risk = record {
  tool_name = "set_media_volume";
  risk_level = r1;
  input_valid = true;
  context_present = true;
  context_valid = true;
  capability_available = true;
  service_available = true;
  freshness_status = fresh;
  conflict_status = no_conflict;
  context_changed = false;
  context_requirement = latest_required;
}
