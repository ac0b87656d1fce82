-- ===== src/Tests/Engine.antt =====
-- PolicyEngine.evaluate of packages/policy/src/engine.ts on concrete inputs.
use drive_guard.Prelude.{◌≡◌, refl, ◌⊎◌, ◌↔◌, Bool, true, false, Option, none, some, [], ◌∷◌}
use drive_guard.Prelude.Int.{pos}
use drive_guard.Prelude.Sets.{includes, is_unique}
use drive_guard.Js.{Js}
use drive_guard.Json.{Value, obj, end}
use drive_guard.Context.Freshness.{fresh, valid_freshness}
use drive_guard.Tools.{has_capability, has_service, media, vehicle_simulator}
use drive_guard.Policy.{
  latest_required, r0, r1, r2, r3, allow, deny, require_confirmation, forbidden_rx,
  invalid_policy_input,
}
use drive_guard.Policy.Profiles.{ToolPolicyProfile, tool_policy_profiles, get_profile, profile}
use drive_guard.Policy.Provenance.{
  Issued, ExecutionBinding, find_binding, consume, execution_binding_of,
}
use drive_guard.Policy.Rules.{default_policy_rules, run_rules}
use drive_guard.Policy.Engine.{evaluate, normalize}
use drive_guard.Policy.Engine.Fields.{
  PolicyEvaluationInput, RawDefinition, parsed, absent, same_array, is_required_list, is_declared,
  validate_definition,
}
use drive_guard.Policy.Engine.Meaning.{
  AnAuthorised, evaluate-allow_iff, evaluate-require_confirmation_iff,
}
use drive_guard.Policy.Engine.Declared.{Declares, validate_definition_iff}
use drive_guard.Policy.Engine.Permit.{evaluate-consume_iff}
use drive_guard.Policy.Engine.Malformed.{untrusted, evaluate-malformed}
use drive_guard.Tests.Fixtures.{snapshot, js, reserve_slot, other_digest}

abbrev media_volume : RawDefinition
media_volume = record {
  ref = 1;
  name = some "set_media_volume";
  risk_level = r1;
  side_effect = some true;
  required_capabilities = some ("media" ∷ []);
  required_services = some ("vehicleSimulator" ∷ []);
  input_schema = some (λ v. some true);
  has_execute = true;
}

abbrev call : PolicyEvaluationInput
call = record {
  is_readable = true;
  is_identity_readable = true;
  tool_definition = some media_volume;
  trusted_definition = true;
  validated_arguments = obj end;
  context_snapshot = parsed (snapshot 1000 1 "CLOSED");
  availability = some (record {
    capabilities = (snapshot 1000 1 "CLOSED").capabilities;
    services = record { vehicle_simulator = true; weather = true; emergency_support = true };
  });
  freshness = some (record {
    status = fresh;
    age_ms = pos 500;
    max_age_ms = 2000;
    snapshot_version = 1;
    latest_version = some 1;
  });
  conflict = absent;
  execution_binding = some (record {
    run_id = "run-1";
    session_id = "session-1";
    trace_id = "trace-1";
    action_fingerprint = other_digest;
  });
}

abbrev empty : Issued
empty = record { next = 0; bindings = [] }

call_allowed :
    (evaluate js default_policy_rules tool_policy_profiles empty
      (some call)
      (some 1500)).0.fields.decision
    ≡ allow
unfolding evaluate normalize default_policy_rules run_rules tool_policy_profiles profile get_profile
    is_declared is_required_list same_array includes is_unique valid_freshness has_capability
    has_service
call_allowed = refl

evaluate-allow_iff_example :
    ((evaluate js default_policy_rules tool_policy_profiles empty
        (some call)
        (some 1500)).0.fields.decision
      ≡ allow)
    ↔ AnAuthorised tool_policy_profiles (some call) (some 1500) r0 r1
evaluate-allow_iff_example =
    evaluate-allow_iff js tool_policy_profiles empty (some call) (some 1500)

abbrev slot_call : PolicyEvaluationInput
slot_call = record call {
  tool_definition = some (record {
    ref = 2;
    name = some "reserve_charging_slot";
    risk_level = r2;
    side_effect = some true;
    required_capabilities = some ("charging" ∷ []);
    required_services = some ("vehicleSimulator" ∷ []);
    input_schema = some (λ v. some true);
    has_execute = true;
  });
  freshness = some (record {
    status = fresh;
    age_ms = pos 500;
    max_age_ms = 5000;
    snapshot_version = 1;
    latest_version = some 1;
  });
}

slot_call_confirmed :
    (evaluate js default_policy_rules tool_policy_profiles empty
      (some slot_call)
      (some 1500)).0.fields.decision
    ≡ require_confirmation
unfolding evaluate normalize default_policy_rules run_rules tool_policy_profiles profile get_profile
    is_declared is_required_list same_array includes is_unique valid_freshness has_capability
    has_service
slot_call_confirmed = refl

evaluate-require_confirmation_iff_example :
    ((evaluate js default_policy_rules tool_policy_profiles empty
        (some slot_call)
        (some 1500)).0.fields.decision
      ≡ require_confirmation)
    ↔ AnAuthorised tool_policy_profiles (some slot_call) (some 1500) r2 r3
evaluate-require_confirmation_iff_example =
    evaluate-require_confirmation_iff js tool_policy_profiles empty (some slot_call) (some 1500)

abbrev binding : ExecutionBinding
binding = record {
  run_id = "run-1";
  session_id = "session-1";
  trace_id = "trace-1";
  action_fingerprint = other_digest;
  context_snapshot_id = "snapshot-1";
  context_version = 1;
}

evaluate-consume_iff_example :
    let (o, issued) =
      evaluate js default_policy_rules tool_policy_profiles empty (some call) (some 1500) in
    ((consume js issued o reserve_slot (obj end) binding).0 ≡ true) ↔ (
      (v : Value) × (true ≡ true)
      × (some (obj end) ≡ some v)
      × (media_volume.ref ≡ reserve_slot.ref)
      × (js.is_deep_strict_equal v (obj end) ≡ true)
      × (execution_binding_of call.execution_binding (some (snapshot 1000 1 "CLOSED"))
          ≡ some binding))
evaluate-consume_iff_example =
    evaluate-consume_iff js default_policy_rules tool_policy_profiles empty call (some 1500)
      media_volume (record { unborn = λ r h. unfold find_binding in refl }) refl reserve_slot
      (obj end) binding

-- structuredClone refuses the arguments.
abbrev refusing : Js
refusing = record js { structured_clone = λ v. none }

uncloneable_unbound :
    let (o, issued) =
      evaluate refusing default_policy_rules tool_policy_profiles empty (some call) (some 1500) in
    (consume refusing issued o reserve_slot (obj end) binding).0 ≡ false
unfolding evaluate consume
uncloneable_unbound = refl

evaluate-malformed_example :
    let d =
      (evaluate js default_policy_rules tool_policy_profiles empty
        (some (record call { trusted_definition = false }))
        (some 1500)).0.fields in
    (d.decision ≡ deny) × ((d.reason_code ≡ forbidden_rx) ⊎ (d.reason_code ≡ invalid_policy_input))
evaluate-malformed_example =
    evaluate-malformed js tool_policy_profiles empty
      (some (record call { trusted_definition = false })) (some 1500)
      (untrusted (record call { trusted_definition = false }) (some 1500) refl)

abbrev media_profile : ToolPolicyProfile
media_profile = record {
  tool_name = "set_media_volume";
  risk_level = r1;
  side_effect = true;
  context_requirement = latest_required;
  freshness_requirement = record { max_age_ms = 2000; requires_latest = true };
  relevant_context_paths = "capabilities.media" ∷ [];
  confirmation_required = false;
  required_capabilities = media ∷ [];
  required_services = vehicle_simulator ∷ [];
}

validate_definition_iff_example :
    ((validate_definition (some media_volume) (some media_profile) (obj end)).0 ≡ true) ↔ (
      (d : RawDefinition) × (p : ToolPolicyProfile) × (check : Value → Option Bool) × (some
          media_volume
        ≡ some d)
      × (some media_profile ≡ some p)
      × Declares d p
      × (d.input_schema ≡ some check)
      × (check (obj end) ≡ some true))
validate_definition_iff_example =
    validate_definition_iff (some media_volume) (some media_profile) (obj end)
