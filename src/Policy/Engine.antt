-- ===== src/Policy/Engine.antt =====
-- packages/policy/src/engine.ts: PolicyEngine.evaluate, from the input of a caller that is not
-- trusted to the issued decision. The engine reads each field on its own; a field that has not
-- the type that the engine asks for is `none` (or `malformed`) here.
pub mod Fields
pub mod Declared
pub mod Authorised
pub mod Meaning
pub mod Permit
pub mod Malformed
use drive_guard.Prelude.{
  ℕ, suc, String, Bool, true, false, not, ◌&&◌, ◌||◌, Option, none, some, List, all, is_none,
  if◌then◌else◌,
}
use drive_guard.Js.{Js}
use drive_guard.Context.{ContextSnapshot}
use drive_guard.Context.Freshness.{FreshnessResult, Requirement, valid_freshness}
use drive_guard.Context.Conflict.{valid_conflict}
use drive_guard.Tools.{Availability, has_capability, has_service}
use drive_guard.Policy.{
  Decision, FreshnessStatus, unknown_freshness, ConflictStatus, not_evaluated, unknown_conflict,
  ContextRequirement, unknown_requirement, unknown_risk, Evidence, RuleInput, Rule,
}
use drive_guard.Policy.Profiles.{ToolPolicyProfile, get_profile}
use drive_guard.Policy.Provenance.{Issued, DecisionObject, unbound, bind}
use drive_guard.Policy.Rules.{Outcome, run_rules}
use Fields.{
  PolicyEvaluationInput, RawDefinition, ContextField, missing, parsed, ConflictField, absent,
  malformed, given, freshness_status_of, conflict_status_of, validate_definition,
}

-- NormalizedPolicyInput
pub record Normalized : Type 0 where
  pub rule_input : RuleInput
  pub context_snapshot_id : Option String
  pub context_version : Option ℕ
  pub evaluated_at : Option ℕ

abbrev pub name_of : Option RawDefinition → Option String
name_of none = none
name_of (some d) = d.name

abbrev pub tool_name_of : Option String → String
tool_name_of none = "unknown_tool"
tool_name_of (some name) = name

abbrev is_present : ContextField → Bool
is_present missing = false
is_present _ = true

abbrev pub validated : ContextField → Option ContextSnapshot
validated (parsed snapshot) = some snapshot
validated _ = none

abbrev snapshot_id_of : Option ContextSnapshot → Option String
snapshot_id_of none = none
snapshot_id_of (some snapshot) = some snapshot.snapshot_id

abbrev pub version_of : Option ContextSnapshot → Option ℕ
version_of none = none
version_of (some snapshot) = some snapshot.context_version

abbrev pub freshness_requirement_of : Option ToolPolicyProfile → Option Requirement
freshness_requirement_of none = none
freshness_requirement_of (some p) = some p.freshness_requirement

abbrev context_requirement_of : Option ToolPolicyProfile → ContextRequirement
context_requirement_of none = unknown_requirement
context_requirement_of (some p) = p.context_requirement

abbrev pub is_valid_freshness :
    Option FreshnessResult → Option ContextSnapshot → Option ToolPolicyProfile → Bool
is_valid_freshness none context p = false
is_valid_freshness (some r) context p =
    valid_freshness r (version_of context) (freshness_requirement_of p)

abbrev freshness_of : Bool → Option FreshnessResult → FreshnessStatus
freshness_of true (some r) = freshness_status_of r.status
freshness_of _ _ = unknown_freshness

abbrev pub is_valid_conflict : ConflictField → Option ContextSnapshot → Bool
is_valid_conflict absent context = true
is_valid_conflict malformed context = false
is_valid_conflict (given r) context = valid_conflict r (version_of context)

abbrev conflict_of : Bool → ConflictField → ConflictStatus
conflict_of valid absent = not_evaluated
conflict_of true (given r) = conflict_status_of r.status
conflict_of _ _ = unknown_conflict

abbrev changed_of : Bool → ConflictField → Bool
changed_of true (given r) = r.versions.has_version_changed
changed_of _ _ = false

abbrev pub capability_available : Option ToolPolicyProfile → Option Availability → Bool
capability_available (some p) (some a) = all (has_capability a.capabilities) p.required_capabilities
capability_available _ _ = false

abbrev pub service_available : Option ToolPolicyProfile → Option Availability → Bool
service_available (some p) (some a) = all (has_service a.services) p.required_services
service_available _ _ = false

-- normalize, of an input that is an object, for the profile that the tool's name has
abbrev pub normalize_for : PolicyEvaluationInput → Option ℕ → Option ToolPolicyProfile → Normalized
normalize_for i evaluated_at profile =
    let context = validated i.context_snapshot in
    let definition = validate_definition i.tool_definition profile i.validated_arguments in
    let freshness_valid = is_valid_freshness i.freshness context profile in
    let conflict_valid = is_valid_conflict i.conflict context in
    record {
      rule_input = record {
        tool_name = tool_name_of (name_of i.tool_definition);
        risk_level = definition.1;
        input_valid =
            i.trusted_definition
            && definition.0
            && not (is_none i.availability)
            && (is_none context || freshness_valid)
            && conflict_valid
            && not (is_none evaluated_at);
        context_present = is_present i.context_snapshot;
        context_valid = not (is_none context);
        capability_available = capability_available profile i.availability;
        service_available = service_available profile i.availability;
        freshness_status = freshness_of freshness_valid i.freshness;
        conflict_status = conflict_of conflict_valid i.conflict;
        context_changed = changed_of conflict_valid i.conflict;
        context_requirement = context_requirement_of profile;
      };
      context_snapshot_id = snapshot_id_of context;
      context_version = version_of context;
      evaluated_at = evaluated_at;
    }

-- `normalized` where `normalize` throws (the first `catch` of `evaluate`)
abbrev pub unreadable : Normalized
unreadable = record {
  rule_input = record {
    tool_name = "unknown_tool";
    risk_level = unknown_risk;
    input_valid = false;
    context_present = false;
    context_valid = false;
    capability_available = false;
    service_available = false;
    freshness_status = unknown_freshness;
    conflict_status = unknown_conflict;
    context_changed = false;
    context_requirement = unknown_requirement;
  };
  context_snapshot_id = none;
  context_version = none;
  evaluated_at = none;
}

-- The input of a caller that hands in no object: every field of it reads as undefined.
abbrev nothing : Option ℕ → List ToolPolicyProfile → Normalized
nothing evaluated_at profiles = record {
  rule_input = record {
    tool_name = "unknown_tool";
    risk_level = unknown_risk;
    input_valid = false;
    context_present = false;
    context_valid = false;
    capability_available = false;
    service_available = false;
    freshness_status = unknown_freshness;
    conflict_status = not_evaluated;
    context_changed = false;
    context_requirement = context_requirement_of (get_profile profiles "unknown_tool");
  };
  context_snapshot_id = none;
  context_version = none;
  evaluated_at = evaluated_at;
}

-- `normalize` and its `catch`; an input that is not an object is `none`.
unfoldable pub normalize :
    List ToolPolicyProfile → Option PolicyEvaluationInput → Option ℕ → Normalized
normalize profiles none evaluated_at = nothing evaluated_at profiles
normalize profiles (some i) evaluated_at =
    if i.is_readable
    then normalize_for i evaluated_at
        (get_profile profiles (tool_name_of (name_of i.tool_definition)))
    else unreadable

-- evidence
abbrev evidence : RuleInput → Evidence
evidence i = record {
  freshness_status = i.freshness_status;
  conflict_status = i.conflict_status;
  context_changed = i.context_changed;
  required_capability_available = i.capability_available;
  service_available = i.service_available;
}

abbrev decide : Normalized → Outcome → Decision
decide n o = record {
  decision = o.decision;
  rule_id = o.rule_id;
  reason_code = o.reason_code;
  tool_name = n.rule_input.tool_name;
  risk_level = n.rule_input.risk_level;
  context_snapshot_id = n.context_snapshot_id;
  context_version = n.context_version;
  evaluated_at = n.evaluated_at;
  evidence = evidence n.rule_input;
}

-- bindIssuedDecision
abbrev pub bind_definition :
    Js → Issued → Decision → PolicyEvaluationInput → Option RawDefinition → DecisionObject × Issued
bind_definition js s d i none = unbound s d
bind_definition js s d i (some definition) =
    bind js s d i.is_identity_readable definition.ref i.validated_arguments
      (validated i.context_snapshot) i.execution_binding

abbrev pub bind_input :
    Js → Issued → Decision → Option PolicyEvaluationInput → DecisionObject × Issued
bind_input js s d none = unbound s d
bind_input js s d (some i) = bind_definition js s d i i.tool_definition

-- PolicyEngine.evaluate
unfoldable pub evaluate :
    Js
    → List Rule
    → List ToolPolicyProfile
    → Issued
    → Option PolicyEvaluationInput
    → Option ℕ
    → DecisionObject × Issued
unfolding normalize
evaluate js rules profiles s input evaluated_at =
    let n = normalize profiles input evaluated_at in
    bind_input js s (decide n (run_rules rules n.rule_input)) input
