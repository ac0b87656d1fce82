-- ===== src/Policy/Engine/Fields.antt =====
-- packages/policy/src/engine.ts: what a caller hands to PolicyEngine.evaluate, field by field, and
-- the check of a tool definition against the profile of its name (validateDefinition).
use drive_guard.Prelude.{
  ℕ, String, Bool, true, false, ◌&&◌, Option, none, some, List, [], ◌∷◌, all, map, str_eq,
}
use drive_guard.Prelude.Sets.{includes, is_unique}
use drive_guard.Json.{Value}
use drive_guard.Context.{ContextSnapshot}
use drive_guard.Context.Freshness.{
  FreshnessResult, Status as FreshnessOutcome, fresh as was_fresh, stale as was_stale,
  invalid_future_timestamp as was_future, not_latest as was_not_latest,
}
use drive_guard.Context.Conflict.{
  ConflictResult, Status as ConflictOutcome, no_conflict as found_no_conflict,
  version_changed_but_irrelevant as found_irrelevant, relevant_state_changed as found_relevant,
  unknown_relevant_path as found_unknown,
}
use drive_guard.Context.Conflict.Values.{same_bool}
use drive_guard.Tools.{
  Availability, CapabilityName, navigation, charging, cabin_temperature, seat_heating, media,
  roadside_assistance, ServiceName, vehicle_simulator, weather, emergency_support,
}
use drive_guard.Policy.{
  RiskLevel, r0, r1, r2, r3, unknown_risk, FreshnessStatus, fresh, stale, invalid_future_timestamp,
  not_latest, ConflictStatus, no_conflict, version_changed_but_irrelevant, relevant_state_changed,
  unknown_relevant_path, formal_tool_names,
}
use drive_guard.Policy.Profiles.{ToolPolicyProfile}
use drive_guard.Policy.Provenance.{RequestedBinding}

-- A definition is an object. Of an array no field is read: it has no `name` and no list, and its
-- risk is unknown. `name`, `side_effect` and the lists are `none` where they have another type,
-- `risk_level` is `unknown_risk` where it is none of the four, and `input_schema` is `none` where it
-- is no object. Of a schema only Schema.Compile(…).Check is used, of typebox; `none` from it is an
-- exception.
pub record RawDefinition : Type 0 where
  pub ref : ℕ
  pub name : Option String
  pub risk_level : RiskLevel
  pub side_effect : Option Bool
  pub required_capabilities : Option (List String)
  pub required_services : Option (List String)
  pub input_schema : Option (Value → Option Bool)
  pub has_execute : Bool

-- What validateContext makes of the field.
pub data ContextField : Type 0 where
  missing rejected : ContextField
  parsed : ContextSnapshot → ContextField

pub data ConflictField : Type 0 where
  absent malformed : ConflictField
  given : ConflictResult → ConflictField

-- `is_readable` is false where `normalize` throws, as a getter inside of a field may make it do;
-- `is_identity_readable` is false where bindIssuedDecision throws while it reads the context and the
-- execution binding. `availability` and `freshness` are `none` where the value has not their shape,
-- `execution_binding` where one of its fields is no string. A field is the same at each reading.
pub record PolicyEvaluationInput : Type 0 where
  pub is_readable : Bool
  pub is_identity_readable : Bool
  pub tool_definition : Option RawDefinition
  pub trusted_definition : Bool
  pub validated_arguments : Value
  pub context_snapshot : ContextField
  pub availability : Option Availability
  pub freshness : Option FreshnessResult
  pub conflict : ConflictField
  pub execution_binding : Option RequestedBinding

abbrev pub freshness_status_of : FreshnessOutcome → FreshnessStatus
freshness_status_of was_fresh = fresh
freshness_status_of was_stale = stale
freshness_status_of was_future = invalid_future_timestamp
freshness_status_of was_not_latest = not_latest

abbrev pub conflict_status_of : ConflictOutcome → ConflictStatus
conflict_status_of found_no_conflict = no_conflict
conflict_status_of found_irrelevant = version_changed_but_irrelevant
conflict_status_of found_relevant = relevant_state_changed
conflict_status_of found_unknown = unknown_relevant_path

abbrev pub capability_text : CapabilityName → String
capability_text navigation = "navigation"
capability_text charging = "charging"
capability_text cabin_temperature = "cabinTemperature"
capability_text seat_heating = "seatHeating"
capability_text media = "media"
capability_text roadside_assistance = "roadsideAssistance"

abbrev pub service_text : ServiceName → String
service_text vehicle_simulator = "vehicleSimulator"
service_text weather = "weather"
service_text emergency_support = "emergencySupport"

abbrev pub capability_names : List String
capability_names =
    "navigation" ∷ "charging" ∷ "cabinTemperature" ∷ "seatHeating" ∷ "media" ∷ "roadsideAssistance"
    ∷ []

abbrev pub service_names : List String
service_names = "vehicleSimulator" ∷ "weather" ∷ "emergencySupport" ∷ []

-- sameArray
unfoldable pub same_array : List String → List String → Bool
same_array [] [] = true
same_array (x ∷ xs) (y ∷ ys) = str_eq x y && same_array xs ys
same_array _ _ = false

-- knownUniqueArray and then sameArray, of a required list
unfoldable pub is_required_list : List String → Option (List String) → List String → Bool
is_required_list known none expected = false
is_required_list known (some value) expected =
    all (includes known) value && is_unique value && same_array value expected

abbrev pub is_named : Option String → String → Bool
is_named none expected = false
is_named (some name) expected = includes formal_tool_names name && str_eq name expected

abbrev pub same_risk : RiskLevel → RiskLevel → Bool
same_risk r0 r0 = true
same_risk r1 r1 = true
same_risk r2 r2 = true
same_risk r3 r3 = true
same_risk _ _ = false

abbrev pub is_side_effect : Option Bool → Bool → Bool
is_side_effect none expected = false
is_side_effect (some b) expected = same_bool b expected

abbrev answer : Option Bool → Bool
answer none = false
answer (some b) = b

abbrev pub accepts : Option (Value → Option Bool) → Value → Bool
accepts none arguments = false
accepts (some check) arguments = answer (check arguments)

-- The long condition of validateDefinition, and its first guard on the risk level: a definition
-- whose level is unknown is like no profile.
unfoldable pub is_declared : RawDefinition → ToolPolicyProfile → Bool
unfolding is_required_list
is_declared d p =
    is_named d.name p.tool_name
    && same_risk d.risk_level p.risk_level
    && is_side_effect d.side_effect p.side_effect
    && is_required_list capability_names d.required_capabilities
        (map capability_text p.required_capabilities)
    && is_required_list service_names d.required_services (map service_text p.required_services)
    && d.has_execute

-- validateDefinition
abbrev pub validate_definition :
    Option RawDefinition → Option ToolPolicyProfile → Value → Bool × RiskLevel
validate_definition none profile arguments = (false, unknown_risk)
validate_definition (some d) none arguments = (false, d.risk_level)
validate_definition (some d) (some p) arguments =
    (is_declared d p && accepts d.input_schema arguments, d.risk_level)
