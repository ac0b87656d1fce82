-- ===== src/Policy.antt =====
-- packages/policy/src: the data that a decision is made from (types.ts, and the enumerations of
-- packages/tools/src/contracts.ts and packages/context/src that it cites).
pub mod Rules
pub mod Registry
pub mod Profiles
pub mod Provenance
pub mod Engine
use drive_guard.Prelude.{ℕ, String, Bool, true, false, Option, List, [], ◌∷◌}

-- TOOL_RISK_LEVELS, and "UNKNOWN"
pub data RiskLevel : Type 0 where
  r0 r1 r2 r3 unknown_risk : RiskLevel

pub data DecisionType : Type 0 where
  allow deny require_confirmation replan : DecisionType

pub data ReasonCode : Type 0 where
  forbidden_rx invalid_policy_input policy_exception capability_unavailable service_unavailable
        context_invalid context_future_timestamp context_stale context_not_latest
        context_relevant_state_changed context_path_unknown r3_confirmation_required
        r2_confirmation_required r1_allowed r0_allowed default_deny :
      ReasonCode

pub data FreshnessStatus : Type 0 where
  fresh stale invalid_future_timestamp not_latest unknown_freshness : FreshnessStatus

pub data ConflictStatus : Type 0 where
  no_conflict version_changed_but_irrelevant relevant_state_changed unknown_relevant_path
        not_evaluated unknown_conflict :
      ConflictStatus

pub data ContextRequirement : Type 0 where
  state_refresh latest_required unknown_requirement : ContextRequirement

pub record Evidence : Type 0 where
  pub freshness_status : FreshnessStatus
  pub conflict_status : ConflictStatus
  pub context_changed : Bool
  pub required_capability_available : Bool
  pub service_available : Bool

pub record Decision : Type 0 where
  pub decision : DecisionType
  pub rule_id : String
  pub reason_code : ReasonCode
  pub tool_name : String
  pub risk_level : RiskLevel
  pub context_snapshot_id : Option String
  pub context_version : Option ℕ
  pub evaluated_at : Option ℕ
  pub evidence : Evidence

pub record RuleResult : Type 0 where
  pub decision : DecisionType
  pub reason_code : ReasonCode

pub record RuleInput : Type 0 where
  pub tool_name : String
  pub risk_level : RiskLevel
  pub input_valid : Bool
  pub context_present : Bool
  pub context_valid : Bool
  pub capability_available : Bool
  pub service_available : Bool
  pub freshness_status : FreshnessStatus
  pub conflict_status : ConflictStatus
  pub context_changed : Bool
  pub context_requirement : ContextRequirement

-- `none` from either function is an exception.
pub record Rule : Type 0 where
  pub rule_id : String
  pub priority : ℕ
  pub applies_to : RuleInput → Option Bool
  pub evaluate : RuleInput → Option RuleResult

abbrev pub is_r0 : RiskLevel → Bool
is_r0 r0 = true
is_r0 _ = false

abbrev pub is_r1 : RiskLevel → Bool
is_r1 r1 = true
is_r1 _ = false

abbrev pub is_r2 : RiskLevel → Bool
is_r2 r2 = true
is_r2 _ = false

abbrev pub is_r3 : RiskLevel → Bool
is_r3 r3 = true
is_r3 _ = false

abbrev pub is_fresh : FreshnessStatus → Bool
is_fresh fresh = true
is_fresh _ = false

abbrev pub is_state_refresh : ContextRequirement → Bool
is_state_refresh state_refresh = true
is_state_refresh _ = false

abbrev pub forbidden_tool_names : List String
forbidden_tool_names =
    "apply_brake" ∷ "control_steering" ∷ "set_throttle" ∷ "disable_aeb" ∷ "disable_esc" ∷ []

abbrev pub formal_tool_names : List String
formal_tool_names =
    "get_vehicle_state" ∷ "get_trip_state" ∷ "get_weather" ∷ "search_charging_stations"
    ∷ "get_charging_status" ∷ "set_cabin_temperature" ∷ "set_seat_heating" ∷ "set_media_volume"
    ∷ "set_navigation_destination" ∷ "reroute_to_charger" ∷ "reserve_charging_slot"
    ∷ "cancel_charging_reservation" ∷ "request_roadside_assistance" ∷ "request_emergency_support"
    ∷ []
