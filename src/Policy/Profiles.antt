-- ===== src/Policy/Profiles.antt =====
-- packages/policy/src/profiles.ts: what the policy knows of each tool.
use drive_guard.Prelude.{
  String, Bool, true, false, not, ◌||◌, Option, List, [], ◌∷◌, find, str_eq, if◌then◌else◌,
}
use drive_guard.Context.Freshness.{Requirement}
use drive_guard.Tools.{
  CapabilityName, navigation, charging, cabin_temperature, seat_heating, media, roadside_assistance,
  ServiceName, vehicle_simulator, weather, emergency_support,
}
use drive_guard.Policy.{
  RiskLevel, r0, r1, r2, r3, ContextRequirement, state_refresh, latest_required, is_r0, is_r1,
  is_r2, is_r3,
}

pub record ToolPolicyProfile : Type 0 where
  pub tool_name : String
  pub risk_level : RiskLevel
  pub side_effect : Bool
  pub context_requirement : ContextRequirement
  pub freshness_requirement : Requirement
  pub relevant_context_paths : List String
  pub confirmation_required : Bool
  pub required_capabilities : List CapabilityName
  pub required_services : List ServiceName

abbrev read_freshness : Requirement
read_freshness = record { max_age_ms = 5000; requires_latest = false }

abbrev low_risk_freshness : Requirement
low_risk_freshness = record { max_age_ms = 2000; requires_latest = true }

abbrev sensitive_freshness : Requirement
sensitive_freshness = record { max_age_ms = 5000; requires_latest = true }

unfoldable pub profile :
    String → RiskLevel → List CapabilityName → List ServiceName → List String → ToolPolicyProfile
profile name risk capabilities services paths =
    let side_effect = not (is_r0 risk) in
    record {
      tool_name = name;
      risk_level = risk;
      side_effect = side_effect;
      context_requirement = if side_effect then latest_required else state_refresh;
      freshness_requirement =
          if is_r0 risk
          then read_freshness
          else if is_r1 risk
          then low_risk_freshness
          else sensitive_freshness;
      relevant_context_paths = paths;
      confirmation_required = is_r2 risk || is_r3 risk;
      required_capabilities = capabilities;
      required_services = services;
    }

unfoldable pub tool_policy_profiles : List ToolPolicyProfile
unfolding profile
tool_policy_profiles =
    profile "get_vehicle_state" r0 [] (vehicle_simulator ∷ []) []
    ∷ profile "get_trip_state" r0 (navigation ∷ []) (vehicle_simulator ∷ []) []
    ∷ profile "get_weather" r0 [] (weather ∷ []) []
    ∷ profile "search_charging_stations" r0 (charging ∷ []) (vehicle_simulator ∷ []) []
    ∷ profile "get_charging_status" r0 (charging ∷ []) (vehicle_simulator ∷ []) []
    ∷ profile "set_cabin_temperature" r1 (cabin_temperature ∷ []) (vehicle_simulator ∷ [])
        ("vehicle.cabinTemperature" ∷ "vehicle.occupants" ∷ "capabilities.cabinTemperature" ∷ [])
    ∷ profile "set_seat_heating" r1 (seat_heating ∷ []) (vehicle_simulator ∷ [])
        ("vehicle.occupants" ∷ "capabilities.seatHeating" ∷ [])
    ∷ profile "set_media_volume" r1 (media ∷ []) (vehicle_simulator ∷ [])
        ("capabilities.media" ∷ [])
    ∷ profile "set_navigation_destination" r2 (navigation ∷ []) (vehicle_simulator ∷ []) (
        "vehicle.speedKph" ∷ "vehicle.gear" ∷ "vehicle.driveMode" ∷ "trip.destination"
        ∷ "trip.routeId" ∷ "trip.navigationActive" ∷ "capabilities.navigation" ∷ [])
    ∷ profile "reroute_to_charger" r2 (navigation ∷ charging ∷ []) (vehicle_simulator ∷ []) (
        "vehicle.soc" ∷ "vehicle.estimatedRangeKm" ∷ "vehicle.latitude" ∷ "vehicle.longitude"
        ∷ "trip.destination" ∷ "trip.routeId" ∷ "trip.navigationActive" ∷ "capabilities.navigation"
        ∷ "capabilities.charging" ∷ [])
    ∷ profile "reserve_charging_slot" r2 (charging ∷ []) (vehicle_simulator ∷ []) (
        "vehicle.soc" ∷ "vehicle.chargingState" ∷ "vehicle.latitude" ∷ "vehicle.longitude"
        ∷ "capabilities.charging" ∷ [])
    ∷ profile "cancel_charging_reservation" r2 (charging ∷ []) (vehicle_simulator ∷ [])
        ("vehicle.chargingState" ∷ "capabilities.charging" ∷ [])
    ∷ profile "request_roadside_assistance" r3 (roadside_assistance ∷ []) (vehicle_simulator ∷ []) (
        "vehicle.speedKph" ∷ "vehicle.gear" ∷ "vehicle.driveMode" ∷ "vehicle.latitude"
        ∷ "vehicle.longitude" ∷ "capabilities.roadsideAssistance" ∷ [])
    ∷ profile "request_emergency_support" r3 (roadside_assistance ∷ []) (emergency_support ∷ []) (
        "vehicle.speedKph" ∷ "vehicle.gear" ∷ "vehicle.driveMode" ∷ "vehicle.latitude"
        ∷ "vehicle.longitude" ∷ "capabilities.roadsideAssistance" ∷ [])
    ∷ []

-- ToolPolicyProfileRegistry.get
unfoldable pub get_profile : List ToolPolicyProfile → String → Option ToolPolicyProfile
get_profile profiles name = find (λ p. str_eq p.tool_name name) profiles
