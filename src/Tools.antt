-- ===== src/Tools.antt =====
-- packages/tools/src/contracts.ts and packages/capabilities/src: what a tool declares about itself,
-- and whether what it needs is there.
use drive_guard.Prelude.{ℕ, String, Bool, ◌&&◌, Option, List, all}
use drive_guard.Json.{Value}
use drive_guard.Context.{VehicleCapabilities}
use drive_guard.Policy.{RiskLevel}

pub data CapabilityName : Type 0 where
  navigation charging cabin_temperature seat_heating media roadside_assistance : CapabilityName

pub data ServiceName : Type 0 where
  vehicle_simulator weather emergency_support : ServiceName

pub data IdempotencyHint : Type 0 where
  read_only idempotent non_idempotent : IdempotencyHint

-- `ref` tells definition objects apart, as `===` does. `check` is
-- Schema.Compile(inputSchema).Check, of typebox; `none` is an exception.
pub record ToolDefinition : Type 0 where
  pub ref : ℕ
  pub name : String
  pub label : String
  pub check : Value → Option Bool
  pub risk_level : RiskLevel
  pub side_effect : Bool
  pub timeout_hint_ms : ℕ
  pub idempotency_hint : IdempotencyHint
  pub required_capabilities : List CapabilityName
  pub required_services : List ServiceName

pub record ServiceAvailability : Type 0 where
  pub vehicle_simulator : Bool
  pub weather : Bool
  pub emergency_support : Bool

pub record Availability : Type 0 where
  pub capabilities : VehicleCapabilities
  pub services : ServiceAvailability

unfoldable pub has_capability : VehicleCapabilities → CapabilityName → Bool
has_capability c navigation = c.navigation
has_capability c charging = c.charging
has_capability c cabin_temperature = c.cabin_temperature
has_capability c seat_heating = c.seat_heating
has_capability c media = c.media
has_capability c roadside_assistance = c.roadside_assistance

unfoldable pub has_service : ServiceAvailability → ServiceName → Bool
has_service s vehicle_simulator = s.vehicle_simulator
has_service s weather = s.weather
has_service s emergency_support = s.emergency_support

-- requirementsAreAvailable
unfoldable pub requirements_are_available :
    List CapabilityName → List ServiceName → Availability → Bool
requirements_are_available capabilities services a =
    all (has_capability a.capabilities) capabilities && all (has_service a.services) services
