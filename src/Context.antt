-- ===== src/Context.antt =====
-- packages/context/src, over the types of packages/domain/src/schemas.ts: a snapshot of what the
-- vehicle, the trip, the weather and the user were when it was captured. A UtcTimestamp is its
-- milliseconds since the epoch. A decimal is the text of a number (Json.antt).
pub mod Time
pub mod Freshness
pub mod Conflict
use drive_guard.Prelude.{ℕ, String, Bool, Option, List}
use drive_guard.Json.{Number}

pub record Occupant : Type 0 where
  pub seat : String
  pub presence : String

pub record Doors : Type 0 where
  pub front_left : String
  pub front_right : String
  pub rear_left : String
  pub rear_right : String
  pub trunk : String

pub record Windows : Type 0 where
  pub front_left : String
  pub front_right : String
  pub rear_left : String
  pub rear_right : String

pub record VehicleState : Type 0 where
  pub vehicle_id : String
  pub timestamp : ℕ
  pub version : ℕ
  pub speed_kph : Number
  pub gear : String
  pub drive_mode : String
  pub soc : Number
  pub charging_state : String
  pub estimated_range_km : Number
  pub latitude : Number
  pub longitude : Number
  pub doors : Doors
  pub windows : Windows
  pub cabin_temperature : Number
  pub outside_temperature : Number
  pub occupants : List Occupant

pub record TripState : Type 0 where
  pub timestamp : ℕ
  pub version : ℕ
  pub destination : Option String
  pub route_id : Option String
  pub remaining_distance_km : Number
  pub eta_minutes : Number
  pub navigation_active : Bool

pub record WeatherState : Type 0 where
  pub condition : String
  pub temperature_c : Number

pub record DrivingUser : Type 0 where
  pub user_id : String
  pub role : String

pub record VehicleCapabilities : Type 0 where
  pub navigation : Bool
  pub charging : Bool
  pub cabin_temperature : Bool
  pub seat_heating : Bool
  pub media : Bool
  pub roadside_assistance : Bool

pub record ContextSnapshot : Type 0 where
  pub vehicle : VehicleState
  pub trip : TripState
  pub weather : WeatherState
  pub user : DrivingUser
  pub capabilities : VehicleCapabilities
  pub captured_at : ℕ
  pub context_version : ℕ
  pub snapshot_id : String
