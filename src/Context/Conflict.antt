-- ===== src/Context/Conflict.antt =====
-- packages/context/src/conflict.ts: ContextConflictDetector.
pub mod Values
pub mod Detection
use drive_guard.Prelude.{
  ℕ, String, Bool, true, false, not, ◌&&◌, ◌||◌, Option, none, some, List, [], ◌∷◌, str_eq, ◌==◌,
  all, leb, if◌then◌else◌,
}
use drive_guard.Prelude.Sets.{includes, keep, unique, sort, is_unique}
use drive_guard.Prelude.Text.{split_dot}
use drive_guard.Json.{Value, text, arr, Items, nil, cons}
use drive_guard.Context.{ContextSnapshot}
use drive_guard.Context.Freshness.{max_safe_integer}
use Values.{to_value, read_path, deep_equal, same_bool}

abbrev pub context_relevant_paths : List String
context_relevant_paths =
    "snapshotId" ∷ "contextVersion" ∷ "capturedAt" ∷ "vehicle.vehicleId" ∷ "vehicle.timestamp"
    ∷ "vehicle.version" ∷ "vehicle.speedKph" ∷ "vehicle.gear" ∷ "vehicle.driveMode" ∷ "vehicle.soc"
    ∷ "vehicle.chargingState" ∷ "vehicle.estimatedRangeKm" ∷ "vehicle.latitude"
    ∷ "vehicle.longitude" ∷ "vehicle.doors.frontLeft" ∷ "vehicle.doors.frontRight"
    ∷ "vehicle.doors.rearLeft" ∷ "vehicle.doors.rearRight" ∷ "vehicle.doors.trunk"
    ∷ "vehicle.windows.frontLeft" ∷ "vehicle.windows.frontRight" ∷ "vehicle.windows.rearLeft"
    ∷ "vehicle.windows.rearRight" ∷ "vehicle.cabinTemperature" ∷ "vehicle.outsideTemperature"
    ∷ "vehicle.occupants" ∷ "trip.timestamp" ∷ "trip.version" ∷ "trip.destination" ∷ "trip.routeId"
    ∷ "trip.remainingDistanceKm" ∷ "trip.etaMinutes" ∷ "trip.navigationActive" ∷ "weather.condition"
    ∷ "weather.temperatureC" ∷ "user.userId" ∷ "user.role" ∷ "capabilities.navigation"
    ∷ "capabilities.charging" ∷ "capabilities.cabinTemperature" ∷ "capabilities.seatHeating"
    ∷ "capabilities.media" ∷ "capabilities.roadsideAssistance" ∷ []

pub data Status : Type 0 where
  no_conflict version_changed_but_irrelevant relevant_state_changed unknown_relevant_path : Status

pub record VersionChanges : Type 0 where
  pub snapshot_id_changed : Bool
  pub context_version_changed : Bool
  pub vehicle_version_changed : Bool
  pub trip_version_changed : Bool
  pub has_version_changed : Bool

pub record ConflictResult : Type 0 where
  pub status : Status
  pub planning_version : ℕ
  pub execution_version : ℕ
  pub changed_paths : List String
  pub unknown_paths : List String
  pub versions : VersionChanges

unfoldable pub is_known_path : String → Bool
is_known_path path = includes context_relevant_paths path

-- valueAt
unfoldable pub value_at : ContextSnapshot → String → Value
value_at s path = read_path (split_dot path) (to_value s)

unfoldable pub detect_version_changes : ContextSnapshot → ContextSnapshot → VersionChanges
detect_version_changes planning execution =
    let id = not (str_eq planning.snapshot_id execution.snapshot_id) in
    let context = not (planning.context_version == execution.context_version) in
    let vehicle = not (planning.vehicle.version == execution.vehicle.version) in
    let trip = not (planning.trip.version == execution.trip.version) in
    record {
      snapshot_id_changed = id;
      context_version_changed = context;
      vehicle_version_changed = vehicle;
      trip_version_changed = trip;
      has_version_changed = id || context || vehicle || trip;
    }

abbrev status_of : List String → List String → Bool → Status
status_of (path ∷ paths) changed moved = unknown_relevant_path
status_of [] (path ∷ paths) moved = relevant_state_changed
status_of [] [] moved = if moved then version_changed_but_irrelevant else no_conflict

unfoldable pub has_changed_at : ContextSnapshot → ContextSnapshot → String → Bool
has_changed_at planning execution path =
    not (deep_equal (value_at planning path) (value_at execution path))

-- `detect` of an array of texts; `before` is `<` on strings.
unfoldable pub detect_paths :
    (String → String → Bool) → ContextSnapshot → ContextSnapshot → List String → ConflictResult
detect_paths before planning execution relevant =
    let versions = detect_version_changes planning execution in
    let unknown = sort before (unique (keep (λ p. not (is_known_path p)) relevant)) in
    let known = sort before (unique (keep is_known_path relevant)) in
    let changed = keep (has_changed_at planning execution) known in
    record {
      status = status_of unknown changed versions.has_version_changed;
      planning_version = planning.context_version;
      execution_version = execution.context_version;
      changed_paths = changed;
      unknown_paths = unknown;
      versions = versions;
    }

-- The entries of an array, if all are texts.
abbrev texts : Items → Option (List String)
texts nil = some []
texts (cons (text s) xs) = elim (texts xs) [ none ↦ none | some ss ↦ some (s ∷ ss) ]
texts (cons v xs) = none

abbrev detect_texts :
    (String → String → Bool)
    → ContextSnapshot
    → ContextSnapshot
    → Option (List String)
    → Option ConflictResult
detect_texts before planning execution none = none
detect_texts before planning execution (some paths) =
    some (detect_paths before planning execution paths)

-- `detect`; `none` is the DomainValidationError INVALID_FIELD.
unfoldable pub detect :
    (String → String → Bool) → ContextSnapshot → ContextSnapshot → Value → Option ConflictResult
detect before planning execution (arr xs) = detect_texts before planning execution (texts xs)
detect before planning execution v = none

abbrev same_status : Status → Status → Bool
same_status no_conflict no_conflict = true
same_status version_changed_but_irrelevant version_changed_but_irrelevant = true
same_status relevant_state_changed relevant_state_changed = true
same_status unknown_relevant_path unknown_relevant_path = true
same_status _ _ = false

abbrev is_version : ℕ → Bool
is_version v = leb 1 v && leb v max_safe_integer

abbrev is_at : ℕ → Option ℕ → Bool
is_at v none = false
is_at v (some w) = v == w

-- validConflict of packages/policy/src/engine.ts, of a value that has the shape of a result.
unfoldable pub valid_conflict : ConflictResult → Option ℕ → Bool
valid_conflict r context_version =
    is_version r.planning_version
    && is_version r.execution_version
    && is_at r.execution_version context_version
    && (all is_known_path r.changed_paths && is_unique r.changed_paths)
    && (all (λ p. not (is_known_path p)) r.unknown_paths && is_unique r.unknown_paths)
    && same_bool v.context_version_changed (not (r.planning_version == r.execution_version))
    && same_bool v.has_version_changed (
        v.snapshot_id_changed || v.context_version_changed || v.vehicle_version_changed
        || v.trip_version_changed)
    && same_status r.status (status_of r.unknown_paths r.changed_paths v.has_version_changed)
  where
    open r use {versions as v}
