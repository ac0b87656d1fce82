-- ===== src/Context/Conflict/Values.antt =====
-- packages/context/src/conflict.ts: valueAt and deepEqual, over a snapshot as a JavaScript value.
use drive_guard.Prelude.{
  ℕ, suc, String, Bool, true, false, ◌&&◌, Option, none, some, List, [], ◌∷◌, str_eq, ◌==◌,
}
use drive_guard.Json.{
  Number, finite, minus_zero, not_finite, Value, null, exotic, bool, text, num, arr, obj, time,
  count, Items, nil, cons, Fields, end, field,
}
use drive_guard.Context.{
  Occupant, Doors, Windows, VehicleState, TripState, VehicleCapabilities, ContextSnapshot,
}

abbrev or_null : Option String → Value
or_null none = null
or_null (some s) = text s

abbrev occupant_items : List Occupant → Items
occupant_items [] = nil
occupant_items (o ∷ os) =
    cons (obj (field "seat" (text o.seat) (field "presence" (text o.presence) end)))
      (occupant_items os)

doors_value : Doors → Value
doors_value d = obj (
    field "frontLeft" (text d.front_left) (
      field "frontRight" (text d.front_right) (
        field "rearLeft" (text d.rear_left)
          (field "rearRight" (text d.rear_right) (field "trunk" (text d.trunk) end)))))

windows_value : Windows → Value
windows_value w = obj (
    field "frontLeft" (text w.front_left) (
      field "frontRight" (text w.front_right)
        (field "rearLeft" (text w.rear_left) (field "rearRight" (text w.rear_right) end))))

vehicle_value : VehicleState → Value
unfolding doors_value windows_value
vehicle_value v = obj (
    field "vehicleId" (text v.vehicle_id) (
      field "timestamp" (time v.timestamp) (
        field "version" (count v.version) (
          field "speedKph" (num v.speed_kph) (
            field "gear" (text v.gear) (
              field "driveMode" (text v.drive_mode) (
                field "soc" (num v.soc) (
                  field "chargingState" (text v.charging_state) (
                    field "estimatedRangeKm" (num v.estimated_range_km) (
                      field "latitude" (num v.latitude) (
                        field "longitude" (num v.longitude) (
                          field "doors" (doors_value v.doors) (
                            field "windows" (windows_value v.windows) (
                              field "cabinTemperature" (num v.cabin_temperature) (
                                field "outsideTemperature" (num v.outside_temperature) (
                                  field "occupants" (arr (occupant_items v.occupants))
                                    end))))))))))))))))

trip_value : TripState → Value
trip_value t = obj (
    field "timestamp" (time t.timestamp) (
      field "version" (count t.version) (
        field "destination" (or_null t.destination) (
          field "routeId" (or_null t.route_id) (
            field "remainingDistanceKm" (num t.remaining_distance_km) (
              field "etaMinutes" (num t.eta_minutes)
                (field "navigationActive" (bool t.navigation_active) end)))))))

capabilities_value : VehicleCapabilities → Value
capabilities_value c = obj (
    field "navigation" (bool c.navigation) (
      field "charging" (bool c.charging) (
        field "cabinTemperature" (bool c.cabin_temperature) (
          field "seatHeating" (bool c.seat_heating) (
            field "media" (bool c.media)
              (field "roadsideAssistance" (bool c.roadside_assistance) end))))))

-- A DrivingContext as the object that it is.
unfoldable pub to_value : ContextSnapshot → Value
unfolding vehicle_value trip_value capabilities_value
to_value s = obj (
    field "vehicle" (vehicle_value s.vehicle) (
      field "trip" (trip_value s.trip) (
        field "weather"
          (obj (
            field "condition" (text s.weather.condition)
              (field "temperatureC" (num s.weather.temperature_c) end)))
          (field "user"
            (obj (field "userId" (text s.user.user_id) (field "role" (text s.user.role) end)))
            (field "capabilities" (capabilities_value s.capabilities) (
              field "capturedAt" (time s.captured_at) (
                field "contextVersion" (count s.context_version)
                  (field "snapshotId" (text s.snapshot_id) end))))))))

-- Reflect.get; undefined is `exotic`.
unfoldable pub read_field : String → Fields → Value
read_field key end = exotic
read_field key (field k v fs) = elim (str_eq k key) [ true ↦ v | false ↦ read_field key fs ]

-- The loop of valueAt. No path of the program goes through an array.
unfoldable pub read_path : List String → Value → Value
unfolding read_field
read_path [] v = v
read_path (segment ∷ segments) (obj fs) = read_path segments (read_field segment fs)
read_path (segment ∷ segments) v = exotic

abbrev same_number : Number → Number → Bool
same_number (finite s) (finite t) = str_eq s t
same_number minus_zero minus_zero = true
same_number (not_finite s) (not_finite t) = str_eq s t
same_number _ _ = false

abbrev pub same_bool : Bool → Bool → Bool
same_bool true b = b
same_bool false true = false
same_bool false false = true

field_count : Fields → ℕ
field_count end = 0
field_count (field k v fs) = suc (field_count fs)

has_field : String → Fields → Bool
has_field key end = false
has_field key (field k v fs) = elim (str_eq k key) [ true ↦ true | false ↦ has_field key fs ]

-- deepEqual. That the sorted keys agree in pairs is that the objects have equally many keys and
-- that each key of the left one is a key of the right one. The only exotic value in a snapshot is
-- undefined.
unfoldable mutual
  unfolding read_field field_count has_field

  pub deep_equal : Value → Value → Bool
  deep_equal null null = true
  deep_equal exotic exotic = true
  deep_equal (bool a) (bool b) = same_bool a b
  deep_equal (text s) (text t) = str_eq s t
  deep_equal (num a) (num b) = same_number a b
  deep_equal (time a) (time b) = a == b
  deep_equal (count a) (count b) = a == b
  deep_equal (arr xs) (arr ys) = equal_items xs ys
  deep_equal (obj fs) (obj gs) = field_count fs == field_count gs && equal_fields fs gs
  deep_equal _ _ = false

  equal_items : Items → Items → Bool
  equal_items nil nil = true
  equal_items (cons x xs) (cons y ys) = deep_equal x y && equal_items xs ys
  equal_items _ _ = false

  equal_fields : Fields → Fields → Bool
  equal_fields end gs = true
  equal_fields (field k v fs) gs =
      has_field k gs && deep_equal v (read_field k gs) && equal_fields fs gs
