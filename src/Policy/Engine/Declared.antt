-- ===== src/Policy/Engine/Declared.antt =====
-- packages/policy/src/engine.ts: what validateDefinition asks of a tool definition.
use drive_guard.Prelude.{
  String, ◌≡◌, ◌≢◌, refl, sym, subst, ◌↔◌, Bool, true, Option, none, some, List, [], ◌∷◌, map, all,
  arith, eq_iff,
}
use drive_guard.Prelude.Sets.{includes, is_unique}
use drive_guard.Json.{Value}
use drive_guard.Tools.{
  CapabilityName, navigation, charging, cabin_temperature, seat_heating, media, roadside_assistance,
  ServiceName, vehicle_simulator, weather, emergency_support,
}
use drive_guard.Policy.{RiskLevel, unknown_risk, formal_tool_names}
use drive_guard.Policy.Profiles.{ToolPolicyProfile}
use drive_guard.Policy.Engine.Fields.{
  RawDefinition, capability_text, service_text, capability_names, service_names, same_array,
  is_required_list, is_declared, is_named, same_risk, is_side_effect, accepts, validate_definition,
}

same_array_iff : (xs ys : List String) → (same_array xs ys ≡ true) ↔ (xs ≡ ys)
unfolding same_array
same_array_iff [] [] = (λ h. refl, λ h. refl)
same_array_iff [] (y ∷ ys) = ground arith
same_array_iff (x ∷ xs) [] = ground arith
same_array_iff (x ∷ xs) (y ∷ ys) = ground (arith, eq_iff x y, same_array_iff xs ys)

known_capability : (x : CapabilityName) → includes capability_names (capability_text x) ≡ true
unfolding includes
known_capability navigation = refl
known_capability charging = refl
known_capability cabin_temperature = refl
known_capability seat_heating = refl
known_capability media = refl
known_capability roadside_assistance = refl

known_service : (x : ServiceName) → includes service_names (service_text x) ≡ true
unfolding includes
known_service vehicle_simulator = refl
known_service weather = refl
known_service emergency_support = refl

-- A list of names from a fixed set of names has no others.
all_known {ℓ} :
    {A : Type ℓ} (known : List String) (f : A → String)
    → ((x : A) → includes known (f x) ≡ true)
    → (xs : List A) → all (includes known) (map f xs) ≡ true
all_known known f k [] = refl
all_known known f k (x ∷ xs) = rw (k x) (all_known known f k xs)

is_required_list_iff :
    (known : List String) (value : Option (List String)) (expected : List String)
    → all (includes known) expected ≡ true
    → (is_required_list known value expected ≡ true)
      ↔ ((value ≡ some expected) × (is_unique expected ≡ true))
unfolding is_required_list
is_required_list_iff known none expected k = ground arith
is_required_list_iff known (some value) expected k =
    ground (arith, same_array_iff value expected, k)

is_named_iff :
    (o : Option String) (name : String)
    → (is_named o name ≡ true) ↔ ((o ≡ some name) × (includes formal_tool_names name ≡ true))
is_named_iff none name = ground arith
is_named_iff (some x) name = ground (arith, eq_iff x name)

same_risk_iff : (x y : RiskLevel) → (same_risk x y ≡ true) ↔ ((x ≡ y) × (y ≢ unknown_risk))
same_risk_iff x y = ground arith

is_side_effect_iff : (o : Option Bool) (b : Bool) → (is_side_effect o b ≡ true) ↔ (o ≡ some b)
is_side_effect_iff o b = ground arith

-- A definition of a profile: its name is one of the fourteen and that of the profile, its risk level
-- is known, its risk level, its side effect and the lists of what it requires are those of the
-- profile, the lists being free of repetitions, and it can be executed.
abbrev pub Declares : RawDefinition → ToolPolicyProfile → Type 0
Declares d p =
    (d.name ≡ some p.tool_name)
    × (includes formal_tool_names p.tool_name ≡ true)
    × (d.risk_level ≡ p.risk_level)
    × (p.risk_level ≢ unknown_risk)
    × (d.side_effect ≡ some p.side_effect)
    × (d.required_capabilities ≡ some (map capability_text p.required_capabilities))
    × (is_unique (map capability_text p.required_capabilities) ≡ true)
    × (d.required_services ≡ some (map service_text p.required_services))
    × (is_unique (map service_text p.required_services) ≡ true)
    × (d.has_execute ≡ true)

is_declared_iff :
    (d : RawDefinition) (p : ToolPolicyProfile) → (is_declared d p ≡ true) ↔ Declares d p
unfolding is_declared
is_declared_iff d p =
    let named = is_named_iff d.name p.tool_name in
    let risk = same_risk_iff d.risk_level p.risk_level in
    let side = is_side_effect_iff d.side_effect p.side_effect in
    let capabilities =
      is_required_list_iff capability_names d.required_capabilities
        (map capability_text p.required_capabilities)
        (all_known capability_names capability_text known_capability p.required_capabilities) in
    let services =
      is_required_list_iff service_names d.required_services (map service_text p.required_services)
        (all_known service_names service_text known_service p.required_services) in
    ground (arith, named, risk, side, capabilities, services)

accepts_iff :
    (schema : Option (Value → Option Bool)) (v : Value)
    → (accepts schema v ≡ true)
      ↔ ((check : Value → Option Bool) × (schema ≡ some check) × (check v ≡ some true))
accepts_iff none v = (λ h. absurd (ground arith), λ (check, e, h). absurd (ground (arith, e)))
accepts_iff (some check) v =
    (λ h. (check, refl, ground arith), λ (other, e, h). ground (arith, e, h))

some_same {ℓ} : {A : Type ℓ} {x y : A} → some x ≡ some y → x ≡ y
some_same e = cc

-- validateDefinition finds a value and arguments valid exactly when the value is an object, its name
-- has a profile that it is a definition of (`Declares`), and it has an input schema whose check
-- accepts the arguments and does not throw.
pub validate_definition_iff :
    (o : Option RawDefinition) (q : Option ToolPolicyProfile) (v : Value)
    → ((validate_definition o q v).0 ≡ true) ↔ (
        (d : RawDefinition) × (p : ToolPolicyProfile) × (check : Value → Option Bool) × (o ≡ some d)
        × (q ≡ some p)
        × Declares d p
        × (d.input_schema ≡ some check)
        × (check v ≡ some true))
validate_definition_iff none q v =
    (λ h. absurd (ground arith), λ (d, p, check, e, f, h, s, a). absurd (ground (arith, e)))
validate_definition_iff (some d) none v =
    (λ h. absurd (ground arith), λ (d', p, check, e, f, h, s, a). absurd (ground (arith, f)))
validate_definition_iff (some d) (some p) v = (
  λ h.
      let (check, s, a) = (accepts_iff d.input_schema v).0 (ground arith) in
      (d, p, check, refl, refl, (is_declared_iff d p).0 (ground arith), s, a),
  λ (d', p', check, e, f, h, s, a).
      let declared : is_declared d p ≡ true =
        subst (λ x. is_declared d x ≡ true) (sym (some_same f))
          (subst (λ x. is_declared x p' ≡ true) (sym (some_same e))
            ((is_declared_iff d' p').1 h)) in
      let accepted : accepts d.input_schema v ≡ true =
        subst (λ x. accepts x.input_schema v ≡ true) (sym (some_same e))
          ((accepts_iff d'.input_schema v).1 (check, s, a)) in
      ground (arith, declared, accepted),
)
