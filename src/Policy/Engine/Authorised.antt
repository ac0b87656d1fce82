-- ===== src/Policy/Engine/Authorised.antt =====
-- When the input of PolicyEngine.evaluate (packages/policy/src/engine.ts) is authorised, and that
-- this is when its normal form is cleared.
use drive_guard.Prelude.{
  ℕ, String, ◌≡◌, refl, ◌⊎◌, inl, inr, ◌↔◌, true, false, ◌||◌, Option, none, some, List, all, arith,
  Option-cases, is_none,
}
use drive_guard.Prelude.Sets.{includes}
use drive_guard.Json.{Value}
use drive_guard.Context.{ContextSnapshot}
use drive_guard.Context.Freshness.{FreshnessResult}
use drive_guard.Tools.{Availability, has_capability, has_service}
use drive_guard.Policy.{fresh, state_refresh, forbidden_tool_names}
use drive_guard.Policy.Profiles.{ToolPolicyProfile, get_profile}
use drive_guard.Policy.Rules.{is_conflicting}
use drive_guard.Policy.Rules.Meaning.{IsCleared}
use drive_guard.Policy.Engine.{
  normalize_for, conflict_of, is_valid_freshness, is_valid_conflict, validated, tool_name_of,
  name_of,
}
use drive_guard.Policy.Engine.Fields.{
  PolicyEvaluationInput, RawDefinition, ContextField, missing, rejected, parsed,
  freshness_status_of, is_declared, accepts, validate_definition,
}

-- What a permitted call has: a readable, trusted input whose definition is that of a known tool
-- that is not forbidden, whose arguments its schema accepts, whose capabilities and services are
-- there, and whose context is valid and comes with valid evidence; unless the tool's profile asks for
-- no more than a refresh of the state, the context is also current and free of a conflict that
-- matters.
pub record IsAuthorised (profiles : List ToolPolicyProfile) (i : PolicyEvaluationInput)
    (evaluated_at : Option ℕ) (d : RawDefinition) : Type 0 where
  pub name : String
  pub p : ToolPolicyProfile
  pub context : ContextSnapshot
  pub a : Availability
  pub r : FreshnessResult
  pub readable : i.is_readable ≡ true
  pub trusted : i.trusted_definition ≡ true
  pub defined : i.tool_definition ≡ some d
  pub named : d.name ≡ some name
  pub not_forbidden : includes forbidden_tool_names name ≡ false
  pub profiled : get_profile profiles name ≡ some p
  pub declared : is_declared d p ≡ true
  pub accepted : accepts d.input_schema i.validated_arguments ≡ true
  pub resolved : i.availability ≡ some a
  pub capable : all (has_capability a.capabilities) p.required_capabilities ≡ true
  pub serviced : all (has_service a.services) p.required_services ≡ true
  pub well_formed : i.context_snapshot ≡ parsed context
  pub evidenced : i.freshness ≡ some r
  pub dated : is_valid_freshness (some r) (some context) (some p) ≡ true
  pub current : (p.context_requirement ≡ state_refresh) ⊎ (freshness_status_of r.status ≡ fresh)
  pub compared : is_valid_conflict i.conflict (some context) ≡ true
  pub settled :
      (p.context_requirement ≡ state_refresh)
      ⊎ (is_conflicting (conflict_of true i.conflict) ≡ false)
  pub timed : is_none evaluated_at ≡ false

some_of {ℓ} : {A : Type ℓ} (o : Option A) → is_none o ≡ false → (x : A) × (o ≡ some x)
some_of none h = absurd (ground arith)
some_of (some x) h = (x, refl)

parsed_of :
    (f : ContextField) → is_none (validated f) ≡ false → (x : ContextSnapshot) × (f ≡ parsed x)
parsed_of missing h = absurd (ground arith)
parsed_of rejected h = absurd (ground arith)
parsed_of (parsed x) h = (x, refl)

defined_of :
    (o : Option RawDefinition) (q : Option ToolPolicyProfile) (v : Value)
    → (validate_definition o q v).0 ≡ true
    → (d : RawDefinition) × (p : ToolPolicyProfile) × (name : String) × (o ≡ some d)
      × (q ≡ some p)
      × (d.name ≡ some name)
      × (is_declared d p ≡ true)
      × (accepts d.input_schema v ≡ true)
unfolding is_declared
defined_of none q v h = absurd (ground arith)
defined_of (some d) none v h = absurd (ground arith)
defined_of (some d) (some p) v h = elim (Option-cases d.name) [
  | inl e ↦ absurd (ground arith)
  | inr (name, e) ↦ (d, p, name, refl, refl, e, ground arith, ground arith)
]

evidenced_of :
    (o : Option FreshnessResult) (context : Option ContextSnapshot) (q : Option ToolPolicyProfile)
    → is_valid_freshness o context q ≡ true
    → (r : FreshnessResult) × (o ≡ some r)
evidenced_of none context q h = absurd (ground arith)
evidenced_of (some r) context q h = (r, refl)

-- The six conditions of `inputValid` that come after `candidate !== undefined`.
record IsValid (i : PolicyEvaluationInput) (t : Option ℕ) (q : Option ToolPolicyProfile)
    : Type 0 where
  trusted : i.trusted_definition ≡ true
  defined : (validate_definition i.tool_definition q i.validated_arguments).0 ≡ true
  resolved : is_none i.availability ≡ false
  dated :
      (is_none (validated i.context_snapshot)
        || is_valid_freshness i.freshness (validated i.context_snapshot) q)
      ≡ true
  compared : is_valid_conflict i.conflict (validated i.context_snapshot) ≡ true
  timed : is_none t ≡ false

normalize_for-IsValid :
    (i : PolicyEvaluationInput) (t : Option ℕ) (q : Option ToolPolicyProfile)
    → ((normalize_for i t q).rule_input.input_valid ≡ true) ↔ IsValid i t q
normalize_for-IsValid i t q = (
  λ h. record {
    trusted = ground arith;
    defined = ground arith;
    resolved = ground arith;
    dated = ground arith;
    compared = ground arith;
    timed = ground arith;
  },
  λ v. rw (v.trusted, v.defined, v.resolved, v.dated, v.compared, v.timed),
)

pub authorise :
    (profiles : List ToolPolicyProfile) (i : PolicyEvaluationInput) (t : Option ℕ)
    (q : Option ToolPolicyProfile)
    → get_profile profiles (tool_name_of (name_of i.tool_definition)) ≡ q
    → i.is_readable ≡ true
    → IsCleared (normalize_for i t q).rule_input
    → (d : RawDefinition) × IsAuthorised profiles i t d
      × (d.risk_level ≡ (normalize_for i t q).rule_input.risk_level)
authorise profiles i t q look readable c =
    let v = (normalize_for-IsValid i t q).0 c.valid in
    let (d, p, name, defined, profiled, named, declared, accepted) =
      defined_of i.tool_definition q i.validated_arguments v.defined in
    let (a, resolved) = some_of i.availability v.resolved in
    let (context, well_formed) = parsed_of i.context_snapshot (ground (arith, c.well_formed)) in
    let (r, evidenced) =
      evidenced_of i.freshness (validated i.context_snapshot) q
        (ground (arith, v.dated, well_formed)) in
    (
      d,
      record {
        name = name;
        p = p;
        context = context;
        a = a;
        r = r;
        readable = readable;
        trusted = v.trusted;
        defined = defined;
        named = named;
        not_forbidden = ground (arith, c.not_forbidden, defined, named);
        profiled = ground (arith, look, defined, named, profiled);
        declared = declared;
        accepted = accepted;
        resolved = resolved;
        capable = ground (arith, c.capability, profiled, resolved);
        serviced = ground (arith, c.service, profiled, resolved);
        well_formed = well_formed;
        evidenced = evidenced;
        dated = ground (arith, v.dated, well_formed, evidenced, profiled);
        current = ground (arith, c.current, v.dated, well_formed, evidenced, profiled);
        compared = ground (arith, v.compared, well_formed);
        settled = ground (arith, c.settled, v.compared, well_formed, profiled);
        timed = v.timed;
      },
      ground (arith, defined, profiled),
    )

pub unauthorise :
    (profiles : List ToolPolicyProfile) (i : PolicyEvaluationInput) (t : Option ℕ)
    (q : Option ToolPolicyProfile) (d : RawDefinition)
    → get_profile profiles (tool_name_of (name_of i.tool_definition)) ≡ q
    → IsAuthorised profiles i t d
    → IsCleared (normalize_for i t q).rule_input
      × (d.risk_level ≡ (normalize_for i t q).rule_input.risk_level)
unauthorise profiles i t q d look h =
    let name_is : get_profile profiles h.name ≡ q = ground (arith, look, h.defined, h.named) in
    let profiled : q ≡ some h.p = ground (arith, name_is, h.profiled) in
    (
      record {
        not_forbidden = ground (arith, h.not_forbidden, h.defined, h.named);
        valid = (normalize_for-IsValid i t q).1 (record {
          trusted = h.trusted;
          defined = ground (arith, h.defined, profiled, h.declared, h.accepted);
          resolved = ground (arith, h.resolved);
          dated = ground (arith, h.dated, h.evidenced, h.well_formed, profiled);
          compared = ground (arith, h.compared, h.well_formed);
          timed = h.timed;
        });
        capability = ground (arith, h.capable, profiled, h.resolved);
        service = ground (arith, h.serviced, profiled, h.resolved);
        present = ground (arith, h.well_formed);
        well_formed = ground (arith, h.well_formed);
        current = ground (arith, h.current, h.dated, h.evidenced, h.well_formed, profiled);
        settled = ground (arith, h.settled, h.compared, h.well_formed, profiled);
      },
      ground (arith, h.defined, profiled),
    )
