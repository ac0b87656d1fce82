-- ===== src/Policy/Engine/Permit.antt =====
-- packages/policy/src/engine.ts: a decision of PolicyEngine.evaluate, presented as a permit.
use drive_guard.Prelude.{
  ℕ, ◌≡◌, ◌↔◌, true, false, Option, none, some, List, arith, Bool-cases, Option-cases, inl, inr,
  if◌then◌else◌,
}
use drive_guard.Js.{Js}
use drive_guard.Json.{Value}
use drive_guard.Tools.{ToolDefinition}
use drive_guard.Policy.{Rule}
use drive_guard.Policy.Profiles.{ToolPolicyProfile}
use drive_guard.Policy.Provenance.{
  Issued, ExecutionBinding, Binding, find_binding, execution_binding_of, consume,
}
use drive_guard.Policy.Provenance.Permits.{IsFresh, consume_iff}
use drive_guard.Policy.Engine.{evaluate, validated}
use drive_guard.Policy.Engine.Fields.{PolicyEvaluationInput, RawDefinition}

-- What the decision that the engine has just issued is bound to, from what structuredClone gives
-- of the arguments.
abbrev binding_with : PolicyEvaluationInput → RawDefinition → Option Value → Option Binding
binding_with i d none = none
binding_with i d (some arguments) = some (record {
  definition = d.ref;
  validated_arguments = arguments;
  execution_binding = execution_binding_of i.execution_binding (validated i.context_snapshot);
  consumed = false;
})

module _ (js : Js) (rules : List Rule) (profiles : List ToolPolicyProfile) (s : Issued)
    (i : PolicyEvaluationInput) (t : Option ℕ) (d : RawDefinition) (fresh : IsFresh s)
    (defined : i.tool_definition ≡ some d) where
  find_binding-evaluate :
      let (o, issued) = evaluate js rules profiles s (some i) t in
      find_binding o.ref issued.bindings ≡ (
        if i.is_identity_readable
        then binding_with i d (js.structured_clone i.validated_arguments)
        else none)
  unfolding evaluate find_binding
  find_binding-evaluate = ground (arith, defined, fresh.unborn s.next)

  -- On a state that has bindings only of objects that were made: the object that the engine returns
  -- for an input with a definition can be consumed at once exactly when bindIssuedDecision could
  -- read the input and clone its arguments, and by exactly the calls of that definition, with
  -- arguments that equal the clone, and with the identity that the input asked to bind, completed by
  -- the id and the version of its context.
  pub evaluate-consume_iff :
      (definition : ToolDefinition) (arguments : Value) (e : ExecutionBinding)
      → (let (o, issued) = evaluate js rules profiles s (some i) t in
          ((consume js issued o definition arguments e).0 ≡ true) ↔ (
            (v : Value) × (i.is_identity_readable ≡ true)
            × (js.structured_clone i.validated_arguments ≡ some v)
            × (d.ref ≡ definition.ref)
            × (js.is_deep_strict_equal v arguments ≡ true)
            × (execution_binding_of i.execution_binding (validated i.context_snapshot) ≡ some e)))
  evaluate-consume_iff definition arguments e =
      let (o, issued) = evaluate js rules profiles s (some i) t in
      let found = find_binding-evaluate in
      let (to, from) = consume_iff js issued o definition arguments e in
      (
        λ h.
            let (b, at, q, a, x, c) = to h in
            elim (Bool-cases i.is_identity_readable) [
              | inr unread ↦ absurd (ground (arith, found, at))
              | inl r ↦ elim (Option-cases (js.structured_clone i.validated_arguments)) [
                | inl thrown ↦ absurd (ground (arith, found, at))
                | inr (v, cloned) ↦ (
                  v,
                  r,
                  cloned,
                  ground (arith, found, at, q),
                  ground (arith, found, at, a),
                  ground (arith, found, at, x),
                )
              ]
            ],
        λ (v, r, cloned, q, a, x). from (
          record {
            definition = d.ref;
            validated_arguments = v;
            execution_binding =
                execution_binding_of i.execution_binding (validated i.context_snapshot);
            consumed = false;
          },
          ground (arith, found),
          q,
          a,
          x,
          ground arith,
        ),
      )
