-- ===== src/Policy/Provenance/Permits.antt =====
-- The permits of packages/policy/src/engine.ts over any history of evaluations and consumptions.
use drive_guard.Prelude.{
  ℕ, suc, ◌≤◌, ◌≡◌, refl, ◌↔◌, Bool, true, false, Option, none, some, List, [], ◌∷◌, arith, ◌==◌,
  if◌then◌else◌, eq_iff, Option-cases, inl, inr,
}
use drive_guard.Js.{Js}
use drive_guard.Json.{Value}
use drive_guard.Context.{ContextSnapshot}
use drive_guard.Tools.{ToolDefinition}
use drive_guard.Policy.{Decision}
use drive_guard.Policy.Provenance.{
  ExecutionBinding, Binding, DecisionObject, Issued, RequestedBinding, issue, find_binding,
  is_issued_for, is_issued_for_execution, mark_consumed, consume, same_binding,
}

abbrev consumed : Option Binding → Option Binding
consumed none = none
consumed (some b) = some (record b { consumed = true })

find_binding-mark_consumed :
    (ref r : ℕ) (bs : List (ℕ × Binding))
    → find_binding r (mark_consumed ref bs)
      ≡ (if ref == r then consumed (find_binding r bs) else find_binding r bs)
unfolding find_binding mark_consumed
find_binding-mark_consumed ref r [] = ground arith
find_binding-mark_consumed ref r ((q, b) ∷ bs) = ground (arith, find_binding-mark_consumed ref r bs)

same_binding_iff :
    (o : Option ExecutionBinding) (e : ExecutionBinding) → (same_binding o e ≡ true) ↔ (o ≡ some e)
same_binding_iff none e = ground arith
same_binding_iff (some b) e = ground (
  arith,
  eq_iff b.run_id e.run_id,
  eq_iff b.session_id e.session_id,
  eq_iff b.trace_id e.trace_id,
  eq_iff b.action_fingerprint e.action_fingerprint,
  eq_iff b.context_snapshot_id e.context_snapshot_id,
)

-- A call is let through exactly when its decision object was issued by the engine, for that very
-- definition, those arguments and that execution identity, and was not consumed before.
pub consume_iff :
    (js : Js) (s : Issued) (d : DecisionObject) (definition : ToolDefinition) (arguments : Value)
    (e : ExecutionBinding)
    → ((consume js s d definition arguments e).0 ≡ true) ↔ (
        (b : Binding) × (find_binding d.ref s.bindings ≡ some b)
        × (b.definition ≡ definition.ref)
        × (js.is_deep_strict_equal b.validated_arguments arguments ≡ true)
        × (b.execution_binding ≡ some e)
        × (b.consumed ≡ false))
unfolding consume is_issued_for_execution is_issued_for
consume_iff js s d definition arguments e = (
  λ h. elim (Option-cases (find_binding d.ref s.bindings)) [
    | inl missing ↦ absurd (ground arith)
    | inr (b, found) ↦ (
      b,
      found,
      ground arith,
      ground arith,
      (same_binding_iff b.execution_binding e).0 (ground arith),
      ground arith,
    )
  ],
  λ (b, found, same, equal, bound, fresh).
      rw (found) (ground (arith, (same_binding_iff b.execution_binding e).1)),
)

-- A call of the engine; the Bool is whether bindIssuedDecision could read the input.
pub data Call : Type 0 where
  evaluates :
      Decision
      → Bool
      → ToolDefinition
      → Value
      → Option ContextSnapshot
      → Option RequestedBinding
      → Call
  consumes : DecisionObject → ToolDefinition → Value → ExecutionBinding → Call

-- The state after a call, and whether the call let the decision with the reference through.
unfoldable pub step : Js → ℕ → Issued → Call → Bool × Issued
step js ref s (evaluates d readable definition arguments context requested) =
    (false, (issue js s d readable definition arguments context requested).1)
step js ref s (consumes d definition arguments e) =
    let (through, s') = consume js s d definition arguments e in
    (if d.ref == ref then through else false, s')

abbrev tally : Bool → ℕ → ℕ
tally true n = suc n
tally false n = n

-- How often the decision is let through in a history.
unfoldable pub times_through : Js → ℕ → Issued → List Call → ℕ
times_through js ref s [] = 0
times_through js ref s (c ∷ cs) =
    let (through, s') = step js ref s c in tally through (times_through js ref s' cs)

-- References from `next` on are of no object yet.
pub record IsFresh (s : Issued) : Type 0 where
  pub unborn : (ref : ℕ) → s.next ≤ ref → find_binding ref s.bindings ≡ none

-- A consumed or unborn reference: nothing more is let through for it.
abbrev room : Option Binding → ℕ
room none = 1
room (some b) = if b.consumed then 0 else 1

step-IsFresh : (js : Js) (ref : ℕ) (s : Issued) (c : Call) → IsFresh s → IsFresh (step js ref s c).1
unfolding step issue consume find_binding
step-IsFresh js ref s (evaluates d readable definition arguments context requested) f = record {
  unborn = λ r h. ground (arith, f.unborn r);
}
step-IsFresh js ref s (consumes d definition arguments e) f = record {
  unborn = λ r h. ground (arith, f.unborn r, find_binding-mark_consumed d.ref r s.bindings);
}

step-room :
    (js : Js) (ref : ℕ) (s : Issued) (c : Call)
    → IsFresh s
    → let (through, s') = step js ref s c in
      tally through (room (find_binding ref s'.bindings)) ≤ room (find_binding ref s.bindings)
unfolding step issue find_binding consume
step-room js ref s (evaluates d readable definition arguments context requested) f =
    ground (arith, f.unborn ref)
step-room js ref s (consumes d definition arguments e) f =
    ground (arith, find_binding-mark_consumed d.ref ref s.bindings)

tally_mono : (b : Bool) (m n : ℕ) → m ≤ n → tally b m ≤ tally b n
tally_mono b m n h = ground arith

times_through-le-room :
    (js : Js) (ref : ℕ) (s : Issued) (cs : List Call)
    → IsFresh s
    → times_through js ref s cs ≤ room (find_binding ref s.bindings)
unfolding times_through
times_through-le-room js ref s [] f = omega arith
times_through-le-room js ref s (c ∷ cs) f =
    let (through, s') = step js ref s c in
    omega (
      arith,
      step-room js ref s c f,
      tally_mono through _ _ (times_through-le-room js ref s' cs (step-IsFresh js ref s c f)),
    )

room_le_one : (o : Option Binding) → room o ≤ 1
room_le_one o = ground arith

-- In any history of evaluations and consumptions that starts with nothing issued, no decision
-- object is let through twice.
pub times_through-le-one :
    (js : Js) (ref start : ℕ) (cs : List Call)
    → times_through js ref (record { next = start; bindings = [] }) cs ≤ 1
times_through-le-one js ref start cs = omega (
  arith,
  times_through-le-room js ref (record { next = start; bindings = [] }) cs
      (record { unborn = λ r h. unfold find_binding in refl }),
  room_le_one,
)
