-- ===== src/Policy/Provenance.antt =====
-- packages/policy/src/engine.ts: which decisions the engine has issued, what each is bound to, and
-- the permits of R0 and R1 calls, which are consumed. A decision object is its reference and its
-- fields; the WeakSet and the WeakMap of the module are the list of bindings, newest first.
pub mod Permits
use drive_guard.Prelude.{
  ℕ, suc, String, Bool, true, false, not, ◌&&◌, Option, none, some, List, [], ◌∷◌, str_eq, ◌==◌,
  if◌then◌else◌,
}
use drive_guard.Js.{Js}
use drive_guard.Json.{Value}
use drive_guard.Prelude.Text.{is_safe_id, is_fingerprint}
use drive_guard.Context.{ContextSnapshot}
use drive_guard.Tools.{ToolDefinition}
use drive_guard.Policy.{Decision}

pub record ExecutionBinding : Type 0 where
  pub run_id : String
  pub session_id : String
  pub trace_id : String
  pub action_fingerprint : String
  pub context_snapshot_id : String
  pub context_version : ℕ

pub record Binding : Type 0 where
  pub definition : ℕ
  pub validated_arguments : Value
  pub execution_binding : Option ExecutionBinding
  pub consumed : Bool

pub record DecisionObject : Type 0 where
  pub ref : ℕ
  pub fields : Decision

-- `next` is the reference of the next object that the engine makes.
pub record Issued : Type 0 where
  pub next : ℕ
  pub bindings : List (ℕ × Binding)

-- The identity that a caller asks the engine to bind (`executionBinding` of the input).
pub record RequestedBinding : Type 0 where
  pub run_id : String
  pub session_id : String
  pub trace_id : String
  pub action_fingerprint : String

abbrev execution_identity : String → Bool
execution_identity = is_safe_id 255

abbrev bound : RequestedBinding → Option ContextSnapshot → Option ExecutionBinding
bound r none = none
bound r (some context) =
    if execution_identity r.run_id
      && execution_identity r.session_id
      && execution_identity r.trace_id
      && is_fingerprint r.action_fingerprint
    then some (record {
      run_id = r.run_id;
      session_id = r.session_id;
      trace_id = r.trace_id;
      action_fingerprint = r.action_fingerprint;
      context_snapshot_id = context.snapshot_id;
      context_version = context.context_version;
    })
    else none

abbrev pub execution_binding_of :
    Option RequestedBinding → Option ContextSnapshot → Option ExecutionBinding
execution_binding_of none context = none
execution_binding_of (some r) context = bound r context

-- A decision object without a binding.
abbrev pub unbound : Issued → Decision → DecisionObject × Issued
unbound s d = (record { ref = s.next; fields = d }, record s { next = suc s.next })

-- The end of the `try` of bindIssuedDecision, from what structuredClone gives of the arguments.
abbrev pub bind_cloned :
    Issued
    → Decision
    → ℕ
    → Option Value
    → Option ContextSnapshot
    → Option RequestedBinding
    → DecisionObject × Issued
bind_cloned s d definition none context requested = unbound s d
bind_cloned s d definition (some arguments) context requested = (
  record { ref = s.next; fields = d },
  record {
    next = suc s.next;
    bindings =
        (
          s.next,
          record {
            definition = definition;
            validated_arguments = arguments;
            execution_binding = execution_binding_of requested context;
            consumed = false;
          },
        )
        ∷ s.bindings;
  },
)

-- bindIssuedDecision, for an input whose definition is an object. `readable` is false where the
-- `try` throws while it reads the context and the execution identity; whatever throws in it, the
-- decision has no binding.
abbrev pub bind :
    Js
    → Issued
    → Decision
    → Bool
    → ℕ
    → Value
    → Option ContextSnapshot
    → Option RequestedBinding
    → DecisionObject × Issued
bind js s d readable definition arguments context requested =
    if readable
    then bind_cloned s d definition (js.structured_clone arguments) context requested
    else unbound s d

-- The same, for a typed definition.
unfoldable pub issue :
    Js
    → Issued
    → Decision
    → Bool
    → ToolDefinition
    → Value
    → Option ContextSnapshot
    → Option RequestedBinding
    → DecisionObject × Issued
issue js s d readable definition arguments context requested =
    bind js s d readable definition.ref arguments context requested

-- issuedPolicyDecisionBindings.get. An object that the engine has not made has no binding.
unfoldable pub find_binding : ℕ → List (ℕ × Binding) → Option Binding
find_binding ref [] = none
find_binding ref ((r, b) ∷ bs) = if r == ref then some b else find_binding ref bs

abbrev is_bound_to : Js → Option Binding → ToolDefinition → Value → Bool
is_bound_to js none definition arguments = false
is_bound_to js (some b) definition arguments =
    b.definition == definition.ref && js.is_deep_strict_equal b.validated_arguments arguments

-- isPolicyDecisionIssuedFor
unfoldable pub is_issued_for : Js → Issued → DecisionObject → ToolDefinition → Value → Bool
is_issued_for js s d definition arguments =
    is_bound_to js (find_binding d.ref s.bindings) definition arguments

-- isDeepStrictEqual of two execution bindings, which are plain objects of texts and a number
abbrev same_binding : Option ExecutionBinding → ExecutionBinding → Bool
same_binding none e = false
same_binding (some b) e =
    str_eq b.run_id e.run_id
    && str_eq b.session_id e.session_id
    && str_eq b.trace_id e.trace_id
    && str_eq b.action_fingerprint e.action_fingerprint
    && str_eq b.context_snapshot_id e.context_snapshot_id
    && b.context_version == e.context_version

abbrev is_bound_for : Option Binding → ExecutionBinding → Bool
is_bound_for none e = false
is_bound_for (some b) e = same_binding b.execution_binding e

-- isPolicyDecisionIssuedForExecution
unfoldable pub is_issued_for_execution :
    Js → Issued → DecisionObject → ToolDefinition → Value → ExecutionBinding → Bool
unfolding is_issued_for
is_issued_for_execution js s d definition arguments e =
    is_issued_for js s d definition arguments && is_bound_for (find_binding d.ref s.bindings) e

mark_consumed : ℕ → List (ℕ × Binding) → List (ℕ × Binding)
mark_consumed ref [] = []
mark_consumed ref ((r, b) ∷ bs) =
    let rest = mark_consumed ref bs in
    if r == ref then (r, record b { consumed = true }) ∷ bs else (r, b) ∷ rest

abbrev is_unconsumed : Option Binding → Bool
is_unconsumed none = false
is_unconsumed (some b) = not b.consumed

-- consumePolicyDecisionForExecution
unfoldable pub consume :
    Js → Issued → DecisionObject → ToolDefinition → Value → ExecutionBinding → Bool × Issued
unfolding is_issued_for_execution mark_consumed find_binding
consume js s d definition arguments e =
    if is_issued_for_execution js s d definition arguments e
      && is_unconsumed (find_binding d.ref s.bindings)
    then (true, record s { bindings = mark_consumed d.ref s.bindings })
    else (false, s)
