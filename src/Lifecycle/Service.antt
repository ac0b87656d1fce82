-- ===== src/Lifecycle/Service.antt =====
-- packages/action-lifecycle/src/service.ts: the state of ConfirmationService, what it takes from
-- outside, and the private helpers that its methods share.
pub mod Create
pub mod Confirm
pub mod Settle
use drive_guard.Prelude.{
  ℕ, suc, ◌+◌, String, Bool, not, ◌&&◌, ◌||◌, Option, none, some, List, [], ◌∷◌, ◌++◌, str_eq,
  if◌then◌else◌,
}
use drive_guard.Prelude.Text.{is_safe_id}
use drive_guard.Exec.{ok, Exec, pure, raise, require, attempt, ◌>>=◌, ◌>>◌, throw_if, modify}
use drive_guard.Js.{Js}
use drive_guard.Context.Time.{to_utc_timestamp}
use drive_guard.Tools.{ToolDefinition}
use drive_guard.Policy.Profiles.{ToolPolicyProfile}
use drive_guard.Lifecycle.{
  ActionState, replan_required, PendingAction, PendingActionRecord, Fault, invalid_command,
  action_not_found, invalid_state, confirmation_identity_mismatch, internal_error, domain_error,
  EventType, revalidation_failed_event, is_awaiting, is_confirmed,
}
use drive_guard.Lifecycle.Repository.{Records, Repo, transition, find}
use drive_guard.Lifecycle.Revalidation.{CurrentActionContext}

pub record Event : Type 0 where
  pub event_type : EventType
  pub event_id : String
  pub run_id : String
  pub session_id : String
  pub trace_id : String
  pub action_id : String
  pub tool_name : String
  pub timestamp : ℕ
  pub state : ActionState

-- `calls` counts the calls of the clock, the generators, the event sink and the context provider.
pub record World : Type 0 where
  pub records : Records
  pub events : List Event
  pub calls : ℕ

-- What the service takes from outside. Each function answers the n-th outside call; `none` is an
-- exception. `delivers` says whether the event sink accepts.
pub record Env : Type 0 where
  pub js : Js
  pub now_ms : ℕ → ℕ
  pub delivers : ℕ → Bool
  pub action_id : ℕ → Option String
  pub confirmation_id : ℕ → Option String
  pub authorization_id : ℕ → Option String
  pub event_id : ℕ → Option String
  pub token : ℕ → Option String
  pub current_context : ℕ → PendingAction → Option CurrentActionContext
  pub definition_of : String → Option ToolDefinition
  pub profiles : List ToolPolicyProfile
  pub is_trusted_definition : ToolDefinition → Bool
  pub confirmation_ttl_ms : ℕ
  pub authorization_ttl_ms : ℕ

abbrev pub Service : Type 0 → Type 0
Service A = Exec World Fault A

-- BoundActionCommand
pub record BoundCommand : Type 0 where
  pub action_id : String
  pub session_id : String
  pub user_id : String

-- safeIdPattern
abbrev pub safe_id : String → Bool
safe_id = is_safe_id 127

unfoldable pub outside : {A : Type 0} → (ℕ → A) → Service A
outside f w = (ok (f w.calls), record w { calls = suc w.calls })

unfoldable pub repository : {A : Type 0} → Repo A → Service A
repository m w = let (r, records) = m w.records in (r, record w { records = records })

unfoldable pub to_utc : ℕ → Service ℕ
to_utc ms = require domain_error (to_utc_timestamp ms)

abbrev checked_id : Option String → Option String
checked_id none = none
checked_id (some id) = if safe_id id then some id else none

-- generatedId
unfoldable pub generated_id : (ℕ → Option String) → Service String
unfolding outside
generated_id factory = do value ← outside factory; require internal_error (checked_id value)

-- requireBoundCommand
unfoldable pub require_bound_command : BoundCommand → Service (Unit {0})
require_bound_command c =
    throw_if (not (safe_id c.action_id && safe_id c.session_id && safe_id c.user_id))
      invalid_command

-- #requireAwaiting
unfoldable pub require_awaiting : PendingActionRecord → Service (Unit {0})
require_awaiting r = throw_if (not (is_awaiting r.action.state)) invalid_state

-- #requireIdentity
unfoldable pub require_identity : PendingActionRecord → BoundCommand → Service (Unit {0})
require_identity r c =
    throw_if
      (not (str_eq r.action.session_id c.session_id) || not (str_eq r.action.user_id c.user_id))
      confirmation_identity_mismatch

module _ (env : Env) where
  unfoldable pub now : Service ℕ
  unfolding outside
  now = outside env.now_ms

  abbrev pub deliver : Bool → Event → Service (Unit {0})
  deliver delivered event =
      if delivered
      then modify (λ w. record w { events = w.events ++ event ∷ [] })
      else raise internal_error

  -- #emit. The reason of an event is left out.
  unfoldable pub emit : EventType → PendingActionRecord → Service (Unit {0})
  unfolding generated_id now to_utc outside
  emit event_type r = do
    event_id ← generated_id env.event_id
    ms ← now
    timestamp ← to_utc ms
    delivered ← outside env.delivers
    deliver delivered (record {
      event_type = event_type;
      event_id = event_id;
      run_id = r.action.run_id;
      session_id = r.action.session_id;
      trace_id = r.action.trace_id;
      action_id = r.action.action_id;
      tool_name = r.action.tool_name;
      timestamp = timestamp;
      state = r.action.state;
    })

  -- #require
  unfoldable pub require_record : String → Service PendingActionRecord
  unfolding repository
  require_record id = do found ← repository (find env.js id); require action_not_found found

  -- The transition of a repository, at a time that is first made a timestamp.
  unfoldable pub transition_at : String → ActionState → ℕ → Service PendingActionRecord
  unfolding to_utc repository
  transition_at id next ms = do at ← to_utc ms; repository (transition env.js id next at)

  -- The rest of #replanAfterBoundaryFailure, for a confirmed action.
  unfoldable pub replan_confirmed : PendingActionRecord → Service (Unit {0})
  unfolding now transition_at emit
  replan_confirmed r = do
    ms ← now
    replanned ← transition_at r.action.action_id replan_required ms
    attempt (emit revalidation_failed_event replanned) (λ e. pure tt)

  -- #replanAfterBoundaryFailure
  unfoldable pub replan_after_boundary_failure : PendingActionRecord → Service (Unit {0})
  unfolding replan_confirmed
  replan_after_boundary_failure r =
      if is_confirmed r.action.state then replan_confirmed r else pure tt
