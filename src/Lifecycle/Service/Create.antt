-- ===== src/Lifecycle/Service/Create.antt =====
-- ConfirmationService.create (packages/action-lifecycle/src/service.ts).
use drive_guard.Prelude.{
  ℕ, ◌+◌, String, Bool, false, not, ◌&&◌, ◌||◌, Option, none, some, [], ◌∷◌, str_eq, ltb,
  if◌then◌else◌,
}
use drive_guard.Prelude.Sets.{includes}
use drive_guard.Prelude.Text.{js_length}
use drive_guard.Exec.{pure, raise, require, attempt, ◌>>=◌, ◌>>◌, throw_if}
use drive_guard.Json.{Value}
use drive_guard.Context.{ContextSnapshot}
use drive_guard.Tools.{ToolDefinition}
use drive_guard.Policy.{formal_tool_names}
use drive_guard.Policy.Provenance.{Issued, DecisionObject, is_issued_for}
use drive_guard.Lifecycle.{
  awaiting_confirmation, cancelled, PendingAction, PendingActionRecord, invalid_command,
  internal_error, pending_created, action_cancelled, is_risky, same_risk,
}
use drive_guard.Lifecycle.Canonical.{create_action_fingerprint, create_confirmation_summary}
use drive_guard.Lifecycle.Integrity.{asks_confirmation, is_text, is_number}
use drive_guard.Lifecycle.Repository.{create, find, transition}
use drive_guard.Lifecycle.Service.{
  Env, Service, safe_id, outside, repository, to_utc, generated_id, now, emit,
}

-- CreatePendingActionCommand
pub record CreateCommand : Type 0 where
  pub definition : ToolDefinition
  pub validated_arguments : Value
  pub run_id : String
  pub session_id : String
  pub trace_id : String
  pub user_id : String
  pub vehicle_id : String
  pub policy_decision : DecisionObject
  pub context_snapshot : ContextSnapshot

-- PendingActionCreation; the challenge and the safe result repeat fields of the action.
pub record Creation : Type 0 where
  pub action : PendingAction
  pub confirmation_token : String

abbrev checked_token : Option String → Option String
checked_token none = none
checked_token (some t) = if ltb (js_length t) 8 || ltb 1024 (js_length t) then none else some t

module _ (env : Env) where
  -- The first guard of `create`; `issued` is what the Policy Engine has issued by then.
  unfoldable pub is_bound_decision : Issued → CreateCommand → Bool
  is_bound_decision issued c =
      let d = c.policy_decision.fields in
      asks_confirmation d.decision
      && is_issued_for env.js issued c.policy_decision c.definition c.validated_arguments
      && env.is_trusted_definition c.definition
      && str_eq d.tool_name c.definition.name
      && same_risk d.risk_level c.definition.risk_level
      && is_text d.context_snapshot_id c.context_snapshot.snapshot_id
      && is_number d.context_version c.context_snapshot.context_version
      && includes formal_tool_names c.definition.name
      && is_risky c.definition.risk_level

  unfoldable pub has_safe_ids : CreateCommand → Bool
  has_safe_ids c =
      safe_id c.run_id
      && safe_id c.session_id
      && safe_id c.trace_id
      && safe_id c.user_id
      && safe_id c.vehicle_id

  unfoldable pub is_own_context : CreateCommand → Bool
  is_own_context c =
      str_eq c.user_id c.context_snapshot.user.user_id
      && str_eq c.vehicle_id c.context_snapshot.vehicle.vehicle_id

  -- generatedToken
  unfoldable pub generated_token : Service String
  unfolding outside
  generated_token = do value ← outside env.token; require internal_error (checked_token value)

  unfoldable pub new_record :
      CreateCommand → String → ℕ → ℕ → String → String → String → PendingActionRecord
  new_record c id created_at expires_at summary fingerprint token = record {
    action = record {
      intent = record {
        action_id = id;
        tool_name = c.definition.name;
        validated_arguments = c.validated_arguments;
        risk_level = c.definition.risk_level;
        run_id = c.run_id;
        session_id = c.session_id;
        trace_id = c.trace_id;
        user_id = c.user_id;
        vehicle_id = c.vehicle_id;
        policy_rule_id = c.policy_decision.fields.rule_id;
        policy_decision = c.policy_decision.fields;
        context_snapshot_id = c.context_snapshot.snapshot_id;
        context_version = c.context_snapshot.context_version;
        created_at = created_at;
        expires_at = expires_at;
        action_fingerprint = fingerprint;
        confirmation_summary = summary;
      };
      state = awaiting_confirmation;
      updated_at = created_at;
      state_history =
          record { from = none; to = awaiting_confirmation; transitioned_at = created_at } ∷ [];
    };
    original_context = c.context_snapshot;
    token_hash = some (env.js.sha256 token);
    confirmation_id = none;
    authorization = none;
    authorization_consumed_at = none;
  }

  -- The event of the creation; if it is not delivered the action is cancelled.
  unfoldable pub announce : String → PendingActionRecord → Service (Unit {0})
  unfolding emit repository
  announce id stored = attempt (emit env pending_created stored) (λ e. do
    gone ← repository (transition env.js id cancelled stored.action.updated_at)
    attempt (emit env action_cancelled gone) (λ e'. pure tt)
    raise e)

  -- From the repository's `create` on.
  unfoldable pub persist : PendingActionRecord → String → Service Creation
  unfolding repository announce
  persist r token = do
    repository (create env.js r)
    found ← repository (find env.js r.action.action_id)
    stored ← require internal_error found
    announce r.action.action_id stored
    pure (record { action = stored.action; confirmation_token = token })

  -- Whether the arguments meet the contract of the tool.
  abbrev meets_contract : Option Bool → Bool
  meets_contract none = false
  meets_contract (some b) = b

  -- `create`
  unfoldable pub create_action : Issued → CreateCommand → Service Creation
  unfolding is_bound_decision has_safe_ids is_own_context now to_utc generated_id generated_token
      new_record persist
  create_action issued c = do
    throw_if (not (is_bound_decision issued c)) invalid_command
    throw_if (not (has_safe_ids c)) invalid_command
    throw_if (not (is_own_context c)) invalid_command
    ms ← now env
    created_at ← to_utc ms
    expires_at ← to_utc (ms + env.confirmation_ttl_ms)
    id ← generated_id env.action_id
    throw_if (not (meets_contract (c.definition.check c.validated_arguments))) invalid_command
    summary ← require invalid_command (
        create_confirmation_summary env.js c.definition.label c.definition.risk_level
          c.validated_arguments)
    fingerprint ← require invalid_command (
        create_action_fingerprint env.js (record {
          tool_name = c.definition.name;
          validated_arguments = c.validated_arguments;
          session_id = c.session_id;
          user_id = c.user_id;
          vehicle_id = c.vehicle_id;
          context_snapshot_id = c.context_snapshot.snapshot_id;
          context_version = c.context_snapshot.context_version;
        }))
    token ← generated_token
    persist (new_record c id created_at expires_at summary fingerprint token) token
