-- ===== src/Lifecycle/Service/Confirm.antt =====
-- ConfirmationService.confirm (packages/action-lifecycle/src/service.ts), stage by stage.
pub mod Conditions
use drive_guard.Prelude.{
  ℕ, ◌+◌, String, Bool, false, not, ◌&&◌, ◌||◌, Option, none, some, is_none, is_some, str_eq, leb,
  ltb, if◌then◌else◌,
}
use drive_guard.Prelude.Text.{js_length}
use drive_guard.Exec.{pure, raise, attempt, ◌>>=◌, ◌>>◌, throw_if}
use drive_guard.Context.{ContextSnapshot}
use drive_guard.Policy.Profiles.{get_profile}
use drive_guard.Lifecycle.{
  expired, replan_required, PendingAction, PendingActionRecord, ExecutionAuthorization,
  confirmation_token_invalid, confirmation_expired, confirmation_accepted,
  confirmation_expired_event, revalidation_started, revalidation_failed_event,
  ready_for_execution_event, is_confirmed, is_expired,
}
use drive_guard.Lifecycle.Integrity.{assert_record_integrity}
use drive_guard.Lifecycle.Repository.{accept_confirmation, authorize}
use drive_guard.Lifecycle.Revalidation.{Revalidation, replan, context_reload_failed, revalidate}
use drive_guard.Lifecycle.Service.{
  Env, Service, BoundCommand, outside, repository, to_utc, generated_id, require_bound_command,
  require_awaiting, require_identity, now, emit, require_record, transition_at,
  replan_after_boundary_failure,
}

-- ConfirmActionCommand
pub record ConfirmCommand : Type 0 where
  pub bound : BoundCommand
  pub open bound use *
  pub confirmation_token : String

-- ConfirmationOutcome
pub record Outcome : Type 0 where
  pub action : PendingAction
  pub authorization : Option ExecutionAuthorization
  pub revalidation : Revalidation

-- terminalRevalidation("CONTEXT_RELOAD_FAILED")
abbrev pub reload_failed : Revalidation
reload_failed = replan context_reload_failed none none none

-- safeHashEqual of two SHA-256 digests
abbrev pub same_hash : Option String → String → Bool
same_hash none h = false
same_hash (some g) h = str_eq g h

module _ (env : Env) where
  -- An action that was left CONFIRMED by a crash is planned again.
  unfoldable pub recover : String → Service Outcome
  unfolding now transition_at emit
  recover id = do
    ms ← now env
    r ← transition_at env id replan_required ms
    emit env revalidation_failed_event r
    pure (record { action = r.action; authorization = none; revalidation = reload_failed })

  unfoldable pub expire_now : String → ℕ → Service Outcome
  unfolding transition_at emit
  expire_now id ms = do
    r ← transition_at env id expired ms
    emit env confirmation_expired_event r
    raise confirmation_expired

  -- A repository may find at the acceptance that the action has expired.
  unfoldable pub reject_expired : PendingActionRecord → Service (Unit {0})
  unfolding emit
  reject_expired r = do emit env confirmation_expired_event r; raise confirmation_expired

  unfoldable pub announce : PendingActionRecord → Service (Unit {0})
  unfolding emit replan_after_boundary_failure
  announce r =
      attempt (do emit env confirmation_accepted r; emit env revalidation_started r)
        (λ e. do replan_after_boundary_failure env r; raise e)

  -- The call of the revalidator, which reads the clock once for each evaluation that it makes.
  unfoldable pub run_revalidator : PendingActionRecord → Service Revalidation
  unfolding outside now
  run_revalidator r = do
    current ← outside (λ n. env.current_context n r.action)
    t ← now env
    u ← now env
    v ← now env
    pure (
        revalidate env.js.before r.action r.original_context
          (get_profile env.profiles r.action.tool_name) (env.definition_of r.action.tool_name)
          current t u v)

  unfoldable pub decline : String → ℕ → Revalidation → Service Outcome
  unfolding transition_at emit
  decline id ms revalidation = do
    r ← transition_at env id replan_required ms
    emit env revalidation_failed_event r
    pure (record { action = r.action; authorization = none; revalidation = revalidation })

  -- The id of the authorization; if none can be made the action is planned again.
  unfoldable pub authorization_id_for : String → ℕ → Service String
  unfolding generated_id transition_at emit
  authorization_id_for id ms = attempt (generated_id env.authorization_id) (λ e. do
    r ← transition_at env id replan_required ms
    emit env revalidation_failed_event r
    raise e)

  abbrev authorization_or :
      Option ExecutionAuthorization → ExecutionAuthorization → ExecutionAuthorization
  authorization_or none a = a
  authorization_or (some b) a = b

  unfoldable pub issue :
      String → PendingActionRecord → String → ℕ → Revalidation → ContextSnapshot → Service Outcome
  unfolding to_utc authorization_id_for repository emit
  issue id r confirmation_id ms revalidation current = do
    issued_at ← to_utc ms
    authorization_id ← authorization_id_for id ms
    expires_at ← to_utc (ms + env.authorization_ttl_ms)
    let a : ExecutionAuthorization = record {
      authorization_id = authorization_id;
      action_id = r.action.action_id;
      action_fingerprint = r.action.action_fingerprint;
      tool_name = r.action.tool_name;
      risk_level = r.action.risk_level;
      confirmation_id = confirmation_id;
      policy_rule_id = r.action.policy_rule_id;
      context_snapshot_id = current.snapshot_id;
      context_version = current.context_version;
      issued_at = issued_at;
      expires_at = expires_at;
    }
    ready ← repository (authorize env.js id a issued_at)
    emit env ready_for_execution_event ready
    pure (record {
      action = ready.action;
      authorization = some (authorization_or ready.authorization a);
      revalidation = revalidation;
    })

  unfoldable pub settle :
      String
      → PendingActionRecord
      → String
      → ℕ
      → Revalidation
      → Option ContextSnapshot
      → Service Outcome
  unfolding decline issue
  settle id r confirmation_id ms revalidation none = decline id ms revalidation
  settle id r confirmation_id ms revalidation (some current) =
      if revalidation.valid
      then issue id r confirmation_id ms revalidation current
      else decline id ms revalidation

  -- From the acceptance on.
  unfoldable pub accept : String → ℕ → Service Outcome
  unfolding to_utc generated_id repository reject_expired announce run_revalidator now settle
  accept id ms = do
    confirmed_at ← to_utc ms
    confirmation_id ← generated_id env.confirmation_id
    r ← repository (accept_confirmation env.js id confirmation_id confirmed_at)
    (if is_expired r.action.state then reject_expired r else pure tt)
    announce r
    revalidation ← run_revalidator r
    completion_ms ← now env
    settle id r confirmation_id completion_ms revalidation revalidation.current_context

  unfoldable pub require_integrity : PendingActionRecord → Service (Unit {0})
  require_integrity r w = (assert_record_integrity env.js r, w)

  -- The checks of an action that still waits, at the time `ms`.
  unfoldable pub confirm_open : ConfirmCommand → PendingActionRecord → ℕ → Service Outcome
  unfolding require_identity require_integrity accept
  confirm_open c r ms = do
    require_identity r c.bound
    require_integrity r
    throw_if (not (same_hash r.token_hash (env.js.sha256 c.confirmation_token)))
        confirmation_token_invalid
    accept c.action_id ms

  unfoldable pub confirm_awaiting : ConfirmCommand → PendingActionRecord → Service Outcome
  unfolding require_awaiting now expire_now confirm_open
  confirm_awaiting c r = do
    require_awaiting r
    ms ← now env
    if leb r.action.expires_at ms then expire_now c.action_id ms else confirm_open c r ms

  -- `confirm`
  unfoldable pub confirm : ConfirmCommand → Service Outcome
  unfolding require_bound_command require_record recover confirm_awaiting
  confirm c = do
    require_bound_command c.bound
    throw_if (ltb (js_length c.confirmation_token) 1 || ltb 1024 (js_length c.confirmation_token))
        confirmation_token_invalid
    r ← require_record env c.action_id
    if is_confirmed r.action.state && is_none r.token_hash && is_some r.confirmation_id
        then recover c.action_id
        else confirm_awaiting c r
