-- ===== src/Lifecycle/Service/Settle.antt =====
-- The other methods of ConfirmationService on an existing action
-- (packages/action-lifecycle/src/service.ts): resumeReadyForExecution,
-- consumeExecutionAuthorization, reject, cancel and expire.
use drive_guard.Prelude.{String, Bool, not, ◌&&◌, Option, none, some, leb, ltb, if◌then◌else◌}
use drive_guard.Prelude.Sets.{includes}
use drive_guard.Prelude.Text.{is_fingerprint}
use drive_guard.Context.Freshness.{max_safe_integer}
use drive_guard.Exec.{Result, pure, raise, require, ◌>>=◌, ◌>>◌, throw_if}
use drive_guard.Policy.{formal_tool_names}
use drive_guard.Lifecycle.{
  ActionState, expired, rejected, cancelled, PendingAction, PendingActionRecord,
  ExecutionAuthorization, Fault, invalid_command, invalid_state, authorization_mismatch, EventType,
  confirmation_rejected, confirmation_expired_event, action_cancelled, is_ready, is_expired,
}
use drive_guard.Lifecycle.Integrity.{assert_record_integrity}
use drive_guard.Lifecycle.Consumption.{ConsumeCommand, verify}
use drive_guard.Lifecycle.Repository.{find, consume_authorization}
use drive_guard.Lifecycle.Service.{
  Env, Service, BoundCommand, safe_id, repository, to_utc, require_bound_command, require_awaiting,
  require_identity, now, emit, require_record, transition_at,
}

-- What an assertion returns or throws.
unfoldable pub check : {A : Type 0} → Result Fault A → Service A
check r w = (r, w)

module _ (env : Env) where
  abbrev pub ready_parts :
      PendingActionRecord
      → Option ExecutionAuthorization
      → Service (PendingAction × ExecutionAuthorization)
  ready_parts r none = raise invalid_state
  ready_parts r (some a) =
      if is_ready r.action.state then pure (r.action, a) else raise invalid_state

  -- `resumeReadyForExecution`
  unfoldable pub resume_ready_for_execution :
      BoundCommand → Service (PendingAction × ExecutionAuthorization)
  unfolding require_bound_command require_record require_identity check
  resume_ready_for_execution c = do
    require_bound_command c
    r ← require_record env c.action_id
    require_identity r c
    check (assert_record_integrity env.js r)
    ready_parts r r.authorization

  -- The guard of `consumeExecutionAuthorization`.
  unfoldable pub is_well_formed : ConsumeCommand → Bool
  is_well_formed c =
      safe_id c.action_id
      && safe_id c.session_id
      && safe_id c.user_id
      && safe_id c.vehicle_id
      && safe_id c.authorization_id
      && is_fingerprint c.action_fingerprint
      && includes formal_tool_names c.tool_name
      && safe_id c.context_snapshot_id
      && leb c.context_version max_safe_integer
      && leb 1 c.context_version

  -- `consumeExecutionAuthorization`
  unfoldable pub consume_execution_authorization : ConsumeCommand → Service ExecutionAuthorization
  unfolding is_well_formed repository now check to_utc
  consume_execution_authorization c = do
    throw_if (not (is_well_formed c)) authorization_mismatch
    found ← repository (find env.js c.action_id)
    r ← require authorization_mismatch found
    ms ← now env
    a ← check (verify env.js r c ms)
    at ← to_utc ms
    repository (consume_authorization env.js c.action_id at)
    pure a

  -- #terminal
  unfoldable pub terminal : BoundCommand → ActionState → EventType → Service PendingAction
  unfolding require_bound_command require_record require_awaiting require_identity now transition_at
      emit
  terminal c state event_type = do
    require_bound_command c
    r ← require_record env c.action_id
    require_awaiting r
    require_identity r c
    ms ← now env
    settled ← transition_at env c.action_id state ms
    emit env event_type settled
    pure settled.action

  -- `reject`
  unfoldable pub reject : BoundCommand → Service PendingAction
  unfolding terminal
  reject c = terminal c rejected confirmation_rejected

  -- `cancel`
  unfoldable pub cancel : BoundCommand → Service PendingAction
  unfolding terminal
  cancel c = terminal c cancelled action_cancelled

  unfoldable pub expire_waiting : String → PendingActionRecord → Service PendingAction
  unfolding require_awaiting now transition_at emit
  expire_waiting id r = do
    require_awaiting r
    ms ← now env
    throw_if (ltb ms r.action.expires_at) invalid_command
    settled ← transition_at env id expired ms
    emit env confirmation_expired_event settled
    pure settled.action

  -- `expire`
  unfoldable pub expire : String → Service PendingAction
  unfolding require_record expire_waiting
  expire id = do
    r ← require_record env id
    if is_expired r.action.state then pure r.action else expire_waiting id r
