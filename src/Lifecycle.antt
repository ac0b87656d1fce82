-- ===== src/Lifecycle.antt =====
-- packages/action-lifecycle/src: the data of a side effect that waits for its confirmation
-- (types.ts, errors.ts, events.ts, and PendingActionRecord of repository.ts).
pub mod Canonical
pub mod State
pub mod Integrity
pub mod Repository
pub mod Consumption
pub mod Revalidation
pub mod Service
pub mod Evolution
use drive_guard.Prelude.{ℕ, String, Bool, true, false, Option, List}
use drive_guard.Json.{Value}
use drive_guard.Context.{ContextSnapshot}
use drive_guard.Policy.{RiskLevel, Decision}

pub data ActionState : Type 0 where
  awaiting_confirmation confirmed ready_for_execution cancelled expired replan_required rejected :
      ActionState

pub record Transition : Type 0 where
  pub from : Option ActionState
  pub to : ActionState
  pub transitioned_at : ℕ

-- ActionIntent: what does not change after creation.
pub record ActionIntent : Type 0 where
  pub action_id : String
  pub tool_name : String
  pub validated_arguments : Value
  pub risk_level : RiskLevel
  pub run_id : String
  pub session_id : String
  pub trace_id : String
  pub user_id : String
  pub vehicle_id : String
  pub policy_rule_id : String
  pub policy_decision : Decision
  pub context_snapshot_id : String
  pub context_version : ℕ
  pub created_at : ℕ
  pub expires_at : ℕ
  pub action_fingerprint : String
  pub confirmation_summary : String

pub record PendingAction : Type 0 where
  pub intent : ActionIntent
  pub open intent use *
  pub state : ActionState
  pub updated_at : ℕ
  pub state_history : List Transition

pub record ExecutionAuthorization : Type 0 where
  pub authorization_id : String
  pub action_id : String
  pub action_fingerprint : String
  pub tool_name : String
  pub risk_level : RiskLevel
  pub confirmation_id : String
  pub policy_rule_id : String
  pub context_snapshot_id : String
  pub context_version : ℕ
  pub issued_at : ℕ
  pub expires_at : ℕ

pub record PendingActionRecord : Type 0 where
  pub action : PendingAction
  pub original_context : ContextSnapshot
  pub token_hash : Option String
  pub confirmation_id : Option String
  pub authorization : Option ExecutionAuthorization
  pub authorization_consumed_at : Option ℕ

-- The codes of ActionLifecycleError, and the DomainValidationError of a timestamp out of range.
pub data Fault : Type 0 where
  invalid_command action_not_found invalid_transition invalid_state confirmation_token_invalid
        confirmation_expired confirmation_identity_mismatch action_integrity_failed
        revalidation_failed authorization_already_issued authorization_expired
        authorization_already_used authorization_mismatch internal_error domain_error :
      Fault

pub data EventType : Type 0 where
  pending_created confirmation_accepted confirmation_rejected confirmation_expired_event
        revalidation_started revalidation_failed_event ready_for_execution_event action_cancelled :
      EventType

abbrev pub is_awaiting : ActionState → Bool
is_awaiting awaiting_confirmation = true
is_awaiting _ = false

abbrev pub is_confirmed : ActionState → Bool
is_confirmed confirmed = true
is_confirmed _ = false

abbrev pub is_ready : ActionState → Bool
is_ready ready_for_execution = true
is_ready _ = false

abbrev pub is_expired : ActionState → Bool
is_expired expired = true
is_expired _ = false

abbrev pub is_risky : RiskLevel → Bool
is_risky RiskLevel.r2 = true
is_risky RiskLevel.r3 = true
is_risky _ = false

abbrev pub same_risk : RiskLevel → RiskLevel → Bool
same_risk RiskLevel.r0 RiskLevel.r0 = true
same_risk RiskLevel.r1 RiskLevel.r1 = true
same_risk RiskLevel.r2 RiskLevel.r2 = true
same_risk RiskLevel.r3 RiskLevel.r3 = true
same_risk RiskLevel.unknown_risk RiskLevel.unknown_risk = true
same_risk _ _ = false
