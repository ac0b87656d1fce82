-- ===== src/Lifecycle/Revalidation.antt =====
-- packages/action-lifecycle/src/revalidator.ts: ContextRevalidator. What the providers return is an
-- argument, and so are the three readings of the evaluator's clock.
pub mod Meaning
use drive_guard.Prelude.{
  ℕ, String, Bool, true, false, not, ◌||◌, Option, none, some, all, str_eq, ltb, if◌then◌else◌,
}
use drive_guard.Context.{ContextSnapshot}
use drive_guard.Context.Freshness.{FreshnessResult, Status, Latest, absent, evaluate}
use drive_guard.Context.Freshness
use drive_guard.Context.Conflict.{ConflictResult, detect_paths}
use drive_guard.Context.Conflict
use drive_guard.Tools.{ToolDefinition, Availability, has_capability, has_service}
use drive_guard.Policy.Profiles.{ToolPolicyProfile}
use drive_guard.Lifecycle.{PendingAction, same_risk}

pub data Reason : Type 0 where
  unchanged irrelevant_version_change context_stale context_not_latest context_future_timestamp
        relevant_state_changed unknown_relevant_path capability_unavailable service_unavailable
        tool_unavailable context_reload_failed :
      Reason

-- ActionRevalidationResult; `valid` is the status.
pub record Revalidation : Type 0 where
  pub valid : Bool
  pub reason : Reason
  pub current_context : Option ContextSnapshot
  pub freshness : Option FreshnessResult
  pub conflict : Option ConflictResult

pub record CurrentActionContext : Type 0 where
  pub snapshot : ContextSnapshot
  pub latest_context_version : Latest
  pub availability : Availability

abbrev pub replan :
    Reason → Option ContextSnapshot → Option FreshnessResult → Option ConflictResult → Revalidation
replan reason current freshness conflict = record {
  valid = false;
  reason = reason;
  current_context = current;
  freshness = freshness;
  conflict = conflict;
}

abbrev pub severity : Status → ℕ
severity Freshness.fresh = 0
severity Freshness.stale = 1
severity Freshness.not_latest = 2
severity Freshness.invalid_future_timestamp = 3

abbrev worse : FreshnessResult → FreshnessResult → FreshnessResult
worse selected candidate =
    if ltb (severity selected.status) (severity candidate.status) then candidate else selected

-- selectFreshness of three results; `none` is an exception from one of the evaluations.
select_freshness :
    Option FreshnessResult
    → Option FreshnessResult
    → Option FreshnessResult
    → Option FreshnessResult
select_freshness (some a) (some b) (some c) = some (worse (worse a b) c)
select_freshness _ _ _ = none

abbrev freshness_reason : Status → Reason
freshness_reason Freshness.stale = context_stale
freshness_reason Freshness.not_latest = context_not_latest
freshness_reason _ = context_future_timestamp

abbrev pub is_fresh : Status → Bool
is_fresh Freshness.fresh = true
is_fresh _ = false

-- The last steps: capabilities, services, and the verdict.
abbrev judge_availability :
    ToolDefinition → CurrentActionContext → FreshnessResult → ConflictResult → Reason → Revalidation
judge_availability definition current freshness conflict reason =
    if not (all (has_capability current.availability.capabilities) definition.required_capabilities)
    then replan capability_unavailable (some current.snapshot) (some freshness) (some conflict)
    else if not (all (has_service current.availability.services) definition.required_services)
    then replan service_unavailable (some current.snapshot) (some freshness) (some conflict)
    else record {
      valid = true;
      reason = reason;
      current_context = some current.snapshot;
      freshness = some freshness;
      conflict = some conflict;
    }

unfoldable pub judge_conflict :
    ToolDefinition
    → CurrentActionContext
    → FreshnessResult
    → ConflictResult
    → Conflict.Status
    → Revalidation
judge_conflict definition current freshness conflict Conflict.relevant_state_changed =
    replan relevant_state_changed (some current.snapshot) (some freshness) (some conflict)
judge_conflict definition current freshness conflict Conflict.unknown_relevant_path =
    replan unknown_relevant_path (some current.snapshot) (some freshness) (some conflict)
judge_conflict definition current freshness conflict Conflict.version_changed_but_irrelevant =
    judge_availability definition current freshness conflict irrelevant_version_change
judge_conflict definition current freshness conflict Conflict.no_conflict =
    judge_availability definition current freshness conflict unchanged

-- The three evaluations, at the capture of the snapshot and at the timestamps of its parts.
unfoldable pub evaluate_all :
    ℕ → ℕ → ℕ → CurrentActionContext → ToolPolicyProfile → Option FreshnessResult
unfolding select_freshness
evaluate_all t u v current profile =
    let q = profile.freshness_requirement in
    let latest = if q.requires_latest then current.latest_context_version else absent in
    let s = current.snapshot in
    select_freshness (evaluate t s q latest)
      (evaluate u (record s { captured_at = s.vehicle.timestamp }) q latest)
      (evaluate v (record s { captured_at = s.trip.timestamp }) q latest)

module _ (before : String → String → Bool) (action : PendingAction)
    (original : ContextSnapshot) where
  unfoldable pub judge_freshness :
      ToolPolicyProfile
      → ToolDefinition
      → CurrentActionContext
      → Option FreshnessResult
      → Revalidation
  unfolding judge_conflict
  judge_freshness profile definition current none =
      replan context_reload_failed (some current.snapshot) none none
  judge_freshness profile definition current (some freshness) =
      let conflict = detect_paths before original current.snapshot profile.relevant_context_paths in
      if is_fresh freshness.status
      then judge_conflict definition current freshness conflict conflict.status
      else replan (freshness_reason freshness.status) (some current.snapshot) (some freshness) none

  unfoldable pub judge_context :
      ℕ → ℕ → ℕ → ToolPolicyProfile → ToolDefinition → Option CurrentActionContext → Revalidation
  unfolding judge_freshness
  judge_context t u v profile definition none = replan context_reload_failed none none none
  judge_context t u v profile definition (some current) =
      if not (str_eq current.snapshot.user.user_id action.user_id)
        || not (str_eq current.snapshot.vehicle.vehicle_id action.vehicle_id)
      then replan relevant_state_changed (some current.snapshot) none none
      else judge_freshness profile definition current (evaluate_all t u v current profile)

  -- `revalidate`. `current` is what currentContextProvider returns, `none` if it throws.
  unfoldable pub revalidate :
      Option ToolPolicyProfile
      → Option ToolDefinition
      → Option CurrentActionContext
      → ℕ
      → ℕ
      → ℕ
      → Revalidation
  unfolding judge_context
  revalidate none definition current t u v = replan tool_unavailable none none none
  revalidate (some profile) none current t u v = replan tool_unavailable none none none
  revalidate (some profile) (some definition) current t u v =
      if not (str_eq definition.name action.tool_name)
        || not (same_risk definition.risk_level action.risk_level)
      then replan tool_unavailable none none none
      else judge_context t u v profile definition current
