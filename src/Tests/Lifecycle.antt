-- ===== src/Tests/Lifecycle.antt =====
-- The service of packages/action-lifecycle/src on concrete records.
use drive_guard.Prelude.{String, ◌≡◌, ◌≢◌, refl, ◌↔◌, true, none, some, [], ◌∷◌, arith}
use drive_guard.Prelude.Dict.{get, put, remove}
use drive_guard.Exec.{Result, ok, err, ◌>>=◌, throw_if, gets, modify, pure, raise, require, attempt}
use drive_guard.Prelude.Text.{is_safe_id, is_fingerprint, js_length, split_dot}
use drive_guard.Prelude.Sets.{includes, sort, unique, keep}
use drive_guard.Context.Freshness.{evaluate}
use drive_guard.Context.Conflict.{
  detect_paths, detect_version_changes, is_known_path, has_changed_at, value_at,
}
use drive_guard.Context.Conflict.Values.{deep_equal, read_path, to_value}
use drive_guard.Context.Time.{to_utc_timestamp}
use drive_guard.Lifecycle.Canonical.{create_action_fingerprint, canonical, join, sort_entries}
use drive_guard.Lifecycle.Integrity.{
  assert_action_integrity, assert_record_integrity, matches_decision, matches_context,
}
use drive_guard.Lifecycle.Repository
use drive_guard.Lifecycle.Repository.{
  accept_confirmation, find, clone_record, store, consume_authorization,
}
use drive_guard.Lifecycle.{
  ActionState, awaiting_confirmation, ready_for_execution, PendingActionRecord, PendingAction,
  ExecutionAuthorization, rejected, Fault,
}
use drive_guard.Lifecycle.State.{transition_pending_action, allowed_action_transitions}
use drive_guard.Lifecycle.State.History.{created, moved, confirms, readies, transition_iff, IsMoved}
use drive_guard.Lifecycle.Consumption.{verify, matches_command}
use drive_guard.Lifecycle.Consumption.Meaning.{IsConsumable, verify_iff}
use drive_guard.Lifecycle.Service.{
  require_awaiting, require_identity, require_bound_command, emit, generated_id, now, outside,
  repository, to_utc,
}
use drive_guard.Lifecycle.Service.Confirm.{
  confirm, Outcome, reload_failed, confirm_awaiting, confirm_open, require_integrity, announce,
  run_revalidator, issue, authorization_id_for,
}
use drive_guard.Lifecycle.Service.Confirm
use drive_guard.Lifecycle.Service.Confirm.Conditions.{IsConfirmable, confirm-IsConfirmable}
use drive_guard.Lifecycle.Service.Settle.{check, is_well_formed, consume_execution_authorization}
use drive_guard.Lifecycle.Evolution.{Step, done, followed, IsBoundTo, IsEvolution}
use drive_guard.Lifecycle.Evolution
use drive_guard.Lifecycle.Evolution.Invariant.{IsSound, Steps-IsSound}
use drive_guard.Lifecycle.Evolution.Guarantees.{IsOpen, waiting, accepted}
use drive_guard.Lifecycle.Service.{World}
use drive_guard.Lifecycle.Evolution.Runs.{
  consumes, cancels, perform, run, IsSoundWorld, run-IsEvolution, run-intent, run-closed, run-used,
  empty_world, run-IsSound, consume-run-consume,
}
use drive_guard.Lifecycle.Revalidation.{
  judge_context, judge_freshness, judge_conflict, evaluate_all, Revalidation, revalidate,
  CurrentActionContext,
}
use drive_guard.Lifecycle.Revalidation.Meaning.{IsStillValid, revalidate_iff}
use drive_guard.Policy.Profiles.{ToolPolicyProfile, get_profile, tool_policy_profiles}
use drive_guard.Tools.{has_capability, has_service, ToolDefinition}
use drive_guard.Tests.Fixtures.{
  reserve_slot, current, snapshot, js, env, awaiting_action, awaiting_record, ready_action,
  ready_record, authorization, consume_command, confirm_command, awaiting_world, ready_world,
}

ready-IsBoundTo : IsBoundTo authorization ready_record
ready-IsBoundTo = record {
  action_id = refl;
  action_fingerprint = refl;
  tool_name = refl;
  risk_level = refl;
  policy_rule_id = refl;
  confirmation_id = refl;
}

ready-IsSound : IsSound ready_record
ready-IsSound = record {
  waits = λ h. absurd (ground arith);
  confirms = λ h. refl;
  readied = λ h. (authorization, refl);
  authorized = λ a h. (refl, rw⁻¹ (same h) ready-IsBoundTo);
  used = λ at h. refl;
  history = moved 2000 (moved 2000 (created 1000) confirms) readies;
}
  where
    same : {a : ExecutionAuthorization} → some authorization ≡ some a → authorization ≡ a
    same h = ground arith

ready-IsSoundWorld : IsSoundWorld ready_world
unfolding get
ready-IsSoundWorld = record { sound = λ id r h. rw (from_get id r h) ready-IsSound }
  where
    from_get :
        (id : String) (r : PendingActionRecord)
        → get id ready_world.records ≡ some r
        → r ≡ ready_record
    from_get id r h = ground arith

consume_outcome :
    (consume_execution_authorization env consume_command ready_world).0 ≡ ok authorization
unfolding consume_execution_authorization ◌>>=◌ throw_if gets modify pure raise require is_safe_id
    is_fingerprint includes find get put remove clone_record assert_record_integrity
    assert_action_integrity create_action_fingerprint canonical matches_decision join sort_entries
    matches_context verify matches_command to_utc_timestamp consume_authorization store
    drive_guard.Lifecycle.Repository.require_record check is_well_formed now outside repository
    to_utc
consume_outcome = refl

consume-run-consume_example :
    (consume_execution_authorization env consume_command
      (run env [] (perform env (consumes consume_command) ready_world))).0
    ≢ ok authorization
consume-run-consume_example =
    consume-run-consume env consume_command consume_command [] ready_world authorization
      authorization ready-IsSoundWorld refl consume_outcome

verify_iff_example :
    (verify js ready_record consume_command 2000 ≡ ok authorization)
    ↔ IsConsumable js ready_record consume_command 2000 authorization
verify_iff_example = verify_iff js ready_record consume_command 2000 authorization

run-IsEvolution_example :
    IsEvolution ready_world.records (run env (consumes consume_command ∷ []) ready_world).records
run-IsEvolution_example = run-IsEvolution env (consumes consume_command ∷ []) ready_world

abbrev used_record : PendingActionRecord
used_record = record ready_record { authorization_consumed_at = some 2000 }

use_step : Step ready_record used_record
use_step = Evolution.consume authorization 2000 refl refl refl refl

abbrev rejected_action : PendingAction
rejected_action = record awaiting_action {
  state = rejected;
  updated_at = 1500;
  state_history =
      record { from = none; to = awaiting_confirmation; transitioned_at = 1000 }
      ∷ record { from = some awaiting_confirmation; to = rejected; transitioned_at = 1500 }
      ∷ [];
}

reject_step : Step awaiting_record (record awaiting_record { action = rejected_action })
unfolding transition_pending_action allowed_action_transitions
reject_step = Evolution.settle rejected 1500 rejected_action refl refl refl refl

transition_iff_example :
    (transition_pending_action awaiting_action rejected 1500 ≡ some rejected_action)
    ↔ IsMoved awaiting_action rejected 1500 rejected_action
transition_iff_example = transition_iff awaiting_action rejected_action rejected 1500

found_ready : get "action-1" ready_world.records ≡ some ready_record
unfolding get
found_ready = refl

run-intent_example :
    (s : PendingActionRecord) × (get "action-1"
        (run env (consumes consume_command ∷ []) ready_world).records
      ≡ some s)
    × (s.action.intent ≡ ready_action.intent)
    × (s.original_context ≡ ready_record.original_context)
run-intent_example =
    run-intent env (consumes consume_command ∷ []) ready_world "action-1" ready_record found_ready

ready-closed : IsOpen ready_for_execution → ⊥
ready-closed h = not_open h refl
  where
    not_open : {s : ActionState} → IsOpen s → s ≡ ready_for_execution → ⊥
    not_open waiting e = ground arith
    not_open accepted e = ground arith

run-closed_example :
    (s : PendingActionRecord) × (get "action-1"
        (run env (cancels confirm_command.bound ∷ []) ready_world).records
      ≡ some s)
    × (s.action ≡ ready_action)
    × (s.authorization ≡ some authorization)
run-closed_example =
    run-closed env (cancels confirm_command.bound ∷ []) ready_world "action-1" ready_record
      found_ready ready-closed

abbrev used_world : World
used_world = record { records = ("action-1", used_record) ∷ []; events = []; calls = 0 }

used-IsSoundWorld : IsSoundWorld used_world
unfolding get
used-IsSoundWorld = record {
  sound = λ id r h. rw (from_get id r h) (Steps-IsSound (followed done use_step) ready-IsSound);
}
  where
    from_get :
        (id : String) (r : PendingActionRecord)
        → get id used_world.records ≡ some r
        → r ≡ used_record
    from_get id r h = ground arith

found_used : get "action-1" used_world.records ≡ some used_record
unfolding get
found_used = refl

run-used_example :
    get "action-1" (run env (consumes consume_command ∷ []) used_world).records ≡ some used_record
run-used_example =
    run-used env (consumes consume_command ∷ []) used_world "action-1" used_record 2000
      used-IsSoundWorld found_used refl

run-IsSound_example :
    IsSoundWorld
      (run env (consumes consume_command ∷ cancels confirm_command.bound ∷ []) (empty_world 0))
run-IsSound_example =
    run-IsSound env (consumes consume_command ∷ cancels confirm_command.bound ∷ []) 0

abbrev revalidation : Revalidation
revalidation =
    revalidate js.before awaiting_action (snapshot 1000 1 "CLOSED")
      (get_profile tool_policy_profiles "reserve_charging_slot") (some reserve_slot) (some current)
      2000 2000 2000

revalidation_valid : revalidation.valid ≡ true
unfolding revalidate judge_context judge_freshness judge_conflict get_profile tool_policy_profiles
    evaluate_all evaluate detect_paths detect_version_changes sort unique keep includes
    is_known_path has_changed_at value_at deep_equal read_path split_dot to_value has_capability
    has_service
revalidation_valid = refl

revalidate_iff_example : (revalidation.valid ≡ true) ↔ (
    (p : ToolPolicyProfile) × (d : ToolDefinition) × (c : CurrentActionContext) × (get_profile
        tool_policy_profiles "reserve_charging_slot"
      ≡ some p)
    × (some reserve_slot ≡ some d)
    × (some current ≡ some c)
    × IsStillValid js.before awaiting_action (snapshot 1000 1 "CLOSED") p d c 2000 2000 2000)
revalidate_iff_example =
    revalidate_iff js.before awaiting_action (snapshot 1000 1 "CLOSED")
      (get_profile tool_policy_profiles "reserve_charging_slot") (some reserve_slot) (some current)
      2000 2000 2000

abbrev returned_or : Result Fault Outcome → Outcome → Outcome
returned_or (ok o) p = o
returned_or (err e) p = p

abbrev no_outcome : Outcome
no_outcome = record { action = awaiting_action; authorization = none; revalidation = reload_failed }

abbrev outcome : Outcome
outcome = returned_or (confirm env confirm_command awaiting_world).0 no_outcome

confirm-outcome :
    ((confirm env confirm_command awaiting_world).0 ≡ ok outcome)
    × (outcome.authorization ≡ some authorization)
unfolding confirm confirm_awaiting confirm_open require_awaiting require_identity require_integrity
    require_bound_command drive_guard.Lifecycle.Service.Confirm.accept accept_confirmation announce
    attempt emit run_revalidator drive_guard.Lifecycle.Service.Confirm.settle issue
    drive_guard.Lifecycle.Repository.authorize authorization_id_for ◌>>=◌ throw_if gets modify pure
    raise require is_safe_id is_fingerprint includes find get put remove clone_record
    assert_record_integrity assert_action_integrity create_action_fingerprint canonical
    matches_decision join sort_entries matches_context to_utc_timestamp store
    transition_pending_action allowed_action_transitions
    drive_guard.Lifecycle.Repository.require_record drive_guard.Lifecycle.Service.require_record now
    outside repository to_utc generated_id js_length revalidate judge_context judge_freshness
    judge_conflict get_profile tool_policy_profiles evaluate_all evaluate detect_paths
    detect_version_changes sort unique keep is_known_path has_changed_at value_at deep_equal
    read_path split_dot to_value has_capability has_service
confirm-outcome = (refl, refl)

confirm-IsConfirmable_example :
    ((r : PendingActionRecord) × IsConfirmable env awaiting_world confirm_command r)
    × (outcome.revalidation.valid ≡ true)
confirm-IsConfirmable_example =
    confirm-IsConfirmable env confirm_command awaiting_world outcome authorization confirm-outcome.0
      confirm-outcome.1
