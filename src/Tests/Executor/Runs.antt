-- ===== src/Tests/Executor/Runs.antt =====
-- Executions of packages/executor/src on concrete requests.
use drive_guard.Prelude.{ℕ, ◌≤◌, ◌≡◌, refl, Option, none, some, List, [], ◌∷◌, map, arith}
use drive_guard.Prelude.Dict.{get, put, remove}
use drive_guard.Exec.{Result, ok, err, ◌>>=◌, attempt, throw_if, modify}
use drive_guard.Context.Time.{to_utc_timestamp}
use drive_guard.Prelude.Text.{is_safe_id, is_fingerprint, split_dot, js_length}
use drive_guard.Executor.Idempotency
use drive_guard.Executor.Idempotency.{result_of}
use drive_guard.Executor.Circuit
use drive_guard.Lifecycle.Canonical.{join}
use drive_guard.Executor.{
  ExecutionState, created, succeeded, failed, outcome_unknown, AttemptOutcome, attempt_failed,
  attempt_succeeded, ExecutionRecord,
}
use drive_guard.Executor.Run.{
  ExecutionResult, on_idempotency, succeeds, circuit_key, on_records, on_circuits, outside,
  returned,
}
use drive_guard.Executor.Records.{
  new_record, create, transition, require_execution, moved_record, is_legal, add_attempt,
  tried_record,
}
use drive_guard.Executor.Recovery.{delay_for_retry}
use drive_guard.Executor.Run.Execute.{execute}
use drive_guard.Executor.Run.Owner.{execute_owner}
use drive_guard.Executor.Run.Repeats.{calls_in, IsCareful}
use drive_guard.Executor.Run.Repeats.Calls.{execute-IsCareful, execute-calls_le, execute-once}
use drive_guard.Executor.Run.Attempts.{run_rounds}
use drive_guard.Executor.Run.Repeats.Loop.{run_rounds-attempt_count}
use drive_guard.Executor.Run.Settles.{HasState}
use drive_guard.Executor.Run.Settles.Parts.{Settled}
use drive_guard.Executor.Run.Settles.Owner.{execute_owner-Settled}
use drive_guard.Tests.Fixtures.{reserve_slot}
use drive_guard.Tests.Executor.Fixtures.{
  request, repeatable_slot, env_of, clones_all, clones_arguments, world, created_world,
  running_world, original,
}

execute-IsCareful_example :
    IsCareful request repeatable_slot
      (execute (env_of repeatable_slot clones_all) request world).1.acts
execute-IsCareful_example =
    execute-IsCareful (env_of repeatable_slot clones_all) request repeatable_slot refl world refl

execute-calls_le_example :
    calls_in (execute (env_of repeatable_slot clones_all) request world).1.acts ≤ 3
execute-calls_le_example =
    execute-calls_le (env_of repeatable_slot clones_all) request repeatable_slot refl world refl

execute-once_example : calls_in (execute (env_of reserve_slot clones_all) request world).1.acts ≤ 1
execute-once_example =
    execute-once (env_of reserve_slot clones_all) request reserve_slot refl refl refl world refl

-- The record of the execution is made, and nothing else.
created_is_created : HasState request created created_world
unfolding get created_world
created_is_created = record {
  own = new_record request 1000;
  found = refl;
  state_eq = unfold new_record in refl;
}

execute_owner-Settled_example :
    (r : ExecutionResult) × ((execute_owner
        (env_of reserve_slot clones_all)
        request
        reserve_slot
        created_world).0
      ≡ ok r)
    × Settled
        (env_of reserve_slot clones_all)
        request
        (λ n. omega arith)
        (λ n m. refl)
        r
        (execute_owner (env_of reserve_slot clones_all) request reserve_slot created_world).1
execute_owner-Settled_example =
    execute_owner-Settled (env_of reserve_slot clones_all) request (λ n. omega arith) (λ n m. refl)
      reserve_slot (λ h. absurd (ground arith)) created_world created_is_created

abbrev status_of : {A : Type 0} → Result A ExecutionResult → Option ExecutionState
status_of (ok r) = some r.status
status_of (err e) = none

-- A run of the whole executor with a tool that answers the second attempt.
abbrev retried : Option ExecutionState
retried = status_of (execute (env_of repeatable_slot clones_all) request world).0

-- The tool that is not idempotent is not called again, although the reconciler answers NOT_EXECUTED.
abbrev not_retried : Option ExecutionState
not_retried = status_of (execute (env_of reserve_slot clones_all) request world).0

abbrev numbers_of : Option ExecutionRecord → List (ℕ × AttemptOutcome)
numbers_of none = []
numbers_of (some r) = map (λ a. (a.number, a.outcome)) r.attempts

-- The tool answers its second attempt, and structuredClone refuses the answer.
abbrev refused_clone : Option ExecutionState × List (ℕ × AttemptOutcome)
refused_clone =
    let (r, w) = execute (env_of repeatable_slot clones_arguments) request world in
    (status_of r, numbers_of (get "execution-1" w.records))

runs_end :
    (retried ≡ some succeeded)
    × (not_retried ≡ some outcome_unknown)
    × (refused_clone
        ≡ (some failed, (1, attempt_failed) ∷ (2, attempt_succeeded) ∷ (2, attempt_failed) ∷ []))
unfolding execute ◌>>=◌ to_utc_timestamp attempt throw_if modify is_safe_id is_fingerprint
    on_idempotency Idempotency.acquire Idempotency.complete get put remove succeeds create
    new_record transition require_execution moved_record is_legal add_attempt tried_record
    delay_for_retry result_of split_dot js_length circuit_key join on_records on_circuits outside
    returned Circuit.acquire Circuit.succeeded Circuit.failed
runs_end = (refl, refl, refl)

abbrev result_of_run : {A : Type 0} → Result A ExecutionResult → ExecutionResult
result_of_run (ok r) = r
result_of_run (err e) = original

abbrev run_result : ExecutionResult
run_result =
    result_of_run
      (run_rounds (env_of repeatable_slot clones_all) request repeatable_slot running_world).0

run_returns :
    (run_rounds (env_of repeatable_slot clones_all) request repeatable_slot running_world).0
    ≡ ok run_result
unfolding run_rounds running_world ◌>>=◌ to_utc_timestamp attempt throw_if modify is_safe_id
    is_fingerprint on_idempotency Idempotency.acquire Idempotency.complete get put remove succeeds
    create new_record transition require_execution moved_record is_legal add_attempt tried_record
    delay_for_retry result_of split_dot js_length circuit_key join on_records on_circuits outside
    returned Circuit.acquire Circuit.succeeded Circuit.failed
run_returns = refl

run_rounds-attempt_count_example :
    run_result.attempt_count
    ≡ calls_in
        (run_rounds
          (env_of repeatable_slot clones_all)
          request
          repeatable_slot
          running_world).1.acts
run_rounds-attempt_count_example =
    run_rounds-attempt_count (env_of repeatable_slot clones_all) request repeatable_slot
      running_world run_result (unfold running_world in refl) run_returns
