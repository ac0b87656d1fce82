-- ===== src/Tests/Executor/Recovery.antt =====
-- Recovery in packages/executor/src on concrete failures.
use drive_guard.Prelude.{ℕ, zero, suc, ◌<◌, ◌≡◌, ◌↔◌, ◌⊎◌, true, some, [], ◌∷◌, arith}
use drive_guard.Exec.{Result, ok, err}
use drive_guard.Tools.{idempotent}
use drive_guard.Executor.{Thrown, timeout}
use drive_guard.Executor.Recovery.{
  read, write, retry, not_executed, RecoveryInput, decide, is_transient_read, execute_read,
}
use drive_guard.Executor.Recovery.Decisions.{IsSafeToRepeat, retry_iff}
use drive_guard.Executor.Recovery.Reads.{
  IsFirstSuccess, execute_read_iff, IsAccounted, execute_read-IsAccounted,
}
use drive_guard.Tests.Executor.Fixtures.{unavailable}

-- A write that timed out, and did not happen.
abbrev timed_out : RecoveryInput
timed_out = record {
  operation_type = write;
  failure_type = timeout;
  idempotency_hint = idempotent;
  attempt = 1;
  max_attempts = 3;
  reconciliation_status = some not_executed;
}

retry_iff_example : ((decide timed_out).action ≡ retry) ↔ (
    (1 < 3)
    × (((write ≡ read) × (is_transient_read timeout ≡ true))
        ⊎ ((write ≡ write) × IsSafeToRepeat timed_out)))
retry_iff_example = retry_iff timed_out

-- The third call succeeds.
abbrev operation : ℕ → Result Thrown ℕ
operation zero = err unavailable
operation (suc zero) = err unavailable
operation (suc (suc zero)) = err unavailable
operation (suc (suc (suc n))) = ok 7

execute_read_iff_example :
    ((execute_read 3 (50 ∷ 150 ∷ []) operation).0 ≡ ok 7)
    ↔ ((n : ℕ) × IsFirstSuccess 3 (50 ∷ 150 ∷ []) operation 1 n 7)
execute_read_iff_example = execute_read_iff 3 (50 ∷ 150 ∷ []) operation 7

execute_read-IsAccounted_example :
    IsAccounted 3 (50 ∷ 150 ∷ []) operation (execute_read 3 (50 ∷ 150 ∷ []) operation)
execute_read-IsAccounted_example =
    execute_read-IsAccounted 3 (50 ∷ 150 ∷ []) operation (omega arith)
