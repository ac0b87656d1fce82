-- ===== src/Tests/Executor.antt =====
-- The circuit breaker of packages/executor/src on a concrete history.
pub mod Fixtures
mod Runs
mod Recovery
mod Sharing
use drive_guard.Prelude.{◌+◌, ◌≤◌, ◌≡◌, ◌≢◌, refl, ◌↔◌, ◌⊎◌, List, [], ◌∷◌, arith}
use drive_guard.Prelude.Dict.{get, put, remove}
use drive_guard.Executor.Circuit.{closed, opened, refused, probing, entry, acquire, failed}
use drive_guard.Executor.Circuit.Probes.{
  Call, acquires, succeeds, fails, perform, run, IsSoundBreaker, run-IsSoundBreaker, acquire_iff,
  acquire-run-acquire,
}

-- Two failures open the circuit of a key, of a breaker with the threshold 2.
abbrev failures : List Call
failures = fails 10 "reserve" ∷ fails 20 "reserve" ∷ []

run-IsSoundBreaker_example : IsSoundBreaker 2 100 (run 2 100 failures [])
run-IsSoundBreaker_example = run-IsSoundBreaker 2 100 failures (omega arith)

acquire_iff_example : ((acquire 100 120 "reserve" (run 2 100 failures [])).0 ≢ refused) ↔ (
    ((entry "reserve" (run 2 100 failures [])).state ≡ closed)
    ⊎ (((entry "reserve" (run 2 100 failures [])).state ≡ opened)
        × ((entry "reserve" (run 2 100 failures [])).opened_at + 100 ≤ 120)))
acquire_iff_example =
    acquire_iff 2 100 120 "reserve" (run 2 100 failures []) run-IsSoundBreaker_example

probe_granted : (acquire 100 120 "reserve" (run 2 100 failures [])).0 ≡ probing
unfolding run perform failed acquire entry get put remove
probe_granted = refl

acquire-run-acquire_example :
    (acquire 100 130 "reserve" (
      run 2 100
        (succeeds "other" ∷ acquires 125 "reserve" ∷ [])
        (perform 2 100 (acquires 120 "reserve") (run 2 100 failures [])))).0
    ≡ refused
acquire-run-acquire_example =
    acquire-run-acquire 2 100 "reserve" 120 130 (succeeds "other" ∷ acquires 125 "reserve" ∷ [])
      (run 2 100 failures []) probe_granted (refl, (tt, tt))
