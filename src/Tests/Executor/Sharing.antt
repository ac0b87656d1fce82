-- ===== src/Tests/Executor/Sharing.antt =====
-- Concurrency and idempotency keys of packages/executor/src on concrete histories.
use drive_guard.Prelude.{ℕ, ◌≡◌, refl, true, false, some, List, [], ◌∷◌}
use drive_guard.Prelude.Dict.{get}
use drive_guard.Executor.Concurrency.{Limits, Controller, new_controller}
use drive_guard.Executor.Concurrency.Bounds.{IsSoundController}
use drive_guard.Executor.Concurrency.Draining.{
  Call, acquires, times_out, releases, run, IsDrained, run-IsSoundController, run-IsDrained,
}
use drive_guard.Executor.Idempotency.{Idempotency, owner, duplicate, result_of, complete}
use drive_guard.Executor.Idempotency
use drive_guard.Executor.Idempotency.Owners
use drive_guard.Executor.Idempotency.Owners.{owner-run-acquire, complete-run-result}

abbrev limits : Limits
limits = record { max_read_concurrency = 1; max_write_concurrency = 2; max_queue = 2 }

-- Two side effects on a vehicle, a read, and what ends them.
abbrev calls : List Call
calls =
    acquires true "vehicle-1"
    ∷ acquires true "vehicle-1"
    ∷ acquires true "vehicle-2"
    ∷ acquires false "vehicle-1"
    ∷ releases 0
    ∷ releases 0
    ∷ times_out 2
    ∷ []

run-IsSoundController_example : IsSoundController limits (run limits calls new_controller)
run-IsSoundController_example = run-IsSoundController limits calls

run-IsDrained_example : IsDrained limits (run limits calls new_controller)
run-IsDrained_example = run-IsDrained limits calls

abbrev no_keys : Idempotency ℕ
no_keys = record { entries = []; settled = []; next = 0 }

first_owner : (Idempotency.acquire "key-1" "f-1" "b-1" no_keys).0 ≡ owner 0
unfolding Idempotency.acquire get
first_owner = refl

-- The owner completes, another request asks for the key, and one tries to release it.
abbrev between : List (Owners.Call ℕ)
between =
    Owners.completes 0 7
    ∷ Owners.acquires "key-1" "f-2" "b-2"
    ∷ Owners.releases "key-1" "f-2" "b-2"
    ∷ []

owner-run-acquire_example :
    (Idempotency.acquire "key-1" "f-1" "b-1"
      (Owners.run between (Idempotency.acquire "key-1" "f-1" "b-1" no_keys).1)).0
    ≡ duplicate 0
owner-run-acquire_example =
    owner-run-acquire "key-1" "f-1" "b-1" "f-1" "b-1" 0 between no_keys first_owner
      (tt, (tt, (refl, tt)))

complete-run-result_example :
    result_of 0 (Owners.run (Owners.completes 0 8 ∷ []) (Idempotency.complete 0 7 no_keys)).settled
    ≡ some 7
complete-run-result_example =
    complete-run-result 0 7 (Owners.completes 0 8 ∷ []) no_keys (unfold result_of in refl)

-- The second side effect waits for the vehicle, and starts when it is released.
abbrev served : Controller
served = run limits calls new_controller
