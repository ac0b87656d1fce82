-- ===== src/Executor/Run/Repeats/Calls.antt =====
-- How often execute (packages/executor/src/executor.ts) calls the tool of a request, whatever the
-- outside answers and whatever other executions do meanwhile.
use drive_guard.Prelude.{ℕ, ◌≤◌, ◌≡◌, sym, ◌∙◌, subst, true, some, [], arith, String}
use drive_guard.Exec.{Result, ok, err}
use drive_guard.Exec.Ends.{Ends, After, Ends-if, Ends-after, Ends-bind}
use drive_guard.Tools.{ToolDefinition, non_idempotent}
use drive_guard.Executor.{ErrorCode, ExecutionRequest, Thrown}
use drive_guard.Executor.Idempotency.{Acquisition, owner, duplicate, conflict}
use drive_guard.Executor.Run.{Env, World}
use drive_guard.Executor.Run.Calm.{
  IsCalm-pure, IsCalm-gets, IsCalm-awaited, IsCalm-on_records, IsCalm-on_idempotency,
  IsCalm-succeeds,
}
use drive_guard.Executor.Run.Calm.Parts.{IsCalm-now, create-IsOwnStore}
use drive_guard.Executor.Run.Execute.{admit, own, acquired, after_validation, execute}
use drive_guard.Executor.Run.Repeats.{calls_in, IsCareful, IsCareful-once}
use drive_guard.Executor.Run.Repeats.Executions.{
  Untouched, Bounded, Untouched-Bounded, idly, idly_done, bounded, run_owner-Ends,
}
use drive_guard.Executor.Run.Repeats.Requests.{
  IsValidated, validated-Ends, answer_conflict-IsCalm, answer_duplicate-IsCalm,
}

module _ (env : Env) (request : ExecutionRequest) (definition : ToolDefinition) where
  abbrev Start : World → Type 0
  Start = Untouched env request definition

  abbrev Bound : World → Type 0
  Bound = Bounded env request definition

  admit-Ends :
      (promise : ℕ) → Ends Start (admit env request definition promise) (λ r. Bound) (λ e. Bound)
  admit-Ends promise =
      Ends-bind (λ admitted. Start) (idly env request definition (IsCalm-awaited env env.admits))
        (λ admitted.
          Ends-bind (λ r. Bound) (run_owner-Ends env request definition admitted)
            (λ r. bounded env request definition (IsCalm-on_idempotency _)))

  own-Ends :
      (promise at : ℕ)
      → Ends Start (own env request definition promise at) (λ r. Bound) (λ e. Bound)
  own-Ends promise at =
      Ends-bind (λ made. Start)
        (idly env request definition
          (IsCalm-succeeds _ (IsCalm-on_records _ (create-IsOwnStore request at))))
        (λ made.
          Ends-if made (λ _. admit-Ends promise)
            (λ _. idly_done env request definition (IsCalm-on_idempotency _)))

  acquired-Ends :
      (at : ℕ) (a : Acquisition)
      → Ends Start (acquired env request definition at a) (λ r. Bound) (λ e. Bound)
  acquired-Ends at (owner promise) = own-Ends promise at
  acquired-Ends at (duplicate promise) =
      Ends-bind (λ found. Start) (idly env request definition (IsCalm-gets _))
        (λ found.
          idly_done env request definition (answer_duplicate-IsCalm env request found promise at))
  acquired-Ends at conflict =
      Ends-bind (λ found. Start) (idly env request definition (IsCalm-gets _))
        (λ found. idly_done env request definition (answer_conflict-IsCalm env request found at))

  module _ (named : env.definition_of request.tool_name ≡ some definition) where
    after_validation-at :
        (d : ToolDefinition) (binding : String) (at : ℕ)
        → d ≡ definition
        → Ends Start (after_validation env request at (ok (d, binding))) (λ r. Bound) (λ e. Bound)
    after_validation-at d binding at e =
        subst
          (λ k.
            Ends Start (after_validation env request at (ok (k, binding))) (λ r. Bound)
              (λ e. Bound))
          (sym e)
          (Ends-bind (λ a. Start) (idly env request definition (IsCalm-on_idempotency _))
            (λ a. acquired-Ends at a))

    some_eq : (d : ToolDefinition) → some d ≡ some definition → d ≡ definition
    some_eq d h = ground (arith, h)

    after_validation-Ends :
        (at : ℕ) (outcome : Result ErrorCode (ToolDefinition × String))
        → Ends
            (IsValidated env request outcome)
            (after_validation env request at outcome)
            (λ r. Bound)
            (λ e. Bound)
    after_validation-Ends at (err code) = idly_done env request definition (IsCalm-pure _)
    after_validation-Ends at (ok (d, binding)) = record {
      at = λ w p. (after_validation-at d binding at (some_eq d (sym p.1 ∙ named))).at w p.0;
    }

    execute-Ends : Ends Start (execute env request) (λ r. Bound) (λ e. Bound)
    unfolding execute
    execute-Ends =
        Ends-bind (λ at. Start) (idly env request definition (IsCalm-now env))
          (λ at.
            Ends-bind (IsValidated env request)
              (Ends-after (validated-Ends env request) (λ o w p. p)
                (λ e w p. Untouched-Bounded env request definition w p))
              (λ outcome. after_validation-Ends at outcome))

    both :
        {A : Type 0} (r : Result Thrown A) (w : World)
        → After (λ a. Bound) (λ e. Bound) r w
        → Bound w
    both (ok a) w p = p
    both (err e) w p = p

    execute-bounded : (w : World) → w.acts ≡ [] → Bound (execute env request w).1
    execute-bounded w p =
        both (execute env request w).0 (execute env request w).1 (execute-Ends.at w p)

    -- Whatever execute returns or throws, each call that it has made of the tool under the name of the
    -- request is the call of the request, under its idempotency key and with the next attempt number,
    -- and was only made first, after a failure that may be retried, or after a failure that left the
    -- side effect in doubt when the reconciler had answered NOT_EXECUTED and the tool is idempotent;
    -- `acts` is the history of the calls, empty before.
    pub execute-IsCareful :
        (w : World) → w.acts ≡ [] → IsCareful request definition (execute env request w).1.acts
    execute-IsCareful w p = (execute-bounded w p).0

    -- Whatever execute returns or throws, it has called the tool of the request no more often than the
    -- retry policy allows, from an empty history.
    pub execute-calls_le :
        (w : World)
        → w.acts ≡ []
        → calls_in (execute env request w).1.acts ≤ env.retry_policy.max_attempts
    execute-calls_le w p = (execute-bounded w p).1

    -- A tool with a side effect that is declared NON_IDEMPOTENT is called at most once by one execute,
    -- from an empty history, whatever fails and whatever the reconciler says.
    pub execute-once :
        definition.side_effect ≡ true
        → definition.idempotency_hint ≡ non_idempotent
        → (w : World) → w.acts ≡ []
        → calls_in (execute env request w).1.acts ≤ 1
    execute-once s h w p =
        IsCareful-once request definition (execute env request w).1.acts s h (execute-IsCareful w p)
