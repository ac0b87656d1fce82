-- ===== src/Executor/Run/Settles/Owner.antt =====
-- #executeOwner (packages/executor/src/executor.ts) settles the execution that it is called for.
use drive_guard.Prelude.{true, false, Option, none, some, is_some, ◌≡◌, refl, arith}
use drive_guard.Exec.{Result, ok, err, require}
use drive_guard.Exec.Ends.{Ends, After, Ends-pure, Ends-if, Ends-bind}
use drive_guard.Tools.{ToolDefinition}
use drive_guard.Lifecycle.Consumption.{ConsumeCommand}
use drive_guard.Executor.{Thrown, created, running, ExecutionRequest}
use drive_guard.Executor.Records.{is_legal}
use drive_guard.Executor.Run.{Env, Executing, World, ExecutionResult}
use drive_guard.Executor.Run.Binding.{policy_execution_binding}
use drive_guard.Executor.Run.Owner.{
  is_allow, is_low_risk, start, unless_refused, with_command, with_permit, execute_owner,
}
use drive_guard.Executor.Run.Settles.{
  IsClock, LeavesOwn, HasState, Returns-on_issued, transition-Ends,
}
use drive_guard.Executor.Run.Settles.Parts.{
  Settled, Returns-awaited, Returns-now, Returns-tell, reject-Settled,
}
use drive_guard.Executor.Run.Settles.Failures.{finish-Finishes}
use drive_guard.Executor.Run.Settles.Rounds.{run_rounds-Finishes}

module _ (env : Env) (request : ExecutionRequest) (clock : IsClock env)
    (alone : LeavesOwn env request) where
  abbrev Created : World → Type 0
  Created = HasState request created

  abbrev EndsSettled : Executing ExecutionResult → Type 0
  EndsSettled m = Ends Created m (Settled env request clock alone) (λ e w. ⊥)

  module _ (definition : ToolDefinition) where
    start-Settled : EndsSettled (start env request definition)
    unfolding start is_legal
    start-Settled =
        Ends-bind (λ at. Created) ((Returns-now env request clock alone).at created)
          (λ at.
            Ends-bind (λ _. HasState request running)
              (transition-Ends env request created running at refl)
              (λ _.
                Ends-bind (λ told. HasState request running)
                  ((Returns-tell env request clock alone _ 0).at running)
                  (λ told.
                    Ends-if told (λ _. run_rounds-Finishes env request clock alone definition)
                      (λ _. finish-Finishes env request clock alone _ 0 _ none none refl refl))))

    unless_refused-Settled :
        (refusal : Option Thrown) → EndsSettled (unless_refused env request definition refusal)
    unless_refused-Settled (some e) = reject-Settled env request clock alone _ false
    unless_refused-Settled none =
        Ends-bind (λ told. Created) ((Returns-tell env request clock alone _ 0).at created)
          (λ told.
            Ends-if told (λ _. start-Settled) (λ _. reject-Settled env request clock alone _ false))

    with_command-Settled :
        (command : Option ConsumeCommand)
        → EndsSettled (with_command env request definition command)
    with_command-Settled none = reject-Settled env request clock alone _ false
    with_command-Settled (some c) =
        Ends-bind (λ refusal. Created) ((Returns-awaited env request clock alone _).at created)
          (λ refusal. unless_refused-Settled refusal)

    require-Ends :
        {A : Type 0} (e : Thrown) (o : Option A)
        → is_some o ≡ true
        → Ends Created (require e o) (λ a. Created) (λ e w. ⊥)
    unfolding require
    require-Ends e none h = absurd (ground arith)
    require-Ends e (some a) h = Ends-pure a (λ w p. p)

    with_permit-Settled :
        is_some (policy_execution_binding request) ≡ true
        → EndsSettled (with_permit env request definition)
    unfolding with_permit
    with_permit-Settled b =
        Ends-if (is_allow request.policy_decision.fields.decision)
          (λ _.
            Ends-bind (λ binding. Created) (require-Ends _ _ b)
              (λ binding.
                Ends-bind (λ consumed. Created) ((Returns-on_issued env request _).at created)
                  (λ consumed.
                    Ends-if consumed (λ _. start-Settled)
                      (λ _. reject-Settled env request clock alone _ false))))
          (λ _. reject-Settled env request clock alone _ false)

    module _
        (bound : is_low_risk request.risk_level ≡ true
          → is_some (policy_execution_binding request) ≡ true) where
      execute_owner-Ends : EndsSettled (execute_owner env request definition)
      unfolding execute_owner
      execute_owner-Ends =
          Ends-if (is_low_risk request.risk_level) (λ l. with_permit-Settled (bound l))
            (λ _. with_command-Settled _)

      ended :
          (r : Result Thrown ExecutionResult) (w : World)
          → After (Settled env request clock alone) (λ e w. ⊥) r w
          → (a : ExecutionResult) × (r ≡ ok a) × Settled env request clock alone a w
      ended (ok a) w p = (a, refl, p)
      ended (err e) w p = absurd p

      -- #executeOwner always returns a result, whose status is no longer CREATED or RUNNING and is the
      -- state of the stored record, if the record is CREATED before, the clock reads timestamps, other
      -- executions leave the record alone, and a request of R0 or R1 has the binding that its
      -- validation asks for; whatever the tool, the sinks and the reconciler do.
      pub execute_owner-Settled :
          (w : World)
          → HasState request created w
          → (r : ExecutionResult) × ((execute_owner env request definition w).0 ≡ ok r)
            × Settled env request clock alone r (execute_owner env request definition w).1
      execute_owner-Settled w h =
          ended (execute_owner env request definition w).0
            (execute_owner env request definition w).1 (execute_owner-Ends.at w h)
