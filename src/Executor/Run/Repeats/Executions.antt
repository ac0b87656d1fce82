-- ===== src/Executor/Run/Repeats/Executions.antt =====
-- What execute (packages/executor/src/executor.ts) does to the history of an execution, and how often
-- it calls a tool.
use drive_guard.Prelude.{
  ◌≤◌, ◌≡◌, refl, subst, sym, Bool, true, false, Option, none, some, [], arith,
}
use drive_guard.Exec.Ends.{Ends, Ends-if, Ends-attempt, Ends-after, Ends-bind}
use drive_guard.Tools.{ToolDefinition}
use drive_guard.Lifecycle.Consumption.{ConsumeCommand}
use drive_guard.Executor.{Thrown, ExecutionRequest}
use drive_guard.Executor.Run.{Env, Executing, World}
use drive_guard.Executor.Run.Calm.{
  IsCalm, Ends-calm, IsCalm-require, IsCalm-awaited, IsCalm-on_records, IsCalm-on_issued,
  IsCalm-succeeds,
}
use drive_guard.Executor.Run.Calm.Parts.{
  IsCalm-now, IsCalm-emit, IsCalm-finish, IsCalm-reject, transition-IsOwnStore,
}
use drive_guard.Executor.Run.Owner.{
  execute_owner, with_permit, with_command, unless_refused, start, is_allow, is_low_risk,
}
use drive_guard.Executor.Run.Execute.{run_owner}
use drive_guard.Executor.Run.Repeats.{calls_in, IsCareful, untried}
use drive_guard.Executor.Run.Repeats.Loop.{IsBounded, run_rounds-Ends}

module _ (env : Env) (request : ExecutionRequest) (definition : ToolDefinition) where
  -- The tool has not been called.
  abbrev pub Untouched : World → Type 0
  Untouched w = w.acts ≡ []

  abbrev pub Bounded : World → Type 0
  Bounded = IsBounded env request definition

  pub Untouched-Bounded : (w : World) → Untouched w → Bounded w
  Untouched-Bounded w p =
      subst (λ l. IsCareful request definition l × (calls_in l ≤ env.retry_policy.max_attempts))
        (sym p) (untried, omega arith)

  pub idly :
      {A : Type 0} {m : Executing A} → IsCalm m → Ends Untouched m (λ a. Untouched) (λ e. Bounded)
  idly calm =
      Ends-after (Ends-calm (λ l. l ≡ []) calm) (λ a w p. p) (λ e w p. Untouched-Bounded w p.1)

  pub idly_done :
      {A : Type 0} {m : Executing A} → IsCalm m → Ends Untouched m (λ a. Bounded) (λ e. Bounded)
  idly_done calm = Ends-after (idly calm) (λ a w p. Untouched-Bounded w p) (λ e w p. p)

  start-Ends : Ends Untouched (start env request definition) (λ r. Bounded) (λ e. Bounded)
  unfolding start
  start-Ends =
      Ends-bind (λ at. Untouched) (idly (IsCalm-now env))
        (λ at.
          Ends-bind (λ _. Untouched)
            (idly (IsCalm-on_records _ (transition-IsOwnStore request.execution_id _ at)))
            (λ _.
              Ends-bind (λ told. Untouched)
                (idly (IsCalm-succeeds _ (IsCalm-emit env request _ 0 none none)))
                (λ told.
                  Ends-if told
                    (λ _.
                      Ends-after (run_rounds-Ends env request definition) (λ r w p. p.1)
                        (λ e w p. p))
                    (λ _. idly_done (IsCalm-finish env request _ 0 _ none none)))))

  unless_refused-Ends :
      (refusal : Option Thrown)
      → Ends Untouched (unless_refused env request definition refusal) (λ r. Bounded) (λ e. Bounded)
  unless_refused-Ends (some error) = idly_done (IsCalm-reject env request _ false)
  unless_refused-Ends none =
      Ends-bind (λ told. Untouched)
        (idly (IsCalm-succeeds _ (IsCalm-emit env request _ 0 none none)))
        (λ told.
          Ends-if told (λ _. start-Ends) (λ _. idly_done (IsCalm-reject env request _ false)))

  with_command-Ends :
      (command : Option ConsumeCommand)
      → Ends Untouched (with_command env request definition command) (λ r. Bounded) (λ e. Bounded)
  with_command-Ends none = idly_done (IsCalm-reject env request _ false)
  with_command-Ends (some c) =
      Ends-bind (λ refusal. Untouched) (idly (IsCalm-awaited env _))
        (λ refusal. unless_refused-Ends refusal)

  with_permit-Ends :
      Ends Untouched (with_permit env request definition) (λ r. Bounded) (λ e. Bounded)
  unfolding with_permit
  with_permit-Ends =
      Ends-if (is_allow request.policy_decision.fields.decision)
        (λ _.
          Ends-bind (λ binding. Untouched) (idly (IsCalm-require _ _ refl))
            (λ binding.
              Ends-bind (λ consumed. Untouched) (idly (IsCalm-on_issued _))
                (λ consumed.
                  Ends-if consumed (λ _. start-Ends)
                    (λ _. idly_done (IsCalm-reject env request _ false)))))
        (λ _. idly_done (IsCalm-reject env request _ false))

  execute_owner-Ends :
      Ends Untouched (execute_owner env request definition) (λ r. Bounded) (λ e. Bounded)
  unfolding execute_owner
  execute_owner-Ends =
      Ends-if (is_low_risk request.risk_level) (λ _. with_permit-Ends) (λ _. with_command-Ends _)

  -- An action that is calm leaves bounds alone.
  pub bounded :
      {A : Type 0} {m : Executing A} → IsCalm m → Ends Bounded m (λ a. Bounded) (λ e. Bounded)
  bounded calm =
      Ends-after
        (Ends-calm
          (λ l. IsCareful request definition l × (calls_in l ≤ env.retry_policy.max_attempts)) calm)
        (λ a w p. p) (λ e w p. p.1)

  pub run_owner-Ends :
      (admitted : Bool)
      → Ends Untouched (run_owner env request definition admitted) (λ r. Bounded) (λ e. Bounded)
  unfolding run_owner
  run_owner-Ends true =
      Ends-attempt (λ e. Bounded) execute_owner-Ends
        (λ e. bounded (IsCalm-finish env request _ 0 _ none none))
  run_owner-Ends false = idly_done (IsCalm-reject env request _ true)
