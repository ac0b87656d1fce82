-- ===== src/Executor/Run/Settles/Rounds.antt =====
-- The loop over the attempts settles the execution.
use drive_guard.Prelude.{ℕ, zero, suc, not, Option, none, some, refl, String}
use drive_guard.Exec.{Result, ok, err, modify}
use drive_guard.Exec.Ends.{
  Ends, Ends-pure, Ends-raise, Ends-if, Ends-attempt, Ends-after, Ends-bind,
}
use drive_guard.Json.{Value}
use drive_guard.Tools.{ToolDefinition}
use drive_guard.Executor.{Thrown, running, ExecutionRequest}
use drive_guard.Executor.Circuit.{CircuitPermit, refused, allowed, probing}
use drive_guard.Executor.Records.{is_legal}
use drive_guard.Executor.Recovery.{RecoveryReceipt}
use drive_guard.Executor.Run.{Env, Executing, World, returned, circuit_key}
use drive_guard.Executor.Run.Failure.{Round, done, again, is_probing}
use drive_guard.Executor.Run.Attempts.{
  call_tool, clone_result, after_value, run_attempt, start_attempt, with_permit, round, go_on,
  rounds, run_rounds,
}
use drive_guard.Executor.Run.Settles.{
  IsClock, LeavesOwn, same_records, Keeps, Returns, Returns-pure, Keeps-Returns, Keeps-bind,
  Returns-if, Returns-outside, Returns-on_circuits, add_attempt-Ends,
}
use drive_guard.Executor.Run.Settles.Parts.{
  Settled, Returns-awaited, Returns-now, Returns-tell, Returns-tell_if, Returns-fail_probe,
}
use drive_guard.Executor.Run.Settles.Failures.{
  Running, RoundSettles, Settles, Finishes, finished-Settles, end_round, finish-Finishes,
  finish_after_effect-Finishes, after_failure-Settles,
}

module _ (env : Env) (request : ExecutionRequest) (clock : IsClock env)
    (alone : LeavesOwn env request) where
  abbrev Run : World → Type 0
  Run = Running env request clock alone

  abbrev Ending : Round → World → Type 0
  Ending = RoundSettles env request clock alone

  module _ (definition : ToolDefinition) (key : String) where
    returned-Keeps : {A : Type 0} (r : Result Thrown A) → Keeps env request (returned r)
    unfolding returned
    returned-Keeps (ok a) = record { at = λ s. record { at = λ w h. h } }
    returned-Keeps (err e) = record { at = λ s. record { at = λ w h. h } }

    call_tool-Keeps : (number : ℕ) → Keeps env request (call_tool env request definition key number)
    unfolding call_tool modify
    call_tool-Keeps number =
        Keeps-bind env request _ _
          (Keeps-Returns env request (Returns-awaited env request clock alone _))
          (λ answer.
            Keeps-bind env request _ _
              (record { at = λ s. record { at = λ w h. same_records env request s _ w refl h } })
              (λ _. returned-Keeps answer))

    -- What a tool that returned leaves to the catch clause is still running.
    after_value-Ends :
        (number started_at : ℕ) (receipt : Option RecoveryReceipt) (value : Option Value)
        → Ends Run
            (after_value env request definition key number started_at receipt value)
            Ending
            (λ e. Run)
    unfolding after_value clone_result is_legal
    after_value-Ends number started_at receipt value =
        Ends-bind (λ at. Run) (total (Returns-now env request clock alone))
          (λ at.
            Ends-bind (λ _. Run)
              (Ends-after (add_attempt-Ends env request _) (λ r w p. p) (λ e w p. absurd p))
              (λ _.
                Ends-bind (λ change. Run) (total (Returns-on_circuits env request _))
                  (λ change.
                    Ends-bind (λ told. Run)
                      (total (Returns-tell_if env request clock alone _ _ number))
                      (λ told.
                        Ends-if (not told)
                          (λ _. ended (
                            finished-Settles env request clock alone _ (
                              finish_after_effect-Finishes env request clock alone definition
                                number)))
                          (λ _.
                            Ends-bind (λ told. Run)
                              (total (Returns-tell env request clock alone _ number))
                              (λ told.
                                Ends-if (not told)
                                  (λ _. ended (
                                    finished-Settles env request clock alone _ (
                                      finish_after_effect-Finishes env request clock alone
                                        definition number)))
                                  (λ _.
                                    Ends-bind (λ copy. Run)
                                      (Ends-if (env.clones value) (λ _. Ends-pure value (λ w p. p))
                                        (λ _. Ends-raise _ (λ w p. p)))
                                      (λ copy. ended (
                                        end_round env request clock alone _ number none copy _ refl
                                          refl)))))))))
      where
        total :
            {A : Type 0} {m : Executing A}
            → Returns env request m
            → Ends Run m (λ a. Run) (λ e. Run)
        total r = Ends-after (r.at running) (λ a w p. p) (λ e w p. absurd p)

        ended :
            {m : Executing Round} → Settles env request clock alone m → Ends Run m Ending (λ e. Run)
        ended h = Ends-after h (λ r w p. p) (λ e w p. absurd p)

    run_attempt-Settles :
        (number started_at : ℕ) (permit : CircuitPermit) (receipt : Option RecoveryReceipt)
        → Settles env request clock alone
            (run_attempt env request definition key number started_at permit receipt)
    unfolding run_attempt
    run_attempt-Settles number started_at permit receipt =
        Ends-attempt (λ e. Run)
          (Ends-bind (λ v. Run) ((call_tool-Keeps number).at running)
            (λ v. after_value-Ends number started_at receipt v))
          (λ e.
            after_failure-Settles env request clock alone definition key number started_at permit e)

    start_attempt-Settles :
        (number : ℕ) (permit : CircuitPermit) (receipt : Option RecoveryReceipt)
        → Settles env request clock alone
            (start_attempt env request definition key number permit receipt)
    unfolding start_attempt is_legal
    start_attempt-Settles number permit receipt =
        Ends-bind (λ at. Run) ((Returns-now env request clock alone).at running)
          (λ at.
            Ends-bind (λ told. Run) ((Returns-tell env request clock alone _ number).at running)
              (λ told.
                Ends-if told (λ _. run_attempt-Settles number at permit receipt)
                  (λ _.
                    Ends-bind (λ _. Run)
                      ((Returns-if env request (is_probing permit)
                          (Returns-fail_probe env request clock alone definition key)
                          (Returns-pure env request tt)).at
                        running)
                      (λ _. end_round env request clock alone _ _ _ none none refl refl))))

    with_permit-Settles :
        (number : ℕ) (receipt : Option RecoveryReceipt) (permit : CircuitPermit)
        → Settles env request clock alone
            (with_permit env request definition key number receipt permit)
    unfolding is_legal
    with_permit-Settles number receipt refused =
        end_round env request clock alone _ _ _ none none refl refl
    with_permit-Settles number receipt allowed = start_attempt-Settles number allowed receipt
    with_permit-Settles number receipt probing =
        Ends-bind (λ told. Run) ((Returns-tell env request clock alone _ number).at running)
          (λ told.
            Ends-if told (λ _. start_attempt-Settles number probing receipt)
              (λ _.
                Ends-bind (λ _. Run)
                  ((Returns-fail_probe env request clock alone definition key).at running)
                  (λ _. end_round env request clock alone _ _ _ none none refl refl)))

    round-Settles :
        (number : ℕ) (receipt : Option RecoveryReceipt)
        → Settles env request clock alone (round env request definition key number receipt)
    unfolding round
    round-Settles number receipt =
        Ends-bind (λ ms. Run) ((Returns-outside env request env.now_ms).at running)
          (λ ms.
            Ends-bind (λ permit. Run) ((Returns-on_circuits env request _).at running)
              (λ permit. with_permit-Settles number receipt permit))

    rounds-Finishes :
        (left number : ℕ) (receipt : Option RecoveryReceipt)
        → Finishes env request clock alone (rounds env request definition key left number receipt)
    unfolding rounds is_legal
    rounds-Finishes zero number receipt =
        finish-Finishes env request clock alone _ _ _ none none refl refl
    rounds-Finishes (suc left) number receipt =
        Ends-bind Ending (round-Settles number receipt)
          (next (λ x. rounds-Finishes left (suc number) (some x)))
      where
        next :
            ((x : RecoveryReceipt)
              → Finishes env request clock alone
                  (rounds env request definition key left (suc number) (some x)))
            → (r : Round)
            → Ends
                (Ending r)
                (go_on env request definition key
                  (λ x. rounds env request definition key left (suc number) (some x))
                  r)
                (Settled env request clock alone)
                (λ e w. ⊥)
        next rest (done r) = Ends-pure r (λ w p. p)
        next rest (again x) = rest x

  pub run_rounds-Finishes :
      (definition : ToolDefinition)
      → Finishes env request clock alone (run_rounds env request definition)
  unfolding run_rounds
  run_rounds-Finishes definition =
      rounds-Finishes definition (circuit_key env.js definition) _ 1 none
