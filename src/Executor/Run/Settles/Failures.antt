-- ===== src/Executor/Run/Settles/Failures.antt =====
-- The catch clause of an attempt settles the execution, or leaves it running for another round.
use drive_guard.Prelude.{
  ℕ, Bool, true, false, not, Option, none, some, ◌≡◌, refl, String, if◌then◌else◌,
}
use drive_guard.Exec.{modify}
use drive_guard.Exec.Ends.{Ends, Ends-pure, Ends-if, Ends-attempt, Ends-bind}
use drive_guard.Json.{Value}
use drive_guard.Tools.{ToolDefinition}
use drive_guard.Executor.{
  Thrown, ExecutionState, running, failed, retry_exhausted, outcome_unknown, ErrorCode,
  unknown_outcome, internal_execution_error, Classification, retryable, non_retryable, ambiguous,
  ExecutionRequest, SafeError,
}
use drive_guard.Executor.Circuit.{CircuitPermit}
use drive_guard.Executor.Records.{is_legal}
use drive_guard.Executor.Recovery.{
  RecoveryAction, RecoveryReceipt, is_retry, is_retryable, should_retry,
}
use drive_guard.Executor.Run.{
  Env, Executing, World, ExecutionResult, ReconciliationQuery, circuit_opened, circuit_closed,
}
use drive_guard.Executor.Run.Finish.{
  finish, finish_failed, finish_after_effect, finish_after_failure,
}
use drive_guard.Executor.Run.Failure.{
  Round, done, again, finished, Answer, ask, reconcile_by, reconcile, finish_executed,
  retry_reconciled, is_executed, is_ambiguous, settle_ambiguous, after_ambiguous, give_up,
  retry_later, after_told, after_failure,
}
use drive_guard.Executor.Failures.{ClassifiedFailure, classify_tool_failure}
use drive_guard.Executor.Run.Settles.{
  is_settled, IsClock, LeavesOwn, HasState, same_records, Keeps, Returns, Returns-pure,
  Keeps-require, Keeps-Returns, Keeps-bind, Returns-succeeds, add_attempt-Ends,
}
use drive_guard.Executor.Run.Settles.Parts.{
  Settled, Returns-awaited, Returns-now, Keeps-emit, Returns-tell_if, Returns-schedule_retry,
  Returns-report_failure, finish-Settled,
}

module _ (env : Env) (request : ExecutionRequest) (clock : IsClock env)
    (alone : LeavesOwn env request) where
  abbrev pub Running : World → Type 0
  Running = HasState request running

  abbrev pub RoundSettles : Round → World → Type 0
  RoundSettles (done r) w = Settled env request clock alone r w
  RoundSettles (again x) w = Running w

  -- A round, from the RUNNING state.
  abbrev pub Settles : Executing Round → Type 0
  Settles m = Ends Running m RoundSettles (λ e w. ⊥)

  abbrev pub Finishes : Executing ExecutionResult → Type 0
  Finishes m = Ends Running m (Settled env request clock alone) (λ e w. ⊥)

  pub finished-Settles : (m : Executing ExecutionResult) → Finishes m → Settles (finished m)
  finished-Settles m h = Ends-bind _ h (λ r. Ends-pure _ (λ w p. p))

  pub finish-Finishes :
      (status : ExecutionState) (attempts : ℕ) (error : Option SafeError) (result : Option Value)
      (recovery : Option RecoveryReceipt)
      → is_legal running status ≡ true
      → is_settled status ≡ true
      → Finishes (finish env request status attempts error result recovery)
  finish-Finishes = finish-Settled env request clock alone

  pub end_round :
      (status : ExecutionState) (attempts : ℕ) (error : Option SafeError) (result : Option Value)
      (recovery : Option RecoveryReceipt)
      → is_legal running status ≡ true
      → is_settled status ≡ true
      → Settles (finished (finish env request status attempts error result recovery))
  end_round status attempts error result recovery l s =
      finished-Settles _ (finish-Finishes status attempts error result recovery l s)

  pub finish_after_effect-Finishes :
      (definition : ToolDefinition) (attempts : ℕ)
      → Finishes (finish_after_effect env request definition attempts)
  unfolding finish_after_effect is_legal
  finish_after_effect-Finishes definition attempts =
      Ends-if definition.side_effect
        {m = finish_failed env request outcome_unknown attempts unknown_outcome}
        {n = finish_failed env request failed attempts internal_execution_error}
        (λ _. finish-Finishes _ attempts _ none none refl refl)
        (λ _. finish-Finishes _ attempts _ none none refl refl)

  finish_after_failure-Finishes :
      (c : Classification) (attempts : ℕ) → Finishes (finish_after_failure env request c attempts)
  unfolding finish_after_failure is_legal
  finish_after_failure-Finishes ambiguous attempts =
      finish-Finishes _ attempts _ none none refl refl
  finish_after_failure-Finishes retryable attempts =
      finish-Finishes _ attempts _ none none refl refl
  finish_after_failure-Finishes non_retryable attempts =
      finish-Finishes _ attempts _ none none refl refl

  module _ (definition : ToolDefinition) (key : String) (number : ℕ) where
    finish_executed-Settles :
        (result : Option Value) (receipt : RecoveryReceipt)
        → Settles (finish_executed env request definition key number result receipt)
    unfolding finish_executed is_legal
    finish_executed-Settles result receipt =
        Ends-bind (λ _. Running)
          ((Returns-succeeds env request _
              (Keeps-emit env request clock alone _ number none none)).at
            running)
          (λ delivered. finished-Settles _ (
            Ends-if delivered (λ _. finish-Finishes _ number none result _ refl refl)
              (λ _. finish_after_effect-Finishes definition number)))

    retry_reconciled-Settles :
        (code : ErrorCode) (receipt : RecoveryReceipt)
        → Settles (retry_reconciled env request definition key number code receipt)
    unfolding retry_reconciled is_legal
    retry_reconciled-Settles code receipt =
        Ends-bind (λ _. Running)
          ((Returns-schedule_retry env request clock alone definition key number code).at running)
          (λ scheduled.
            Ends-if scheduled (λ _. Ends-pure _ (λ w p. p))
              (λ _. end_round _ number _ none _ refl refl))

    retry_later-Settles :
        (c : ClassifiedFailure) → Settles (retry_later env request definition key number c)
    unfolding retry_later is_legal
    retry_later-Settles c =
        Ends-bind (λ _. Running)
          ((Returns-schedule_retry env request clock alone definition key number c.code).at running)
          (λ scheduled.
            Ends-if scheduled (λ _. Ends-pure _ (λ w p. p))
              (λ _. end_round _ number _ none none refl refl))

    ended_legal :
        (b : Bool)
        → (is_legal running (if b then retry_exhausted else failed) ≡ true)
          × (is_settled (if b then retry_exhausted else failed) ≡ true)
    unfolding is_legal
    ended_legal true = (refl, refl)
    ended_legal false = (refl, refl)

    give_up-Settles :
        (c : ClassifiedFailure) → Settles (give_up env request definition key number c)
    unfolding give_up
    give_up-Settles c =
        Ends-bind (λ _. Running)
          ((Returns-succeeds env request _ (Keeps-emit env request clock alone _ number _ none)).at
            running)
          (λ _.
            end_round _ number _ none _ (ended_legal (is_retryable c.classification)).0
              (ended_legal (is_retryable c.classification)).1)

    ask-Keeps :
        (reconciler : ℕ → ReconciliationQuery → Option (Answer env request definition key))
        → Keeps env request (ask env request definition key reconciler number)
    unfolding modify
    ask-Keeps reconciler =
        Keeps-bind env request _ _ (Keeps-emit env request clock alone _ number none none) (λ _.
          Keeps-bind env request _ _
            (Keeps-Returns env request (Returns-awaited env request clock alone _))
            (λ answer. Keeps-bind env request _ _ (Keeps-require env request _ answer) (λ given.
              Keeps-bind env request _ _
                (record { at = λ s. record { at = λ w h. same_records env request s _ w refl h } })
                (λ _.
                  Keeps-bind env request _ _ (Keeps-emit env request clock alone _ number _ none)
                    (λ _. Keeps-Returns env request (Returns-pure env request given))))))

    reconcile-Returns : Returns env request (reconcile env request definition key number)
    unfolding reconcile
    reconcile-Returns = by env.reconciler
      where
        by :
            (reconciler : Option
              (ℕ → ReconciliationQuery → Option (Answer env request definition key)))
            → Returns env request (reconcile_by env request definition key reconciler number)
        by none = Returns-pure env request _
        by (some r) = record {
          at = λ s.
              Ends-attempt (λ e. HasState request s) ((ask-Keeps r).at s)
                (λ e. (Returns-pure env request _).at s);
        }

    settle_ambiguous-Settles :
        (c : ClassifiedFailure) (action : RecoveryAction) (a : Answer env request definition key)
        → Settles (settle_ambiguous env request definition key number c action a)
    unfolding is_legal
    settle_ambiguous-Settles c action a =
        Ends-if (is_executed a.0) (λ _. finish_executed-Settles a.1 _)
          (λ _.
            Ends-if (is_retry action) (λ _. retry_reconciled-Settles c.code _)
              (λ _. end_round _ number _ none _ refl refl))

    after_ambiguous-Settles :
        (c : ClassifiedFailure) → Settles (after_ambiguous env request definition key number c)
    unfolding after_ambiguous
    after_ambiguous-Settles c =
        Ends-bind (λ _. Running)
          ((Returns-succeeds env request _ (Keeps-emit env request clock alone _ number _ none)).at
            running)
          (λ _.
            Ends-bind (λ a. Running) (reconcile-Returns.at running)
              (λ a. settle_ambiguous-Settles c _ a))

    after_told-Settles :
        (c : ClassifiedFailure) → Settles (after_told env request definition key number c)
    unfolding after_told should_retry
    after_told-Settles c =
        Ends-if (is_ambiguous c.classification) (λ _. after_ambiguous-Settles c)
          (λ _.
            Ends-if (not (should_retry env.retry_policy c.classification number))
              (λ _. give_up-Settles c) (λ _. retry_later-Settles c))

    pub after_failure-Settles :
        (started_at : ℕ) (permit : CircuitPermit) (e : Thrown)
        → Settles (after_failure env request definition key number started_at permit e)
    unfolding after_failure is_legal classify_tool_failure
    after_failure-Settles started_at permit e =
        Ends-bind (λ at. Running) ((Returns-now env request clock alone).at running)
          (λ at.
            Ends-bind (λ _. Running) (add_attempt-Ends env request _)
              (λ _.
                Ends-bind (λ circuit. Running)
                  ((Returns-report_failure env request clock alone definition key permit _).at
                    running)
                  (λ circuit.
                    Ends-bind (λ told. Running)
                      ((Returns-succeeds env request _
                          (Keeps-emit env request clock alone _ number _ none)).at
                        running)
                      (λ told.
                        Ends-if (not told)
                          (λ _. finished-Settles _ (finish_after_failure-Finishes _ number))
                          (λ _.
                            Ends-bind (λ _. Running)
                              ((Returns-tell_if env request clock alone circuit.0 circuit_opened
                                  number).at
                                running)
                              (λ told_opened.
                                Ends-if (not told_opened)
                                  (λ _. finished-Settles _ (finish_after_failure-Finishes _ number))
                                  (λ _.
                                    Ends-bind (λ _. Running)
                                      ((Returns-tell_if env request clock alone circuit.1
                                          circuit_closed number).at
                                        running)
                                      (λ told_closed.
                                        Ends-if (not told_closed)
                                          (λ _. end_round _ number _ none none refl refl)
                                          (λ _. after_told-Settles _)))))))))
