-- ===== src/Executor/Run/Repeats/Failures.antt =====
-- What the catch clause of an attempt does to the history of an execution.
use drive_guard.Prelude.{
  ℕ, ◌≡◌, refl, sym, subst, ◌⊎◌, inl, inr, Bool, true, false, not, ◌∙◌, Option, none, some, List,
  ◌∷◌, arith, String,
}
use drive_guard.Exec.{err, modify}
use drive_guard.Exec.Ends.{Ends, Ends-pure, Ends-if, Ends-attempt, Ends-after, Ends-bind}
use drive_guard.Json.{Value}
use drive_guard.Tools.{ToolDefinition}
use drive_guard.Executor.{
  ExecutionState, outcome_unknown, failed, ErrorCode, unknown_outcome, internal_execution_error,
  Thrown, ExecutionRequest, SafeError, Classification, retryable, non_retryable, ambiguous,
}
use drive_guard.Executor.Circuit.{CircuitPermit}
use drive_guard.Executor.Recovery.{
  ReconciliationStatus, not_executed, unknown, RecoveryAction, RecoveryReceipt, decide, is_retry,
  is_idempotent, should_retry, recovery_failure_type,
}
use drive_guard.Executor.Failures.{ClassifiedFailure, classify_tool_failure}
use drive_guard.Executor.Run.{
  Env, EventType, circuit_opened, circuit_closed, tell_if, Executing, ExecutionResult, World, Act,
  called, reconciled, ToolCall, ReconciliationQuery,
}
use drive_guard.Executor.Run.Finish.{
  finish, finish_failed, finish_after_effect, finish_after_failure,
}
use drive_guard.Executor.Run.Failure.{
  Round, done, again, finished, Answer, ask, reconcile_by, reconcile, ambiguous_input,
  finish_executed, retry_reconciled, is_executed, is_ambiguous, settle_ambiguous, after_ambiguous,
  give_up, retry_later, after_told, after_failure,
}
use drive_guard.Executor.Run.Calm.{
  IsOwn, IsCalm, Ends-calm, IsCalm-gets, IsCalm-require, IsCalm-awaited, IsCalm-on_records,
  IsCalm-succeeds, IsCalm-if, IsCalm-pure,
}
use drive_guard.Executor.Run.Calm.Parts.{
  IsCalm-now, IsCalm-emit, IsCalm-transition_if, IsCalm-schedule_retry, IsCalm-report_failure,
  add_attempt-IsOwnStore,
}
use drive_guard.Executor.Run.Repeats.{
  calls_in, classification_of, MayCall, after_transient, after_not_executed, IsCareful,
}

module _ (env : Env) (request : ExecutionRequest) (definition : ToolDefinition) where
  -- The history is careful, with `n` calls.
  abbrev pub HasCalls : ℕ → List Act → Type 0
  HasCalls n l = IsCareful request definition l × (calls_in l ≡ n)

  -- After a round that called the tool for the `n`-th time.
  abbrev pub RoundEnds : ℕ → Round → World → Type 0
  RoundEnds n (done r) w = (r.attempt_count ≡ n) × HasCalls n w.acts
  RoundEnds n (again x) w = HasCalls n w.acts × MayCall definition w.acts

  abbrev pub Fails : ℕ → Thrown → World → Type 0
  Fails n e w = IsOwn e × HasCalls n w.acts

  abbrev pub Before : ℕ → World → Type 0
  Before n w = HasCalls n w.acts

  pub finish-Ends :
      (n : ℕ) (status : ExecutionState) (error : Option SafeError) (result : Option Value)
      (recovery : Option RecoveryReceipt)
      → Ends
          (Before n)
          (finish env request status n error result recovery)
          (λ r w. (r.attempt_count ≡ n) × HasCalls n w.acts)
          (Fails n)
  unfolding finish
  finish-Ends n status error result recovery =
      Ends-bind (λ at. Before n) (Ends-calm (HasCalls n) (IsCalm-now env))
        (λ at.
          Ends-bind (λ found. Before n) (Ends-calm (HasCalls n) (IsCalm-gets _))
            (λ found.
              Ends-bind (λ _. Before n)
                (Ends-calm (HasCalls n) (IsCalm-transition_if env request _ status at))
                (λ _. Ends-pure _ (λ w p. (refl, p)))))

  pub finished-Ends :
      (n : ℕ) (m : Executing ExecutionResult)
      → Ends (Before n) m (λ r w. (r.attempt_count ≡ n) × HasCalls n w.acts) (Fails n)
      → Ends (Before n) (finished m) (RoundEnds n) (Fails n)
  finished-Ends n m h = Ends-bind _ h (λ r. Ends-pure _ (λ w p. p))

  pub end_round :
      (n : ℕ) (status : ExecutionState) (error : Option SafeError) (result : Option Value)
      (recovery : Option RecoveryReceipt)
      → Ends
          (Before n)
          (finished (finish env request status n error result recovery))
          (RoundEnds n)
          (Fails n)
  end_round n status error result recovery =
      finished-Ends n _ (finish-Ends n status error result recovery)

  finish_after_effect-Ends :
      (n : ℕ)
      → Ends
          (Before n)
          (finish_after_effect env request definition n)
          (λ r w. (r.attempt_count ≡ n) × HasCalls n w.acts)
          (Fails n)
  unfolding finish_after_effect
  finish_after_effect-Ends n =
      Ends-if definition.side_effect
        {m = finish_failed env request outcome_unknown n unknown_outcome}
        {n = finish_failed env request failed n internal_execution_error}
        (λ _. finish-Ends n _ _ none none) (λ _. finish-Ends n _ _ none none)

  pub end_after_effect :
      (n : ℕ)
      → Ends
          (Before n)
          (finished (finish_after_effect env request definition n))
          (RoundEnds n)
          (Fails n)
  end_after_effect n = finished-Ends n _ (finish_after_effect-Ends n)

  end_after_failure :
      (n : ℕ) (c : Classification)
      → Ends (Before n) (finished (finish_after_failure env request c n)) (RoundEnds n) (Fails n)
  unfolding finish_after_failure
  end_after_failure n ambiguous = end_round n _ _ none none
  end_after_failure n retryable = end_round n _ _ none none
  end_after_failure n non_retryable = end_round n _ _ none none

  module _ (key : String) (n : ℕ) where
    finish_executed-Ends :
        (result : Option Value) (receipt : RecoveryReceipt)
        → Ends
            (Before n)
            (finish_executed env request definition key n result receipt)
            (RoundEnds n)
            (Fails n)
    unfolding finish_executed
    finish_executed-Ends result receipt =
        Ends-bind (λ _. Before n)
          (Ends-calm (HasCalls n) (IsCalm-succeeds _ (IsCalm-emit env request _ n none none)))
          (λ delivered.
            finished-Ends n _
              (Ends-if delivered (λ _. finish-Ends n _ _ _ _) (λ _. finish_after_effect-Ends n)))

    abbrev Mendable : World → Type 0
    Mendable w = HasCalls n w.acts × MayCall definition w.acts

    retry_reconciled-Ends :
        (code : ErrorCode) (receipt : RecoveryReceipt)
        → Ends Mendable
            (retry_reconciled env request definition key n code receipt)
            (RoundEnds n)
            (Fails n)
    unfolding retry_reconciled
    retry_reconciled-Ends code receipt =
        Ends-bind (λ _. Mendable)
          (Ends-after
            (Ends-calm (λ l. HasCalls n l × MayCall definition l)
              (IsCalm-schedule_retry env request definition key n code))
            (λ a w p. p) (λ e w p. (p.0, p.1.0)))
          (λ scheduled.
            Ends-if scheduled (λ _. Ends-pure _ (λ w p. p))
              (λ _. record { at = λ w p. (end_round n _ _ none _).at w p.0 }))

    retry_later-Ends :
        (c : ClassifiedFailure)
        → Ends Mendable (retry_later env request definition key n c) (RoundEnds n) (Fails n)
    unfolding retry_later
    retry_later-Ends c =
        Ends-bind (λ _. Mendable)
          (Ends-after
            (Ends-calm (λ l. HasCalls n l × MayCall definition l)
              (IsCalm-schedule_retry env request definition key n c.code))
            (λ a w p. p) (λ e w p. (p.0, p.1.0)))
          (λ scheduled.
            Ends-if scheduled (λ _. Ends-pure _ (λ w p. p))
              (λ _. record { at = λ w p. (end_round n _ _ none none).at w p.0 }))

    give_up-Ends :
        (c : ClassifiedFailure)
        → Ends (Before n) (give_up env request definition key n c) (RoundEnds n) (Fails n)
    unfolding give_up
    give_up-Ends c =
        Ends-bind (λ _. Before n)
          (Ends-calm (HasCalls n) (IsCalm-succeeds _ (IsCalm-emit env request _ n _ none)))
          (λ _. end_round n _ _ none _)

  -- A retry is decided only for an idempotent tool whose side effect did not take place.
  decide-retry :
      (e : Thrown) (number : ℕ) (status : ReconciliationStatus) (key : String)
      → classification_of definition e ≡ ambiguous
      → is_retry
          (decide (
            ambiguous_input env request definition key
              (recovery_failure_type e)
              number
              status)).action
        ≡ true
      → (status ≡ not_executed) × (is_idempotent definition.idempotency_hint ≡ true)
  unfolding decide classify_tool_failure recovery_failure_type
  decide-retry e number status key a h = ground arith

  module _ (key : String) (n : ℕ) (c : ToolCall) (e : Thrown) (l : List Act) where
    abbrev failed_call : List Act
    failed_call = called c (err e) ∷ l

    abbrev At : List Act → World → Type 0
    At k w = w.acts ≡ k

    -- The reconciler was not asked, or its answer was lost.
    abbrev Near : World → Type 0
    Near w = At failed_call w ⊎ ((s : ReconciliationStatus) × At (reconciled s ∷ failed_call) w)

    abbrev Asked : Answer env request definition key → World → Type 0
    Asked a w = At (reconciled a.0 ∷ failed_call) w ⊎ ((a.0 ≡ unknown) × Near w)

    ask-Ends :
        (reconciler : ℕ → ReconciliationQuery → Option (Answer env request definition key))
        → Ends (At failed_call) (ask env request definition key reconciler n) Asked (λ e w. Near w)
    unfolding modify
    ask-Ends reconciler =
        Ends-bind (λ _. At failed_call)
          (quietly (λ k. k ≡ failed_call) (IsCalm-emit env request _ n none none) (λ w p. inl p))
          (λ _.
            Ends-bind (λ _. At failed_call)
              (quietly (λ k. k ≡ failed_call) (IsCalm-awaited env _) (λ w p. inl p))
              (λ answer.
                Ends-bind (λ _. At failed_call)
                  (quietly (λ k. k ≡ failed_call) (IsCalm-require _ answer refl) (λ w p. inl p))
                  (λ given.
                    Ends-bind (λ _. At (reconciled given.0 ∷ failed_call))
                      (record { at = λ w p. rw p refl })
                      (λ _.
                        Ends-bind (λ _. At (reconciled given.0 ∷ failed_call))
                          (quietly (λ k. k ≡ reconciled given.0 ∷ failed_call)
                            (IsCalm-emit env request _ n _ none) (λ w p. inr (given.0, p)))
                          (λ _. Ends-pure _ (λ w p. inl p))))))
      where
        quietly :
            {A : Type 0} {m : Executing A} (P : List Act → Type 0)
            → IsCalm m
            → ((w : World) → P w.acts → Near w)
            → Ends (λ w. P w.acts) m (λ _ w. P w.acts) (λ e w. Near w)
        quietly P calm f = Ends-after (Ends-calm P calm) (λ a w p. p) (λ e w p. f w p.1)

    reconcile-Ends : Ends (At failed_call) (reconcile env request definition key n) Asked (λ e w. ⊥)
    unfolding reconcile
    reconcile-Ends = by env.reconciler
      where
        by :
            (reconciler : Option
              (ℕ → ReconciliationQuery → Option (Answer env request definition key)))
            → Ends
                (At failed_call)
                (reconcile_by env request definition key reconciler n)
                Asked
                (λ e w. ⊥)
        by none = Ends-pure _ (λ w p. inr (refl, inl p))
        by (some r) =
            Ends-attempt (λ e. Near) (Ends-after (ask-Ends r) (λ a w p. p) (λ e w p. p))
              (λ e. Ends-pure _ (λ w p. inr (refl, p)))

    module _ (known : HasCalls n failed_call)
        (doubt : classification_of definition e ≡ ambiguous) where
      Near-Before : (w : World) → Near w → Before n w
      Near-Before w (inl p) = subst (HasCalls n) (sym p) known
      Near-Before w (inr (s, p)) =
          subst (HasCalls n) (sym p) (IsCareful.ask failed_call s known.0, known.1)

      Asked-Before : (a : Answer env request definition key) (w : World) → Asked a w → Before n w
      Asked-Before a w (inl p) =
          subst (HasCalls n) (sym p) (IsCareful.ask failed_call a.0 known.0, known.1)
      Asked-Before a w (inr (u, p)) = Near-Before w p

      Asked-MayCall :
          (a : Answer env request definition key) (w : World)
          → a.0 ≡ not_executed
          → is_idempotent definition.idempotency_hint ≡ true
          → Asked a w
          → MayCall definition w.acts
      Asked-MayCall a w s i (inl p) =
          subst (MayCall definition) (sym (rw s at p)) (after_not_executed c e l i doubt)
      Asked-MayCall a w s i (inr (u, p)) = absurd (ground (arith, s, u))

      settle-Ends :
          (f : ClassifiedFailure) (action : RecoveryAction) (a : Answer env request definition key)
          → (is_retry action ≡ true
              → (a.0 ≡ not_executed) × (is_idempotent definition.idempotency_hint ≡ true))
          → Ends
              (Asked a)
              (settle_ambiguous env request definition key n f action a)
              (RoundEnds n)
              (Fails n)
      settle-Ends f action a may =
          Ends-if (is_executed a.0)
            (λ _. record {
              at = λ w p. (finish_executed-Ends key n a.1 _).at w (Asked-Before a w p);
            })
            (λ _.
              Ends-if (is_retry action)
                (λ r. record {
                  at = λ w p.
                      (retry_reconciled-Ends key n f.code _).at w
                        (Asked-Before a w p, Asked-MayCall a w (may r).0 (may r).1 p);
                })
                (λ _. record { at = λ w p. (end_round n _ _ none _).at w (Asked-Before a w p) }))

      after_ambiguous-Ends :
          (f : ClassifiedFailure)
          → f.failure_type ≡ recovery_failure_type e
          → Ends
              (At failed_call)
              (after_ambiguous env request definition key n f)
              (RoundEnds n)
              (Fails n)
      unfolding after_ambiguous
      after_ambiguous-Ends f t =
          Ends-bind (λ _. At failed_call)
            (Ends-after
              (Ends-calm (λ k. k ≡ failed_call)
                (IsCalm-succeeds _ (IsCalm-emit env request _ n _ none)))
              (λ a w p. p) (λ x w p. (p.0, subst (HasCalls n) (sym p.1) known)))
            (λ _.
              Ends-bind Asked (Ends-after reconcile-Ends (λ a w p. p) (λ x w p. absurd p))
                (λ a. settle-Ends f _ a (λ h. decide-retry e n a.0 key doubt (rw t at h))))

  -- The error that an attempt failed with is the answer of the tool's last call, or no failure of a
  -- dependency.
  abbrev pub Stems : Thrown → List Act → Type 0
  Stems e k = IsOwn e ⊎ ((c : ToolCall) × (l : List Act) × (k ≡ called c (err e) ∷ l))

  IsOwn-definite : (e : Thrown) → IsOwn e → classification_of definition e ≡ non_retryable
  unfolding classify_tool_failure
  IsOwn-definite e o = rw o refl

  module _ (key : String) (n : ℕ) (e : Thrown) (k : List Act) (known : HasCalls n k)
      (stems : Stems e k) where
    abbrev Failed : World → Type 0
    Failed w = w.acts ≡ k

    Failed-Before : (w : World) → Failed w → Before n w
    Failed-Before w p = subst (HasCalls n) (sym p) known

    -- A calm action, with the history as it was when the attempt failed.
    calmly : {A : Type 0} {m : Executing A} → IsCalm m → Ends Failed m (λ a w. Failed w) (Fails n)
    calmly calm =
        Ends-after (Ends-calm (λ j. j ≡ k) calm) (λ a w p. p) (λ x w p. (p.0, Failed-Before w p.1))

    ending :
        {m : Executing Round}
        → Ends (Before n) m (RoundEnds n) (Fails n)
        → Ends Failed m (RoundEnds n) (Fails n)
    ending h = record { at = λ w p. h.at w (Failed-Before w p) }

    after_doubt :
        classification_of definition e ≡ ambiguous
        → (f : ClassifiedFailure) → f.failure_type ≡ recovery_failure_type e
        → Stems e k
        → Ends Failed (after_ambiguous env request definition key n f) (RoundEnds n) (Fails n)
    after_doubt doubt f t (inl o) = absurd (ground (arith, doubt, IsOwn-definite e o))
    after_doubt doubt f t (inr (c, l, q)) = record {
      at = λ w p.
          (after_ambiguous-Ends key n c e l (subst (HasCalls n) q known) doubt f t).at w (p ∙ q);
    }

    after_transience :
        classification_of definition e ≡ retryable
        → Stems e k
        → (w : World) → Failed w
        → MayCall definition w.acts
    after_transience t (inl o) w p = absurd (ground (arith, t, IsOwn-definite e o))
    after_transience t (inr (c, l, q)) w p =
        subst (MayCall definition) (sym (p ∙ q)) (after_transient c e l t)

    after_told-Ends :
        (f : ClassifiedFailure)
        → f.failure_type ≡ recovery_failure_type e
        → f.classification ≡ classification_of definition e
        → Ends Failed (after_told env request definition key n f) (RoundEnds n) (Fails n)
    unfolding after_told should_retry
    after_told-Ends f t s =
        Ends-if (is_ambiguous f.classification)
          (λ a. after_doubt (sym s ∙ is_ambiguous-eq f.classification a) f t stems)
          (λ _.
            Ends-if (not (should_retry env.retry_policy f.classification n))
              (λ _. ending (give_up-Ends key n f))
              (λ r. record {
                at = λ w p. (retry_later-Ends key n f).at w (
                  Failed-Before w p,
                  after_transience (sym s ∙ retries f.classification r) stems w p,
                );
              }))
      where
        is_ambiguous-eq : (c : Classification) → is_ambiguous c ≡ true → c ≡ ambiguous
        is_ambiguous-eq ambiguous h = refl
        is_ambiguous-eq retryable h = absurd (ground arith)
        is_ambiguous-eq non_retryable h = absurd (ground arith)

        retries :
            (c : Classification) → not (should_retry env.retry_policy c n) ≡ false → c ≡ retryable
        retries retryable h = refl
        retries ambiguous h = absurd (ground arith)
        retries non_retryable h = absurd (ground arith)

    after_failure-at :
        (started_at : ℕ) (permit : CircuitPermit)
        → Ends Failed
            (after_failure env request definition key n started_at permit e)
            (RoundEnds n)
            (Fails n)
    unfolding after_failure classify_tool_failure
    after_failure-at started_at permit =
        Ends-bind (λ at. Failed) (calmly (IsCalm-now env))
          (λ at.
            Ends-bind (λ _. Failed)
              (calmly (IsCalm-on_records _ (add_attempt-IsOwnStore request.execution_id _)))
              (λ _.
                Ends-bind (λ circuit. Failed)
                  (calmly (IsCalm-report_failure env request definition key permit _))
                  (λ circuit.
                    Ends-bind (λ told. Failed)
                      (calmly (IsCalm-succeeds _ (IsCalm-emit env request _ n _ none)))
                      (λ told.
                        Ends-if (not told) (λ _. ending (end_after_failure n _))
                          (λ _.
                            Ends-bind (λ _. Failed)
                              (calmly (tell_if-IsCalm circuit.0 circuit_opened))
                              (λ told_opened.
                                Ends-if (not told_opened) (λ _. ending (end_after_failure n _))
                                  (λ _.
                                    Ends-bind (λ _. Failed)
                                      (calmly (tell_if-IsCalm circuit.1 circuit_closed))
                                      (λ told_closed.
                                        Ends-if (not told_closed)
                                          (λ _. ending (end_round n _ _ none none))
                                          (λ _. after_told-Ends _ refl refl)))))))))
      where
        tell_if-IsCalm : (b : Bool) (t : EventType) → IsCalm (tell_if env request b t n)
        tell_if-IsCalm b t =
            IsCalm-if b (IsCalm-succeeds _ (IsCalm-emit env request t n none none))
              (IsCalm-pure true)

  -- The catch clause, wherever it starts.
  pub after_failure-Ends :
      (key : String) (n started_at : ℕ) (permit : CircuitPermit) (e : Thrown)
      → Ends
          (λ w. HasCalls n w.acts × Stems e w.acts)
          (after_failure env request definition key n started_at permit e)
          (RoundEnds n)
          (Fails n)
  after_failure-Ends key n started_at permit e = record {
    at = λ w p. (after_failure-at key n e w.acts p.0 p.1 started_at permit).at w refl;
  }
