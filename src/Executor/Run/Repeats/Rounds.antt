-- ===== src/Executor/Run/Repeats/Rounds.antt =====
-- What a round of the loop, and the loop, do to the history of an execution.
use drive_guard.Prelude.{
  ℕ, suc, ◌-◌, ◌≤◌, ◌≡◌, refl, sym, subst, inl, inr, Bool, true, not, Option, none, List, ◌∷◌, ◌∙◌,
  arith, String,
}
use drive_guard.Exec.{Result, ok, err, modify}
use drive_guard.Exec.Ends.{Ends, Ends-pure, Ends-if, Ends-attempt, Ends-after, Ends-bind}
use drive_guard.Json.{Value}
use drive_guard.Tools.{ToolDefinition}
use drive_guard.Executor.{failed, Thrown, ErrorCode, ExecutionRequest}
use drive_guard.Executor.Circuit.{CircuitPermit, refused, allowed, probing}
use drive_guard.Executor.Recovery.{RecoveryReceipt}
use drive_guard.Executor.Run.{
  Env, EventType, Executing, ExecutionResult, World, Act, called, tell_if, awaited, returned,
}
use drive_guard.Executor.Run.Finish.{finish_failed}
use drive_guard.Executor.Run.Failure.{Round, done, again, finished, is_probing}
use drive_guard.Executor.Run.Attempts.{
  tool_call, call_tool, clone_result, after_value, run_attempt, fail_probe, start_attempt,
  with_permit, round,
}
use drive_guard.Executor.Run.Calm.{
  IsCalm, Ends-calm, IsCalm-bind, IsCalm-outside, IsCalm-on_circuits, IsCalm-on_records,
  IsCalm-succeeds, IsCalm-if, IsCalm-pure, IsCalm-raise,
}
use drive_guard.Executor.Run.Calm.Parts.{IsCalm-now, IsCalm-emit, add_attempt-IsOwnStore}
use drive_guard.Executor.Run.Repeats.{calls_in, MayCall, IsCareful, call}
use drive_guard.Executor.Run.Repeats.Failures.{
  HasCalls, RoundEnds, Fails, Before, Stems, finish-Ends, end_round, end_after_effect,
  after_failure-Ends,
}

module _ (env : Env) (request : ExecutionRequest) (definition : ToolDefinition) where
  -- Before the call with the number `suc n`.
  abbrev pub Ready : ℕ → World → Type 0
  Ready n w = HasCalls env request definition n w.acts × MayCall definition w.acts

  tell_if-IsCalm : (b : Bool) (t : EventType) (number : ℕ) → IsCalm (tell_if env request b t number)
  tell_if-IsCalm b t number =
      IsCalm-if b (IsCalm-succeeds _ (IsCalm-emit env request t number none none))
        (IsCalm-pure true)

  suc_pred : (n : ℕ) → suc n - 1 ≡ n
  suc_pred n = omega arith

  module _ (key : String) (n : ℕ) where
    abbrev After : World → Type 0
    After = Before env request definition (suc n)

    tool_called :
        (l : List Act) (r : Result Thrown (Option Value))
        → HasCalls env request definition n l
        → MayCall definition l
        → HasCalls env request definition
            (suc n)
            (called (tool_call env request definition key (suc n)) r ∷ l)
    tool_called l r h m = (
      subst
          (λ k.
            IsCareful request definition
              (called (tool_call env request definition key (suc k)) r ∷ l))
          h.1 (call l r h.0 m),
      omega (arith, h.1),
    )

    -- The tool gave this answer last.
    abbrev Answered : Result Thrown (Option Value) → World → Type 0
    Answered r w =
        (l : List Act) × (w.acts ≡ called (tool_call env request definition key (suc n)) r ∷ l)
        × HasCalls env request definition (suc n) w.acts

    returned-Ends :
        (r : Result Thrown (Option Value))
        → Ends
            (Answered r)
            (returned r)
            (λ v w. After w)
            (λ e w. After w × Stems env request definition e w.acts)
    unfolding returned
    returned-Ends (ok v) = record { at = λ w p. p.2 }
    returned-Ends (err e) = record {
      at = λ w p. (p.2, inr (tool_call env request definition key (suc n), p.0, p.1));
    }

    call_tool-Ends :
        Ends
          (Ready n)
          (call_tool env request definition key (suc n))
          (λ v w. After w)
          (λ e w. After w × Stems env request definition e w.acts)
    unfolding call_tool awaited modify
    call_tool-Ends =
        Ends-bind (λ answer. Ready n) (record { at = λ w p. p })
          (λ answer.
            Ends-bind (λ _. Answered answer)
              (record { at = λ w p. (w.acts, refl, tool_called w.acts answer p.0 p.1) })
              (λ _. returned-Ends answer))

    calmly :
        {A : Type 0} {m : Executing A}
        → IsCalm m
        → Ends After m (λ a w. After w) (Fails env request definition (suc n))
    calmly calm = Ends-calm (HasCalls env request definition (suc n)) calm

    after_value-Ends :
        (started_at : ℕ) (receipt : Option RecoveryReceipt) (value : Option Value)
        → Ends After
            (after_value env request definition key (suc n) started_at receipt value)
            (RoundEnds env request definition (suc n))
            (Fails env request definition (suc n))
    unfolding after_value clone_result
    after_value-Ends started_at receipt value =
        Ends-bind (λ at. After) (calmly (IsCalm-now env))
          (λ at.
            Ends-bind (λ _. After)
              (calmly (IsCalm-on_records _ (add_attempt-IsOwnStore request.execution_id _)))
              (λ _.
                Ends-bind (λ change. After) (calmly (IsCalm-on_circuits _))
                  (λ change.
                    Ends-bind (λ told. After) (calmly (tell_if-IsCalm _ _ (suc n)))
                      (λ told.
                        Ends-if (not told) (λ _. end_after_effect env request definition (suc n))
                          (λ _.
                            Ends-bind (λ told. After)
                              (calmly
                                (IsCalm-succeeds _ (IsCalm-emit env request _ (suc n) none none)))
                              (λ told.
                                Ends-if (not told)
                                  (λ _. end_after_effect env request definition (suc n))
                                  (λ _.
                                    Ends-bind (λ copy. After)
                                      (Ends-if (env.clones value) (λ _. calmly (IsCalm-pure value))
                                        (λ _. calmly (IsCalm-raise _ refl)))
                                      (λ copy.
                                        end_round env request definition (suc n) _ none copy
                                          _))))))))

    run_attempt-Ends :
        (started_at : ℕ) (permit : CircuitPermit) (receipt : Option RecoveryReceipt)
        → Ends
            (Ready n)
            (run_attempt env request definition key (suc n) started_at permit receipt)
            (RoundEnds env request definition (suc n))
            (Fails env request definition (suc n))
    unfolding run_attempt
    run_attempt-Ends started_at permit receipt =
        Ends-attempt (λ e w. After w × Stems env request definition e w.acts)
          (Ends-bind (λ v. After) call_tool-Ends
            (λ v.
              Ends-after (after_value-Ends started_at receipt v) (λ r w p. p)
                (λ e w p. (p.1, inl p.0))))
          (λ e. after_failure-Ends env request definition key (suc n) started_at permit e)

    -- After a round that began with `n` calls.
    abbrev pub Rounded : Round → World → Type 0
    Rounded (done r) w =
        IsCareful request definition w.acts
        × (r.attempt_count ≡ calls_in w.acts)
        × (calls_in w.acts ≤ suc n)
    Rounded (again x) w = Ready (suc n) w

    abbrev pub Breaks : Thrown → World → Type 0
    Breaks e w = IsCareful request definition w.acts × (calls_in w.acts ≤ suc n)

    idle : {A : Type 0} {m : Executing A} → IsCalm m → Ends (Ready n) m (λ a. Ready n) Breaks
    idle calm =
        Ends-after
          (Ends-calm (λ l. HasCalls env request definition n l × MayCall definition l) calm)
          (λ a w p. p) (λ e w p. (p.1.0.0, omega (arith, p.1.0.1)))

    -- The round ends before the tool is called.
    end_idle :
        (m : Executing ExecutionResult)
        → Ends
            (Before env request definition n)
            m
            (λ r w. (r.attempt_count ≡ n) × HasCalls env request definition n w.acts)
            (Fails env request definition n)
        → Ends (Ready n) (finished m) Rounded Breaks
    end_idle m h =
        Ends-bind (λ r w. (r.attempt_count ≡ n) × HasCalls env request definition n w.acts)
          (Ends-after (record { at = λ w p. h.at w p.0 }) (λ r w p. p)
            (λ e w p. (p.1.0, omega (arith, p.1.1))))
          (λ r. Ends-pure _ (λ w p. (p.1.0, p.0 ∙ sym p.1.1, omega (arith, p.1.1))))

    fail_probe-IsCalm : IsCalm (fail_probe env request definition key)
    unfolding fail_probe
    fail_probe-IsCalm =
        IsCalm-bind _ _ (IsCalm-outside env.now_ms)
          (λ ms. IsCalm-bind _ _ (IsCalm-on_circuits _) (λ change. IsCalm-pure tt))

    end_early :
        (code : ErrorCode)
        → Ends
            (Ready n)
            (finished (finish_failed env request failed (suc n - 1) code))
            Rounded
            Breaks
    end_early code =
        end_idle _ (rw (suc_pred n) (finish-Ends env request definition n failed _ none none))

    attempted :
        (started_at : ℕ) (permit : CircuitPermit) (receipt : Option RecoveryReceipt)
        → Ends
            (Ready n)
            (run_attempt env request definition key (suc n) started_at permit receipt)
            Rounded
            Breaks
    attempted started_at permit receipt =
        Ends-after (run_attempt-Ends started_at permit receipt) rounded
          (λ e w p. (p.1.0, omega (arith, p.1.1)))
      where
        rounded :
            (r : Round) (w : World) → RoundEnds env request definition (suc n) r w → Rounded r w
        rounded (done r) w p = (p.1.0, p.0 ∙ sym p.1.1, omega (arith, p.1.1))
        rounded (again x) w p = p

    start_attempt-Ends :
        (permit : CircuitPermit) (receipt : Option RecoveryReceipt)
        → Ends
            (Ready n)
            (start_attempt env request definition key (suc n) permit receipt)
            Rounded
            Breaks
    unfolding start_attempt
    start_attempt-Ends permit receipt =
        Ends-bind (λ at. Ready n) (idle (IsCalm-now env))
          (λ at.
            Ends-bind (λ told. Ready n)
              (idle (IsCalm-succeeds _ (IsCalm-emit env request _ (suc n) none none)))
              (λ told.
                Ends-if told (λ _. attempted at permit receipt)
                  (λ _.
                    Ends-bind (λ _. Ready n)
                      (idle (IsCalm-if (is_probing permit) fail_probe-IsCalm (IsCalm-pure tt)))
                      (λ _. end_early _))))

    with_permit-Ends :
        (receipt : Option RecoveryReceipt) (permit : CircuitPermit)
        → Ends
            (Ready n)
            (with_permit env request definition key (suc n) receipt permit)
            Rounded
            Breaks
    with_permit-Ends receipt refused = end_early _
    with_permit-Ends receipt allowed = start_attempt-Ends allowed receipt
    with_permit-Ends receipt probing =
        Ends-bind (λ told. Ready n)
          (idle (IsCalm-succeeds _ (IsCalm-emit env request _ (suc n) none none)))
          (λ told.
            Ends-if told (λ _. start_attempt-Ends probing receipt)
              (λ _. Ends-bind (λ _. Ready n) (idle fail_probe-IsCalm) (λ _. end_early _)))

    pub round-Ends :
        (receipt : Option RecoveryReceipt)
        → Ends (Ready n) (round env request definition key (suc n) receipt) Rounded Breaks
    unfolding round
    round-Ends receipt =
        Ends-bind (λ ms. Ready n) (idle (IsCalm-outside env.now_ms))
          (λ ms.
            Ends-bind (λ permit. Ready n) (idle (IsCalm-on_circuits _))
              (λ permit. with_permit-Ends receipt permit))
