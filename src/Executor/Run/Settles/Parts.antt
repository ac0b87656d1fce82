-- ===== src/Executor/Run/Settles/Parts.antt =====
-- The parts of executor.ts that return while the clock reads timestamps and the record of the
-- request is there.
use drive_guard.Prelude.{
  ℕ, Bool, true, false, Option, none, some, ◌≤◌, ◌≡◌, ◌∙◌, refl, subst, sym, arith, String,
}
use drive_guard.Exec.{pure, require, gets, ◌>>=◌, ◌>>◌}
use drive_guard.Exec.Ends.{Ends, Ends-pure, Ends-bind}
use drive_guard.Json.{Value}
use drive_guard.Context.Time.{to_utc_timestamp, max_timestamp}
use drive_guard.Tools.{ToolDefinition}
use drive_guard.Executor.{
  Thrown, ExecutionState, created, running, rejected, ErrorCode, Classification, retryable,
  non_retryable, ambiguous, ExecutionRecord, ExecutionRequest, SafeError,
}
use drive_guard.Executor.Circuit.{CircuitPermit, refused, allowed, probing}
use drive_guard.Executor.Circuit
use drive_guard.Executor.Records.{is_legal}
use drive_guard.Executor.Recovery.{RecoveryReceipt, delay_for_retry}
use drive_guard.Executor.Run.{
  Env, World, ExecutionEvent, ExecutionResult, EventType, EventCode, outside, on_circuits, awaited,
  now, emit, deliver, sleep, tell, tell_if,
}
use drive_guard.Executor.Run.Finish.{
  finish, rejection_result, reject, transition_if, own_record, is_record_running, is_record_created,
}
use drive_guard.Executor.Run.Failure.{schedule_retry, report_failure}
use drive_guard.Executor.Run.Attempts.{fail_probe}
use drive_guard.Executor.Run.Settles.{
  is_settled, IsClock, LeavesOwn, HasState, same_records, Keeps, Returns, Returns-pure, Keeps-pure,
  Keeps-raise, Returns-outside, Returns-on_circuits, Keeps-Returns, Keeps-if, Returns-if,
  Returns-succeeds, Keeps-bind, Returns-bind, Keeps-record, transition-Ends,
}

module _ (env : Env) (request : ExecutionRequest) (clock : IsClock env)
    (alone : LeavesOwn env request) where
  abbrev Own : ExecutionState → World → Type 0
  Own = HasState request

  pub Returns-awaited : {A : Type 0} (f : ℕ → A) → Returns env request (awaited env f)
  unfolding awaited
  Returns-awaited f = record {
    at = λ s. record {
      at = λ w h. record {
        own = h.own;
        found = alone w.calls w.records ∙ h.found;
        state_eq = h.state_eq;
      };
    };
  }

  in_range : (ms : ℕ) → ms ≤ max_timestamp → to_utc_timestamp ms ≡ some ms
  unfolding to_utc_timestamp
  in_range ms h = ground arith

  pub Returns-now : Returns env request (now env)
  unfolding now outside require ◌>>=◌
  Returns-now = record {
    at = λ s. record {
      at = λ w h.
          rw (in_range (env.now_ms w.calls) (clock w.calls))
            (same_records env request s _ w refl h);
    };
  }

  Keeps-deliver : (b : Bool) (event : ExecutionEvent) → Keeps env request (deliver env b event)
  Keeps-deliver true event = Keeps-record env request event
  Keeps-deliver false event = Keeps-raise env request _

  pub Keeps-emit :
      (t : EventType) (number : ℕ) (code : Option EventCode) (delay_ms : Option ℕ)
      → Keeps env request (emit env request t number code delay_ms)
  unfolding emit
  Keeps-emit t number code delay_ms =
      Keeps-bind env request _ _ (Keeps-Returns env request Returns-now) (λ at.
        Keeps-bind env request _ _ (Keeps-Returns env request (Returns-awaited _))
          (λ b. Keeps-deliver b _))

  Keeps-sleep : (delay_ms : ℕ) → Keeps env request (sleep env delay_ms)
  unfolding sleep
  Keeps-sleep delay_ms =
      Keeps-bind env request _ _ (Keeps-Returns env request (Returns-awaited _))
        (λ b. Keeps-if env request b (Keeps-pure env request tt) (Keeps-raise env request _))

  pub Returns-tell : (t : EventType) (number : ℕ) → Returns env request (tell env request t number)
  Returns-tell t number = Returns-succeeds env request _ (Keeps-emit t number none none)

  pub Returns-tell_if :
      (b : Bool) (t : EventType) (number : ℕ) → Returns env request (tell_if env request b t number)
  Returns-tell_if b t number =
      Returns-if env request b (Returns-tell t number) (Returns-pure env request true)

  module _ (definition : ToolDefinition) (key : String) where
    pub Returns-schedule_retry :
        (number : ℕ) (code : ErrorCode)
        → Returns env request (schedule_retry env request definition key number code)
    Returns-schedule_retry number code = Returns-succeeds env request _ (
        Keeps-bind env request _ _ (Keeps-emit _ number _ _)
          (λ _. Keeps-sleep (delay_for_retry env.retry_policy number)))

    told_breaker :
        {A : Type 0} (f : Circuit.Change → A)
        → Returns env request (do
          ms ← outside env.now_ms
          change ← on_circuits (Circuit.failed env.failure_threshold ms key)
          pure (f change))
    told_breaker f = Returns-bind env request _ _ (Returns-outside env request env.now_ms) (λ ms.
        Returns-bind env request _ _
          (Returns-on_circuits env request (Circuit.failed env.failure_threshold ms key))
          (λ change. Returns-pure env request (f change)))

    pub Returns-report_failure :
        (permit : CircuitPermit) (c : Classification)
        → Returns env request (report_failure env request definition key permit c)
    unfolding report_failure
    Returns-report_failure permit retryable = told_breaker _
    Returns-report_failure permit ambiguous = told_breaker _
    Returns-report_failure refused non_retryable = Returns-pure env request (false, false)
    Returns-report_failure allowed non_retryable = Returns-pure env request (false, false)
    Returns-report_failure probing non_retryable =
        Returns-bind env request _ _ (Returns-on_circuits env request (Circuit.succeeded key))
          (λ change. Returns-pure env request _)

    pub Returns-fail_probe : Returns env request (fail_probe env request definition key)
    unfolding fail_probe
    Returns-fail_probe = told_breaker (λ change. tt)

  -- The result agrees with the record, which is settled.
  abbrev pub Settled : ExecutionResult → World → Type 0
  Settled r w = Own r.status w × (is_settled r.status ≡ true)

  module _ (s t : ExecutionState) (legal : is_legal s t ≡ true) where
    transition_if-Ends :
        (b : Bool) (at : ℕ)
        → b ≡ true
        → Ends (Own s) (transition_if env request b t at) (λ _. Own t) (λ e w. ⊥)
    transition_if-Ends true at e =
        Ends-bind (λ r. Own t) (transition-Ends env request s t at legal)
          (λ r. Ends-pure tt (λ w h. h))
    transition_if-Ends false at e = absurd (ground arith)

    -- The record as `this.#records.get` finds it passes a test that its state passes.
    found-Ends :
        (test : Option ExecutionRecord → Bool)
        → ((r : ExecutionRecord) → r.state ≡ s → test (some r) ≡ true)
        → Ends {E = Thrown}
            (Own s)
            (gets (own_record env request))
            (λ found w. Own s w × (test found ≡ true))
            (λ e w. ⊥)
    unfolding gets
    found-Ends test f = record { at = λ w h. (h, rw h.found (f h.own h.state_eq)) }

    -- A test of the record, then the transition.
    moved-Ends :
        (test : Option ExecutionRecord → Bool) (at : ℕ)
        (answer : Option ExecutionRecord → ExecutionResult)
        → ((r : ExecutionRecord) → r.state ≡ s → test (some r) ≡ true)
        → ((found : Option ExecutionRecord) → (answer found).status ≡ t)
        → is_settled t ≡ true
        → Ends
            (Own s)
            (do
              found ← gets (own_record env request)
              transition_if env request (test found) t at
              pure (answer found))
            Settled
            (λ e w. ⊥)
    moved-Ends test at answer f g settled =
        Ends-bind (λ found w. Own s w × (test found ≡ true)) (found-Ends test f)
          (λ found.
            Ends-bind (λ _. Own t)
              (record { at = λ w h. (transition_if-Ends (test found) at h.1).at w h.0 })
              (λ _. Ends-pure (answer found) (λ w h. (
                subst (λ k. Own k w) (sym (g found)) h,
                subst (λ k. is_settled k ≡ true) (sym (g found)) settled,
              ))))

  pub finish-Settled :
      (status : ExecutionState) (attempts : ℕ) (error : Option SafeError) (result : Option Value)
      (recovery : Option RecoveryReceipt)
      → is_legal running status ≡ true
      → is_settled status ≡ true
      → Ends
          (Own running)
          (finish env request status attempts error result recovery)
          Settled
          (λ e w. ⊥)
  unfolding finish
  finish-Settled status attempts error result recovery legal settled =
      Ends-bind (λ at. Own running) (Returns-now.at running)
        (λ at.
          moved-Ends running status legal is_record_running at _ (λ r e. rw e refl) (λ found. refl)
            settled)

  pub reject-Settled :
      (code : ErrorCode) (is_retryable : Bool)
      → Ends (Own created) (reject env request code is_retryable) Settled (λ e w. ⊥)
  unfolding reject is_legal rejection_result
  reject-Settled code is_retryable =
      Ends-bind (λ at. Own created) (Returns-now.at created)
        (λ at.
          moved-Ends created rejected refl is_record_created at _ (λ r e. rw e refl) (λ found. refl)
            refl)
