-- ===== src/Executor/Run/Repeats/Loop.antt =====
-- What the loop over the attempts does to the history of an execution.
use drive_guard.Prelude.{
  ap, ℕ, zero, suc, ◌+◌, ◌≤◌, ◌≡◌, refl, subst, sym, Option, none, some, [], arith, String, ◌∙◌,
}
use drive_guard.Exec.{Result, ok, err}
use drive_guard.Exec.Ends.{Ends, After, Ends-pure, Ends-after, Ends-bind}
use drive_guard.Tools.{ToolDefinition}
use drive_guard.Executor.{retry_exhausted, retries_exhausted, Thrown, ExecutionRequest}
use drive_guard.Executor.Recovery.{RecoveryReceipt}
use drive_guard.Executor.Run.{Env, ExecutionResult, World, circuit_key}
use drive_guard.Executor.Run.Finish.{finish_failed}
use drive_guard.Executor.Run.Failure.{Round, done, again}
use drive_guard.Executor.Run.Attempts.{go_on, rounds, run_rounds}
use drive_guard.Executor.Run.Repeats.{calls_in, IsCareful, MayCall, untried, first}
use drive_guard.Executor.Run.Repeats.Failures.{finish-Ends}
use drive_guard.Executor.Run.Repeats.Rounds.{Ready, Rounded, round-Ends}

module _ (env : Env) (request : ExecutionRequest) (definition : ToolDefinition) where
  abbrev max_calls : ℕ
  max_calls = env.retry_policy.max_attempts

  abbrev pub IsBounded : World → Type 0
  IsBounded w = IsCareful request definition w.acts × (calls_in w.acts ≤ max_calls)

  abbrev pub Counts : ExecutionResult → World → Type 0
  Counts r w = (r.attempt_count ≡ calls_in w.acts) × IsBounded w

  rounds-Ends :
      (key : String) (left n : ℕ) (receipt : Option RecoveryReceipt)
      → n + left ≡ max_calls
      → Ends
          (Ready env request definition n)
          (rounds env request definition key left (suc n) receipt)
          Counts
          (λ e. IsBounded)
  unfolding rounds
  rounds-Ends key zero n receipt m =
      subst
        (λ k.
          Ends (Ready env request definition n)
            (finish_failed env request retry_exhausted k retries_exhausted) Counts (λ e. IsBounded))
        (let e : n ≡ max_calls = omega arith in e)
        (Ends-after
          (record { at = λ w p. (finish-Ends env request definition n _ _ none none).at w p.0 })
          (λ r w p. (p.0 ∙ sym p.1.1, (p.1.0, omega (arith, p.1.1))))
          (λ e w p. (p.1.0, omega (arith, p.1.1))))
  rounds-Ends key (suc left) n receipt m =
      Ends-bind (λ r. Rounded env request definition key n r)
        (Ends-after (round-Ends env request definition key n receipt) (λ r w p. p)
          (λ e w p. (p.0, omega (arith, p.1))))
        (next (λ x. rounds-Ends key left (suc n) (some x) (omega arith)))
    where
      next :
          ((x : RecoveryReceipt)
            → Ends
                (Ready env request definition (suc n))
                (rounds env request definition key left (suc (suc n)) (some x))
                Counts
                (λ e. IsBounded))
          → (r : Round)
          → Ends
              (Rounded env request definition key n r)
              (go_on env request definition key
                (λ x. rounds env request definition key left (suc (suc n)) (some x))
                r)
              Counts
              (λ e. IsBounded)
      next rest (done r) = Ends-pure r (λ w p. (p.1, (p.0, omega (arith, p.2))))
      next rest (again x) = rest x

  -- From an execution that has not called its tool yet.
  pub run_rounds-Ends :
      Ends (λ w. w.acts ≡ []) (run_rounds env request definition) Counts (λ e. IsBounded)
  unfolding run_rounds
  run_rounds-Ends = record {
    at = λ w p. (rounds-Ends (circuit_key env.js definition) max_calls 0 none (omega arith)).at w (
        subst (λ l. (IsCareful request definition l × (calls_in l ≡ 0)) × MayCall definition l)
          (sym p) ((untried, refl), first));
  }

  -- What the loop over the attempts returns counts the calls of the tool: its attempt count is their
  -- number, from an empty history.
  pub run_rounds-attempt_count :
      (w : World) (r : ExecutionResult)
      → w.acts ≡ []
      → (run_rounds env request definition w).0 ≡ ok r
      → r.attempt_count ≡ calls_in (run_rounds env request definition w).1.acts
  run_rounds-attempt_count w r p e =
      counted (run_rounds env request definition w).0 (run_rounds env request definition w).1 e
        (run_rounds-Ends.at w p)
    where
      same : (a : ExecutionResult) → ◌≡◌ {A = Result Thrown ExecutionResult} (ok a) (ok r) → r ≡ a
      same a e = ground (arith, e)

      counted :
          (o : Result Thrown ExecutionResult) (v : World)
          → o ≡ ok r
          → After Counts (λ e. IsBounded) o v
          → r.attempt_count ≡ calls_in v.acts
      counted (ok a) v e h = ap (λ (k : ExecutionResult). k.attempt_count) (same a e) ∙ h.0
      counted (err x) v e h = absurd (ground (arith, e))
