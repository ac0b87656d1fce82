-- ===== src/Executor/Run/Repeats/Requests.antt =====
-- How often execute (packages/executor/src/executor.ts) calls the tool of a request, whatever the
-- outside answers and whatever other executions do.
use drive_guard.Prelude.{ℕ, ◌≡◌, refl, sym, false, Option, none, some, List, [], ◌∙◌, arith, String}
use drive_guard.Exec.{Result, ok, err, require}
use drive_guard.Exec.Ends.{Ends, Ends-pure, Ends-attempt, Ends-after, Ends-bind}
use drive_guard.Json.{Value}
use drive_guard.Tools.{ToolDefinition}
use drive_guard.Executor.{Thrown, ErrorCode, ExecutionState, ExecutionRequest, ExecutionRecord}
use drive_guard.Executor.Run.{Env, Act, Executing, World, tell, execution_deduplicated}
use drive_guard.Executor.Run.Calm.{
  IsCalm, Ends-calm, IsCalm-bind, IsCalm-pure, IsCalm-raise, IsCalm-gets, IsCalm-require, IsCalm-if,
  IsCalm-awaited, IsCalm-on_records, IsCalm-succeeds,
}
use drive_guard.Executor.Run.Calm.Parts.{
  IsCalm-now, IsCalm-emit, IsCalm-reject, IsCalm-throw_if, transition-IsOwnStore, create-IsOwnStore,
}
use drive_guard.Executor.Run.Execute.{
  own_definition, check_fingerprint, check_issued, validate, validated, transition_own,
  settle_created, transition_duplicate, original_of, copy_result, answer_conflict, answer_duplicate,
}

module _ (env : Env) (request : ExecutionRequest) where
  IsCalm-check_fingerprint :
      (id : Option String) (version : Option ℕ) → IsCalm (check_fingerprint env request id version)
  IsCalm-check_fingerprint (some id) (some version) =
      IsCalm-bind _ _ (IsCalm-require _ _ refl) (λ fingerprint. IsCalm-throw_if _ _ refl)
  IsCalm-check_fingerprint (some id) none = IsCalm-raise _ refl
  IsCalm-check_fingerprint none version = IsCalm-raise _ refl

  IsCalm-check_issued : (d : ToolDefinition) → IsCalm (check_issued env request d)
  IsCalm-check_issued d = IsCalm-bind _ _ (IsCalm-gets _) (λ issued.
      IsCalm-bind _ _ (IsCalm-throw_if _ _ refl) (λ _.
        IsCalm-bind _ _ (IsCalm-require _ _ refl)
          (λ binding. IsCalm-bind _ _ (IsCalm-gets _) (λ bound. IsCalm-throw_if _ _ refl))))

  -- Nothing was called yet, and `d` is the definition of the tool.
  abbrev pub IsKnown : ToolDefinition → List Act → Type 0
  IsKnown d l = (l ≡ []) × (env.definition_of request.tool_name ≡ some d)

  abbrev pub Idle : World → Type 0
  Idle w = w.acts ≡ []

  still :
      {A : Type 0} {m : Executing A} (P : List Act → Type 0)
      → ((l : List Act) → P l → l ≡ [])
      → IsCalm m
      → Ends (λ w. P w.acts) m (λ a w. P w.acts) (λ e. Idle)
  still P f calm = Ends-after (Ends-calm P calm) (λ a w p. p) (λ e w p. f w.acts p.1)

  idle : {A : Type 0} {m : Executing A} → IsCalm m → Ends Idle m (λ a. Idle) (λ e. Idle)
  idle = still (λ l. l ≡ []) (λ l p. p)

  known :
      {A : Type 0} {m : Executing A} (d : ToolDefinition)
      → IsCalm m
      → Ends (λ w. IsKnown d w.acts) m (λ a w. IsKnown d w.acts) (λ e. Idle)
  known d = still (IsKnown d) (λ l p. p.0)

  own_definition-eq :
      (o : Option ToolDefinition) (d : ToolDefinition)
      → own_definition env request o ≡ some d
      → o ≡ some d
  own_definition-eq none d h = absurd (ground arith)
  own_definition-eq (some e) d h = ground (arith, h)

  require-Ends :
      (o : Option ToolDefinition) (e : Thrown)
      → o ≡ env.definition_of request.tool_name
      → Ends Idle (require e (own_definition env request o)) (λ d w. IsKnown d w.acts) (λ e. Idle)
  unfolding require
  require-Ends o e s = by (own_definition env request o) (λ d h. sym s ∙ own_definition-eq o d h)
    where
      by :
          (r : Option ToolDefinition)
          → ((d : ToolDefinition) → r ≡ some d → env.definition_of request.tool_name ≡ some d)
          → Ends Idle (require e r) (λ d w. IsKnown d w.acts) (λ e. Idle)
      by none f = record { at = λ w p. p }
      by (some d) f = record { at = λ w p. (p, f d refl) }

  validate-Ends : Ends Idle (validate env request) (λ d w. IsKnown d w.acts) (λ e. Idle)
  unfolding validate
  validate-Ends =
      Ends-bind (λ _. Idle) (idle (IsCalm-throw_if _ _ refl))
        (λ _.
          Ends-bind (λ _. Idle) (idle (IsCalm-throw_if _ _ refl))
            (λ _.
              Ends-bind (λ _. Idle) (idle (IsCalm-throw_if _ _ refl))
                (λ _.
                  Ends-bind (λ d w. IsKnown d w.acts) (require-Ends _ _ refl)
                    (λ d.
                      Ends-bind (λ _ w. IsKnown d w.acts) (known d (IsCalm-throw_if _ _ refl))
                        (λ _.
                          Ends-bind (λ _ w. IsKnown d w.acts) (known d (IsCalm-throw_if _ _ refl))
                            (λ _.
                              Ends-bind (λ _ w. IsKnown d w.acts)
                                (known d (IsCalm-throw_if _ _ refl))
                                (λ _.
                                  Ends-bind (λ _ w. IsKnown d w.acts)
                                    (known d
                                      (IsCalm-if _ (IsCalm-check_fingerprint _ _) (IsCalm-pure tt)))
                                    (λ _.
                                      Ends-bind (λ _ w. IsKnown d w.acts)
                                        (known d
                                          (IsCalm-if _ (IsCalm-check_issued d) (IsCalm-pure tt)))
                                        (λ _. Ends-pure d (λ w p. p))))))))))

  -- What a validation leaves.
  abbrev pub IsValidated : Result ErrorCode (ToolDefinition × String) → World → Type 0
  IsValidated (ok (d, binding)) w = IsKnown d w.acts
  IsValidated (err code) w = Idle w

  pub validated-Ends : Ends Idle (validated env request) IsValidated (λ e. Idle)
  unfolding validated
  validated-Ends =
      Ends-attempt (λ e. Idle)
        (Ends-bind (λ d w. IsKnown d w.acts) validate-Ends
          (λ d.
            Ends-bind (λ b w. IsKnown d w.acts) (known d (IsCalm-require _ _ refl))
              (λ b. Ends-pure _ (λ w p. p))))
        (λ e. Ends-pure _ (λ w p. p))

  transition_own-IsCalm :
      (next : ExecutionState) (at : ℕ) → IsCalm (transition_own env request next at)
  transition_own-IsCalm next at =
      IsCalm-bind _ _ (IsCalm-on_records _ (transition-IsOwnStore request.execution_id next at))
        (λ r. IsCalm-pure tt)

  settle_created-IsCalm :
      (found : Option ExecutionRecord) (status : ExecutionState) (at : ℕ)
      → IsCalm (settle_created env request found status at)
  settle_created-IsCalm none status at = IsCalm-pure tt
  settle_created-IsCalm (some r) status at =
      IsCalm-if _
        (IsCalm-if _ (transition_own-IsCalm _ at)
          (IsCalm-bind _ _ (transition_own-IsCalm _ at) (λ _. transition_own-IsCalm _ at)))
        (IsCalm-pure tt)

  transition_duplicate-IsCalm :
      (status : ExecutionState) (at : ℕ) → IsCalm (transition_duplicate env request status at)
  unfolding transition_duplicate
  transition_duplicate-IsCalm status at =
      IsCalm-bind _ _ (IsCalm-gets _) (λ found. settle_created-IsCalm found status at)

  original_of-IsCalm : (promise : ℕ) → IsCalm (original_of env request promise)
  unfolding original_of
  original_of-IsCalm promise = IsCalm-bind _ _ (IsCalm-gets _) (λ known. IsCalm-awaited env _)

  copy_result-IsCalm : (v : Option Value) → IsCalm (copy_result env request v)
  copy_result-IsCalm none = IsCalm-pure none
  copy_result-IsCalm (some v) = IsCalm-if _ (IsCalm-pure _) (IsCalm-raise _ refl)

  pub answer_conflict-IsCalm :
      (found : Option ExecutionRecord) (at : ℕ) → IsCalm (answer_conflict env request found at)
  answer_conflict-IsCalm none at =
      IsCalm-bind _ _ (IsCalm-on_records _ (create-IsOwnStore request at))
        (λ r. IsCalm-reject env request _ false)
  answer_conflict-IsCalm (some r) at = IsCalm-pure _

  deduplicated-IsCalm : IsCalm (tell env request execution_deduplicated 0)
  deduplicated-IsCalm = IsCalm-succeeds _ (IsCalm-emit env request _ 0 none none)

  pub answer_duplicate-IsCalm :
      (found : Option ExecutionRecord) (promise at : ℕ)
      → IsCalm (answer_duplicate env request found promise at)
  answer_duplicate-IsCalm (some r) promise at =
      IsCalm-bind _ _ (original_of-IsCalm promise) (λ original.
        IsCalm-bind _ _ (IsCalm-now env) (λ at.
          IsCalm-bind _ _ deduplicated-IsCalm
            (λ told. IsCalm-bind _ _ (copy_result-IsCalm original.result) (λ copy. IsCalm-pure _))))
  answer_duplicate-IsCalm none promise at =
      IsCalm-bind _ _ (IsCalm-on_records _ (create-IsOwnStore request at)) (λ made.
        IsCalm-bind _ _ (original_of-IsCalm promise) (λ original.
          IsCalm-bind _ _ (IsCalm-now env) (λ at. IsCalm-bind _ _ deduplicated-IsCalm (λ told.
            IsCalm-bind _ _ (transition_duplicate-IsCalm _ at) (λ _.
              IsCalm-if told
                (IsCalm-bind _ _ (copy_result-IsCalm original.result) (λ copy. IsCalm-pure _))
                (IsCalm-pure _))))))
