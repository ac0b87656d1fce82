-- ===== src/Executor/Run/Repeats.antt =====
-- When an execution may call its tool again: a reading of the history of an execution.
pub mod Failures
pub mod Rounds
pub mod Loop
pub mod Executions
pub mod Requests
pub mod Calls
use drive_guard.Prelude.{ℕ, suc, ◌≤◌, ◌≡◌, refl, true, List, [], ◌∷◌, Option, arith}
use drive_guard.Exec.{Result, err}
use drive_guard.Json.{Value}
use drive_guard.Tools.{ToolDefinition, non_idempotent}
use drive_guard.Executor.{Classification, retryable, ambiguous, Thrown, ExecutionRequest}
use drive_guard.Executor.Recovery.{ReconciliationStatus, not_executed, is_idempotent}
use drive_guard.Executor.Failures.{classify_tool_failure}
use drive_guard.Executor.Run.{Act, called, reconciled, ToolCall, is_retry_safe}

-- How often the tool was called.
abbrev pub calls_in : List Act → ℕ
calls_in [] = 0
calls_in (called c r ∷ l) = suc (calls_in l)
calls_in (reconciled s ∷ l) = calls_in l

abbrev pub classification_of : ToolDefinition → Thrown → Classification
classification_of d e = (classify_tool_failure e d.side_effect (is_retry_safe d)).classification

-- The tool may be called after this history: it was not called yet, or its last call failed in a
-- way that can be retried, or the side effect of its last call is in doubt, the reconciler said that
-- it did not take place, and the tool is idempotent.
pub data MayCall (d : ToolDefinition) : List Act → Type 0 where
  first : MayCall d []
  after_transient :
      (c : ToolCall) (e : Thrown) (l : List Act)
      → classification_of d e ≡ retryable
      → MayCall d (called c (err e) ∷ l)
  after_not_executed :
      (c : ToolCall) (e : Thrown) (l : List Act)
      → is_idempotent d.idempotency_hint ≡ true
      → classification_of d e ≡ ambiguous
      → MayCall d (reconciled not_executed ∷ (called c (err e) ∷ l))

module _ (request : ExecutionRequest) (d : ToolDefinition) where
  abbrev pub next_call : List Act → ToolCall
  next_call l = record {
    definition = d;
    validated_arguments = request.validated_arguments;
    attempt = suc (calls_in l);
    idempotency_key = request.idempotency_key;
  }

  -- Every call in the history was allowed when it was made, is the call of the request under its
  -- idempotency key, and has the number after those before it.
  pub data IsCareful : List Act → Type 0 where
    untried : IsCareful []
    call :
        (l : List Act) (r : Result Thrown (Option Value))
        → IsCareful l
        → MayCall d l
        → IsCareful (called (next_call l) r ∷ l)
    ask : (l : List Act) (s : ReconciliationStatus) → IsCareful l → IsCareful (reconciled s ∷ l)

-- A side effect that is not idempotent may only be called first.
MayCall-once :
    (d : ToolDefinition) (l : List Act)
    → d.side_effect ≡ true
    → d.idempotency_hint ≡ non_idempotent
    → MayCall d l
    → calls_in l ≡ 0
unfolding classify_tool_failure
MayCall-once d _ s h first = refl
MayCall-once d _ s h (after_transient c e l t) = absurd (ground (arith, s, h, t))
MayCall-once d _ s h (after_not_executed c e l i t) = absurd (ground (arith, h, i))

pub IsCareful-once :
    (request : ExecutionRequest) (d : ToolDefinition) (l : List Act)
    → d.side_effect ≡ true
    → d.idempotency_hint ≡ non_idempotent
    → IsCareful request d l
    → calls_in l ≤ 1
IsCareful-once request d _ s h untried = omega arith
IsCareful-once request d _ s h (call l r c m) = omega (arith, MayCall-once d l s h m)
IsCareful-once request d _ s h (ask l x c) = IsCareful-once request d l s h c
