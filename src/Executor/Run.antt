-- ===== src/Executor/Run.antt =====
-- packages/executor/src: what the executor shares while a request runs (executor.ts, events.ts), and
-- the actions that its parts are made of. A call out of the process is answered by the environment,
-- by the number of the call; while an awaited call runs, other executions may change the records, the
-- circuits and the policy decisions, as the environment says.
pub mod Finish
pub mod Failure
pub mod Attempts
pub mod Binding
pub mod Owner
pub mod Execute
pub mod Calm
pub mod Repeats
pub mod Settles
use drive_guard.Prelude.{
  ℕ, suc, String, Bool, true, false, ◌||◌, not, Option, none, some, List, [], ◌∷◌, ◌++◌,
  if◌then◌else◌, str_eq,
}
use drive_guard.Exec.{Result, ok, err, Exec, pure, raise, require, ◌>>=◌, ◌>>◌, modify}
use drive_guard.Js.{Js}
use drive_guard.Json.{Value}
use drive_guard.Tools.{
  ToolDefinition, ServiceName, vehicle_simulator, weather, emergency_support, IdempotencyHint,
  read_only, idempotent, non_idempotent,
}
use drive_guard.Context.Time.{to_utc_timestamp}
use drive_guard.Policy.Provenance.{Issued}
use drive_guard.Lifecycle.Canonical.{join}
use drive_guard.Lifecycle.Consumption.{ConsumeCommand}
use drive_guard.Executor.{
  ExecutionState, ErrorCode, internal_execution_error, other_error, absent, Thrown, fault,
  ExecutionRequest, SafeError,
}
use drive_guard.Executor.Circuit.{Circuits}
use drive_guard.Executor.Idempotency.{Idempotency}
use drive_guard.Executor.Records.{ExecutionRecords, Store}
use drive_guard.Executor.Recovery.{ReconciliationStatus, RecoveryReceipt, RetryPolicy}

-- EXECUTION_EVENT_TYPES
pub data EventType : Type 0 where
  execution_started execution_attempt_started execution_attempt_failed execution_retry_scheduled
        execution_deduplicated circuit_opened circuit_half_open circuit_closed
        authorization_consumed execution_succeeded execution_failed execution_outcome_unknown
        execution_reconciliation_started execution_reconciliation_completed :
      EventType

-- The text in `errorCode`: the code of an error, or the status of a reconciliation.
pub data EventCode : Type 0 where
  error_code : ErrorCode → EventCode
  reconciliation_code : ReconciliationStatus → EventCode

-- ExecutionEvent
pub record ExecutionEvent : Type 0 where
  pub event_type : EventType
  pub execution_id : String
  pub run_id : String
  pub session_id : String
  pub trace_id : String
  pub action_id : Option String
  pub tool_name : String
  pub attempt : ℕ
  pub timestamp : ℕ
  pub error_code : Option EventCode
  pub delay_ms : Option ℕ

-- ExecutionResult; a missing result is the value undefined.
pub record ExecutionResult : Type 0 where
  pub execution_id : String
  pub tool_name : String
  pub status : ExecutionState
  pub attempt_count : ℕ
  pub deduplicated : Bool
  pub started_at : ℕ
  pub completed_at : ℕ
  pub result : Option Value
  pub error : Option SafeError
  pub recovery : Option RecoveryReceipt

-- What definition.execute is called with.
pub record ToolCall : Type 0 where
  pub definition : ToolDefinition
  pub validated_arguments : Value
  pub attempt : ℕ
  pub idempotency_key : String

-- What ExecutionReconciler.reconcile is called with.
pub record ReconciliationQuery : Type 0 where
  pub tool_name : String
  pub validated_arguments : Value
  pub idempotency_key : String

-- What an execution asked of the outside and was answered.
pub data Act : Type 0 where
  called : ToolCall → Result Thrown (Option Value) → Act
  reconciled : ReconciliationStatus → Act

-- `acts` is the history of this execution, the latest first; it is no part of the program.
pub record World : Type 0 where
  pub records : ExecutionRecords
  pub circuits : Circuits
  pub issued : Issued
  pub idempotency : Idempotency ExecutionResult
  pub events : List ExecutionEvent
  pub acts : List Act
  pub calls : ℕ

-- The answers to the n-th call out of the process. `tool` is what timeoutController.run gives of the
-- tool; `refuses` is what the authorization consumer throws, if it throws; `clones` is whether
-- structuredClone takes the value; `admits` is whether the concurrency controller lets it run;
-- `original` is what the owner of a promise, still at work, settles it with.
pub record Env : Type 0 where
  pub js : Js
  pub now_ms : ℕ → ℕ
  pub delivers : ℕ → ExecutionEvent → Bool
  pub tool : ℕ → ToolCall → Result Thrown (Option Value)
  pub sleeps : ℕ → ℕ → Bool
  pub refuses : ℕ → ConsumeCommand → Option Thrown
  pub reconciler : Option (ℕ → ReconciliationQuery → Option (ReconciliationStatus × Option Value))
  pub clones : Option Value → Bool
  pub admits : ℕ → Bool
  pub others_records : ℕ → ExecutionRecords → ExecutionRecords
  pub others_circuits : ℕ → Circuits → Circuits
  pub others_issued : ℕ → Issued → Issued
  pub others_idempotency : ℕ → Idempotency ExecutionResult → Idempotency ExecutionResult
  pub original : ℕ → ℕ → ExecutionResult
  pub definition_of : String → Option ToolDefinition
  pub retry_policy : RetryPolicy
  pub failure_threshold : ℕ
  pub cooldown_ms : ℕ

abbrev pub Executing : Type 0 → Type 0
Executing A = Exec World Thrown A

-- An error of no class of the program.
abbrev pub other_thrown : Thrown
other_thrown = record { kind = other_error; failure_type = absent }

unfoldable pub outside : {A : Type 0} → (ℕ → A) → Executing A
outside f w = (ok (f w.calls), record w { calls = suc w.calls })

unfoldable pub on_records : {A : Type 0} → Store A → Executing A
on_records m w = let (r, records) = m w.records in (r, record w { records = records })

unfoldable pub on_circuits : {A : Type 0} → (Circuits → A × Circuits) → Executing A
on_circuits m w = let (a, circuits) = m w.circuits in (ok a, record w { circuits = circuits })

unfoldable pub on_idempotency :
    {A : Type 0} → (Idempotency ExecutionResult → A × Idempotency ExecutionResult) → Executing A
on_idempotency m w =
    let (a, idempotency) = m w.idempotency in (ok a, record w { idempotency = idempotency })

unfoldable pub on_issued : {A : Type 0} → (Issued → A × Issued) → Executing A
on_issued m w = let (a, issued) = m w.issued in (ok a, record w { issued = issued })

abbrev pub told : {A : Type 0} → Result Thrown A → Bool
told (ok a) = true
told (err e) = false

-- `try { await m; return true } catch { return false }`
unfoldable pub succeeds : {A : Type 0} → Executing A → Executing Bool
succeeds m w = let (r, w') = m w in (ok (told r), w')

-- A result that came from outside, returned or thrown.
unfoldable pub returned : {A : Type 0} → Result Thrown A → Executing A
returned r w = (r, w)

module _ (env : Env) where
  -- An `await` of a call out of the process.
  unfoldable pub awaited : {A : Type 0} → (ℕ → A) → Executing A
  awaited f w = (
    ok (f w.calls),
    record w {
      calls = suc w.calls;
      records = env.others_records w.calls w.records;
      circuits = env.others_circuits w.calls w.circuits;
      issued = env.others_issued w.calls w.issued;
      idempotency = env.others_idempotency w.calls w.idempotency;
    },
  )

  -- toUtcTimestamp(this.#clock.nowMs())
  unfoldable pub now : Executing ℕ
  unfolding outside
  now = do ms ← outside env.now_ms; require other_thrown (to_utc_timestamp ms)

  abbrev pub deliver : Bool → ExecutionEvent → Executing (Unit {0})
  deliver delivered event =
      if delivered
      then modify (λ w. record w { events = w.events ++ event ∷ [] })
      else raise (fault internal_execution_error)

  module _ (request : ExecutionRequest) where
    abbrev pub event_at : EventType → ℕ → Option EventCode → Option ℕ → ℕ → ExecutionEvent
    event_at event_type number code delay_ms timestamp = record {
      event_type = event_type;
      execution_id = request.execution_id;
      run_id = request.run_id;
      session_id = request.session_id;
      trace_id = request.trace_id;
      action_id = request.action_id;
      tool_name = request.tool_name;
      attempt = number;
      timestamp = timestamp;
      error_code = code;
      delay_ms = delay_ms;
    }

    -- #emit
    unfoldable pub emit : EventType → ℕ → Option EventCode → Option ℕ → Executing (Unit {0})
    unfolding now awaited
    emit event_type number code delay_ms = do
      timestamp ← now
      delivered ← awaited (λ n. env.delivers n (event_at event_type number code delay_ms timestamp))
      deliver delivered (event_at event_type number code delay_ms timestamp)

    -- An event of which only a delivery or its failure matters next.
    abbrev pub tell : EventType → ℕ → Executing Bool
    tell event_type number = succeeds (emit event_type number none none)

    abbrev pub tell_if : Bool → EventType → ℕ → Executing Bool
    tell_if b event_type number = if b then tell event_type number else pure true

    abbrev pub tell_code : EventType → ℕ → ErrorCode → Executing Bool
    tell_code event_type number code =
        succeeds (emit event_type number (some (error_code code)) none)

  -- this.#sleeper.sleep
  unfoldable pub sleep : ℕ → Executing (Unit {0})
  unfolding awaited
  sleep delay_ms = do
    slept ← awaited (λ n. env.sleeps n delay_ms)
    if slept then pure tt else raise other_thrown

-- The name of a service.
abbrev service_text : ServiceName → String
service_text vehicle_simulator = "vehicleSimulator"
service_text weather = "weather"
service_text emergency_support = "emergencySupport"

insert_text : (String → String → Bool) → String → List String → List String
insert_text before t [] = t ∷ []
insert_text before t (u ∷ us) =
    let rest = insert_text before t us in if before u t then u ∷ rest else t ∷ (u ∷ us)

sort_texts : (String → String → Bool) → List ServiceName → List String
unfolding insert_text
sort_texts before [] = []
sort_texts before (s ∷ ss) = insert_text before (service_text s) (sort_texts before ss)

abbrev or_name : String → String → String
or_name key name = if str_eq key "" then name else key

-- circuitKey
unfoldable pub circuit_key : Js → ToolDefinition → String
unfolding sort_texts
circuit_key js d = or_name (join "+" (sort_texts js.before d.required_services)) d.name

abbrev is_repeatable_hint : IdempotencyHint → Bool
is_repeatable_hint read_only = true
is_repeatable_hint idempotent = true
is_repeatable_hint non_idempotent = false

-- retrySafe
abbrev pub is_retry_safe : ToolDefinition → Bool
is_retry_safe d = not d.side_effect || is_repeatable_hint d.idempotency_hint
