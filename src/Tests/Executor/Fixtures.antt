-- ===== src/Tests/Executor/Fixtures.antt =====
-- A request, tools and an environment for the executor.
use drive_guard.Prelude.{ℕ, zero, suc, Bool, true, false, Option, none, some, [], ◌∷◌}
use drive_guard.Exec.{Result, ok, err}
use drive_guard.Json.{Value, text, obj, end}
use drive_guard.Tools.{ToolDefinition, idempotent}
use drive_guard.Policy.{r2}
use drive_guard.Executor.{
  created, running, tool_error, tool_dependency_unavailable, absent, Thrown, ExecutionRequest,
}
use drive_guard.Executor.Records.{new_record}
use drive_guard.Executor.Recovery.{not_executed}
use drive_guard.Executor.Run.{ExecutionResult, World, Env}
use drive_guard.Tests.Fixtures.{js, other_digest, decision, reserve_slot}

abbrev pub request : ExecutionRequest
request = record {
  execution_id = "execution-1";
  tool_name = "reserve_charging_slot";
  validated_arguments = obj end;
  action_fingerprint = other_digest;
  run_id = "run-1";
  session_id = "session-1";
  user_id = "user-1";
  vehicle_id = "vehicle-1";
  trace_id = "trace-1";
  risk_level = r2;
  policy_decision = record { ref = 0; fields = decision };
  action_id = some "action-1";
  authorization_id = some "authorization-1";
  context_snapshot_id = some "snapshot-1";
  context_version = some 1;
  idempotency_key = "key-1";
  created_at = 1000;
}

abbrev pub unavailable : Thrown
unavailable = record { kind = tool_error tool_dependency_unavailable; failure_type = absent }

-- The tool does not answer the first attempt, and answers the second.
abbrev pub answer_second : ℕ → Result Thrown (Option Value)
answer_second zero = ok (some (text "reserved"))
answer_second (suc zero) = err unavailable
answer_second (suc (suc n)) = ok (some (text "reserved"))

-- The same tool, declared IDEMPOTENT.
abbrev pub repeatable_slot : ToolDefinition
repeatable_slot = record reserve_slot { idempotency_hint = idempotent }

abbrev pub original : ExecutionResult
original = record {
  execution_id = "execution-0";
  tool_name = "reserve_charging_slot";
  status = created;
  attempt_count = 0;
  deduplicated = false;
  started_at = 1000;
  completed_at = 1000;
  result = none;
  error = none;
  recovery = none;
}

abbrev pub env_of : ToolDefinition → (Option Value → Bool) → Env
env_of definition clones = record {
  js = js;
  now_ms = λ n. 2000;
  delivers = λ n event. true;
  tool = λ n call. answer_second call.attempt;
  sleeps = λ n delay. true;
  refuses = λ n command. none;
  reconciler = some (λ n query. some (not_executed, none));
  clones = clones;
  admits = λ n. true;
  others_records = λ n records. records;
  others_circuits = λ n circuits. circuits;
  others_issued = λ n issued. issued;
  others_idempotency = λ n s. s;
  original = λ n promise. original;
  definition_of = λ name. some definition;
  retry_policy = record { max_attempts = 3; backoff_ms = 50 ∷ 100 ∷ [] };
  failure_threshold = 5;
  cooldown_ms = 1000;
}

abbrev pub clones_all : Option Value → Bool
clones_all v = true

-- structuredClone does not take what the tool returns.
abbrev pub clones_arguments : Option Value → Bool
clones_arguments (some (text s)) = false
clones_arguments _ = true

abbrev pub world : World
world = record {
  records = [];
  circuits = [];
  issued = record { next = 1; bindings = [] };
  idempotency = record { entries = []; settled = []; next = 0 };
  events = [];
  acts = [];
  calls = 0;
}

unfoldable pub created_world : World
unfolding new_record
created_world = record world { records = ("execution-1", new_record request 1000) ∷ [] }

unfoldable pub running_world : World
unfolding new_record
running_world = record world {
  records = ("execution-1", record (new_record request 1000) { state = running }) ∷ [];
}
