-- ===== src/Executor/Records.antt =====
-- packages/executor/src/lifecycle.ts: ExecutionRecordStore.
pub mod Life
use drive_guard.Prelude.{
  ℕ, String, Bool, true, false, none, some, is_some, List, [], ◌∷◌, ◌++◌, any, if◌then◌else◌,
}
use drive_guard.Prelude.Dict.{Dict, get, put, remove}
use drive_guard.Exec.{Exec, pure, require, gets, ◌>>=◌, ◌>>◌, modify, throw_if}
use drive_guard.Executor.{
  ExecutionState, created, running, succeeded, failed, retry_exhausted, outcome_unknown, rejected,
  execution_validation_error, internal_execution_error, Thrown, fault, Attempt, ExecutionRecord,
  ExecutionRequest,
}

abbrev pub ExecutionRecords : Type 0
ExecutionRecords = Dict ExecutionRecord

-- An operation of the store; what it throws is an ExecutorFault.
abbrev pub Store : Type 0 → Type 0
Store A = Exec ExecutionRecords Thrown A

abbrev pub same_state : ExecutionState → ExecutionState → Bool
same_state created created = true
same_state running running = true
same_state succeeded succeeded = true
same_state failed failed = true
same_state retry_exhausted retry_exhausted = true
same_state outcome_unknown outcome_unknown = true
same_state rejected rejected = true
same_state _ _ = false

-- LEGAL
unfoldable pub legal_next : ExecutionState → List ExecutionState
legal_next created = running ∷ rejected ∷ []
legal_next running = succeeded ∷ failed ∷ retry_exhausted ∷ outcome_unknown ∷ []
legal_next _ = []

unfoldable pub is_legal : ExecutionState → ExecutionState → Bool
unfolding legal_next
is_legal s next = any (λ t. same_state t next) (legal_next s)

unfoldable pub new_record : ExecutionRequest → ℕ → ExecutionRecord
new_record request created_at = record {
  execution_id = request.execution_id;
  tool_name = request.tool_name;
  action_fingerprint = request.action_fingerprint;
  idempotency_key = request.idempotency_key;
  state = created;
  attempts = [];
  state_history = record { from = none; to = created; transitioned_at = created_at } ∷ [];
  created_at = created_at;
  updated_at = created_at;
}

-- create
unfoldable pub create : ExecutionRequest → ℕ → Store ExecutionRecord
create request created_at = do
  taken ← gets (λ records. is_some (get request.execution_id records))
  throw_if taken (fault execution_validation_error)
  modify (put request.execution_id (new_record request created_at))
  pure (new_record request created_at)

-- #require
unfoldable pub require_execution : String → Store ExecutionRecord
require_execution id = do found ← gets (get id); require (fault internal_execution_error) found

unfoldable pub moved_record : ExecutionRecord → ExecutionState → ℕ → ExecutionRecord
moved_record r next at = record r {
  state = next;
  updated_at = at;
  state_history =
      r.state_history ++ record { from = some r.state; to = next; transitioned_at = at } ∷ [];
}

abbrev pub not_legal : ExecutionState → ExecutionState → Bool
not_legal s next = if is_legal s next then false else true

-- transition
unfoldable pub transition : String → ExecutionState → ℕ → Store ExecutionRecord
transition id next at = do
  current ← require_execution id
  throw_if (not_legal current.state next) (fault internal_execution_error)
  modify (put id (moved_record current next at))
  pure (moved_record current next at)

abbrev pub is_running : ExecutionState → Bool
is_running running = true
is_running _ = false

abbrev pub is_created : ExecutionState → Bool
is_created created = true
is_created _ = false

unfoldable pub tried_record : ExecutionRecord → Attempt → ExecutionRecord
tried_record r a = record r { updated_at = a.completed_at; attempts = r.attempts ++ a ∷ [] }

-- addAttempt
unfoldable pub add_attempt : String → Attempt → Store ExecutionRecord
add_attempt id a = do
  current ← require_execution id
  throw_if (if is_running current.state then false else true) (fault internal_execution_error)
  modify (put id (tried_record current a))
  pure (tried_record current a)

-- delete
unfoldable pub delete : String → Store Bool
delete id = do
  present ← gets (λ records. is_some (get id records))
  modify (remove id)
  pure present
