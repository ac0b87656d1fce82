-- ===== src/Executor/Records/Life.antt =====
-- What the operations of ExecutionRecordStore (packages/executor/src/lifecycle.ts) do where they
-- succeed.
use drive_guard.Prelude.{ℕ, String, ◌≡◌, refl, true, none, some}
use drive_guard.Prelude.Dict.{get, put}
use drive_guard.Exec.{ok, ◌>>=◌, modify, throw_if}
use drive_guard.Executor.{ExecutionState, Attempt, ExecutionRecord, ExecutionRequest}
use drive_guard.Executor.Records.{
  ExecutionRecords, new_record, create, require_execution, moved_record, is_legal, transition,
  is_running, tried_record, add_attempt,
}

module _ (id : String) (m : ExecutionRecords) (r : ExecutionRecord)
    (found : get id m ≡ some r) where
  pub transition-legal :
      (next : ExecutionState) (at : ℕ)
      → is_legal r.state next ≡ true
      → transition id next at m ≡ (ok (moved_record r next at), put id (moved_record r next at) m)
  unfolding transition require_execution ◌>>=◌ modify throw_if
  transition-legal next at l = rw (found, l) refl

  pub add_attempt-running :
      (a : Attempt)
      → is_running r.state ≡ true
      → add_attempt id a m ≡ (ok (tried_record r a), put id (tried_record r a) m)
  unfolding add_attempt require_execution ◌>>=◌ modify throw_if
  add_attempt-running a l = rw (found, l) refl

pub create-new :
    (request : ExecutionRequest) (at : ℕ) (m : ExecutionRecords)
    → get request.execution_id m ≡ none
    → create request at m
      ≡ (ok (new_record request at), put request.execution_id (new_record request at) m)
unfolding create ◌>>=◌ modify throw_if
create-new request at m absent = rw absent refl
