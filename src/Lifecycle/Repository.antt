-- ===== src/Lifecycle/Repository.antt =====
-- packages/action-lifecycle/src/repository.ts: InMemoryPendingActionRepository. `runExclusive` runs
-- the operations on one action one at a time, so each is a function of the state here; its queue is
-- not modelled.
use drive_guard.Prelude.{ℕ, String, Option, none, some, is_some}
use drive_guard.Prelude.Dict.{Dict, get, put}
use drive_guard.Exec.{ok, err, Exec, pure, require, ◌>>=◌, ◌>>◌, throw_if, modify, gets}
use drive_guard.Js.{Js}
use drive_guard.Lifecycle.{
  ActionState, confirmed, ready_for_execution, ExecutionAuthorization, PendingActionRecord, Fault,
  invalid_command, action_not_found, invalid_transition, authorization_already_issued,
  authorization_already_used,
}
use drive_guard.Lifecycle.State.{transition_pending_action}
use drive_guard.Lifecycle.Integrity.{assert_record_integrity}

abbrev pub Records : Type 0
Records = Dict PendingActionRecord

abbrev pub Repo : Type 0 → Type 0
Repo A = Exec Records Fault A

module _ (js : Js) where
  -- cloneRecord: the record itself, if it is whole
  unfoldable pub clone_record : PendingActionRecord → Repo PendingActionRecord
  clone_record r records = elim (assert_record_integrity js r) [
    | ok u ↦ (ok r, records)
    | err e ↦ (err e, records)
  ]

  -- `const updated = cloneRecord(…); this.#records.set(id, updated); return cloneRecord(updated)`
  unfoldable pub store : String → PendingActionRecord → Repo PendingActionRecord
  unfolding clone_record
  store id r = do updated ← clone_record r; modify (put id updated); clone_record updated

  unfoldable pub require_record : String → Repo PendingActionRecord
  require_record id = do found ← gets (get id); require action_not_found found

  unfoldable pub create : PendingActionRecord → Repo (Unit {0})
  create r = do
    taken ← gets (λ records. is_some (get r.action.action_id records))
    throw_if taken invalid_command
    updated ← clone_record r
    modify (put r.action.action_id updated)

  abbrev clone_found : Option PendingActionRecord → Repo (Option PendingActionRecord)
  clone_found none = pure none
  clone_found (some r) = do found ← clone_record r; pure (some found)

  unfoldable pub find : String → Repo (Option PendingActionRecord)
  find id = do found ← gets (get id); clone_found found

  unfoldable pub transition : String → ActionState → ℕ → Repo PendingActionRecord
  transition id next at = do
    r ← require_record id
    action ← require invalid_transition (transition_pending_action r.action next at)
    store id (record r { action = action })

  unfoldable pub accept_confirmation : String → String → ℕ → Repo PendingActionRecord
  accept_confirmation id confirmation_id at = do
    r ← require_record id
    action ← require invalid_transition (transition_pending_action r.action confirmed at)
    store id
        (record r { action = action; token_hash = none; confirmation_id = some confirmation_id })

  unfoldable pub authorize : String → ExecutionAuthorization → ℕ → Repo PendingActionRecord
  authorize id authorization at = do
    r ← require_record id
    throw_if (is_some r.authorization) authorization_already_issued
    action ← require invalid_transition (transition_pending_action r.action ready_for_execution at)
    store id (record r { action = action; authorization = some authorization })

  unfoldable pub consume_authorization : String → ℕ → Repo PendingActionRecord
  consume_authorization id at = do
    r ← require_record id
    throw_if (is_some r.authorization_consumed_at) authorization_already_used
    store id (record r { authorization_consumed_at = some at })
