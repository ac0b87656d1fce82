-- ===== src/Lifecycle/Evolution.antt =====
-- The life of one record of packages/action-lifecycle/src as a step relation, which the repository
-- and the service refine, and what it is for a state of the repository to grow out of another.
pub mod Invariant
pub mod Tracks
pub mod Repository
pub mod Service
pub mod Confirm
pub mod Settle
pub mod Create
pub mod Guarantees
pub mod Runs
use drive_guard.Prelude.{
  [], ◌∷◌, ℕ, String, ◌≡◌, false, subst, none, some, Option-cases, inl, inr, arith,
}
use drive_guard.Prelude.Dict.{get, get_unique}
use drive_guard.Lifecycle.{
  ActionState, awaiting_confirmation, confirmed, ready_for_execution, PendingAction,
  ExecutionAuthorization, PendingActionRecord, is_confirmed, is_ready,
}
use drive_guard.Lifecycle.State.{transition_pending_action}
use drive_guard.Lifecycle.Repository.{Records}

-- An authorization that repeats what the record says of its action and of its confirmation.
pub record IsBoundTo (a : ExecutionAuthorization) (r : PendingActionRecord) : Type 0 where
  pub action_id : a.action_id ≡ r.action.action_id
  pub action_fingerprint : a.action_fingerprint ≡ r.action.action_fingerprint
  pub tool_name : a.tool_name ≡ r.action.tool_name
  pub risk_level : a.risk_level ≡ r.action.risk_level
  pub policy_rule_id : a.policy_rule_id ≡ r.action.policy_rule_id
  pub confirmation_id : r.confirmation_id ≡ some a.confirmation_id

pub data Step (r s : PendingActionRecord) : Type 0 where
  settle :
      (next : ActionState) (at : ℕ) (action : PendingAction)
      → is_confirmed next ≡ false
      → is_ready next ≡ false
      → transition_pending_action r.action next at ≡ some action
      → s ≡ record r { action = action }
      → Step r s
  accept :
      (confirmation_id : String) (at : ℕ) (action : PendingAction)
      → transition_pending_action r.action confirmed at ≡ some action
      → s ≡ record r { action = action; token_hash = none; confirmation_id = some confirmation_id }
      → Step r s
  authorize :
      (a : ExecutionAuthorization) (at : ℕ) (action : PendingAction)
      → r.authorization ≡ none
      → transition_pending_action r.action ready_for_execution at ≡ some action
      → IsBoundTo a r
      → s ≡ record r { action = action; authorization = some a }
      → Step r s
  consume :
      (a : ExecutionAuthorization) (at : ℕ)
      → r.action.state ≡ ready_for_execution
      → r.authorization ≡ some a
      → r.authorization_consumed_at ≡ none
      → s ≡ record r { authorization_consumed_at = some at }
      → Step r s

pub data Steps (r : PendingActionRecord) : PendingActionRecord → Type 0 where
  done : Steps r r
  followed : {s t : PendingActionRecord} → Steps r s → Step s t → Steps r t

pub Steps-trans : {r s t : PendingActionRecord} → Steps r s → Steps s t → Steps r t
Steps-trans p done = p
Steps-trans p (followed q s) = followed (Steps-trans p q) s

-- As `create` makes it.
pub record IsNew (r : PendingActionRecord) : Type 0 where
  pub awaiting : r.action.state ≡ awaiting_confirmation
  pub token : String
  pub has_token : r.token_hash ≡ some token
  pub unconfirmed : r.confirmation_id ≡ none
  pub unauthorized : r.authorization ≡ none
  pub unconsumed : r.authorization_consumed_at ≡ none
  pub created_at : ℕ
  pub history :
      r.action.state_history
      ≡ record { from = none; to = awaiting_confirmation; transitioned_at = created_at } ∷ []

-- No record is lost, each has only made steps of its life, and so has each record that is new.
pub record IsEvolution (before after : Records) : Type 0 where
  pub grown :
      (id : String) (r : PendingActionRecord)
      → get id before ≡ some r
      → (s : PendingActionRecord) × (get id after ≡ some s) × Steps r s
  pub born :
      (id : String) (s : PendingActionRecord)
      → get id before ≡ none
      → get id after ≡ some s
      → (r : PendingActionRecord) × IsNew r × Steps r s

pub IsEvolution-refl : (records : Records) → IsEvolution records records
IsEvolution-refl records = record {
  grown = λ id r e. (r, e, done);
  born = λ id s e f. absurd (ground arith);
}

pub IsEvolution-trans : {a b c : Records} → IsEvolution a b → IsEvolution b c → IsEvolution a c
IsEvolution-trans {a} {b} {c} p q = record {
  grown = λ id r e.
      let (s, f, steps) = p.grown id r e in
      let (t, g, more) = q.grown id s f in (t, g, Steps-trans steps more);
  born = λ id s e f. elim (Option-cases (get id b)) [
    | inl missing ↦ q.born id s missing f
    | inr (r, found) ↦
        let (o, new, steps) = p.born id r e found in
        let (t, g, more) = q.grown id r found in
        (o, new, Steps-trans steps (subst (Steps r) (get_unique id c g f) more))
  ];
}
