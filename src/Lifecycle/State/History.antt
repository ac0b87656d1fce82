-- ===== src/Lifecycle/State/History.antt =====
-- What transitionPendingAction (packages/action-lifecycle/src/state-machine.ts) returns.
use drive_guard.Prelude.{ℕ, ◌≡◌, refl, ◌↔◌, true, none, some, List, [], ◌∷◌, ◌++◌, any, arith}
use drive_guard.Lifecycle.{
  ActionState, awaiting_confirmation, confirmed, ready_for_execution, cancelled, expired,
  replan_required, rejected, Transition, PendingAction,
}
use drive_guard.Lifecycle.State.{same_state, allowed_action_transitions, transition_pending_action}

-- The edges of the life of an action.
pub data Edge : ActionState → ActionState → Type 0 where
  confirms : Edge awaiting_confirmation confirmed
  cancels : Edge awaiting_confirmation cancelled
  expires : Edge awaiting_confirmation expired
  rejects : Edge awaiting_confirmation rejected
  replans : Edge confirmed replan_required
  readies : Edge confirmed ready_for_execution

-- The histories that lead to a state, from the creation on.
pub data PathTo : List Transition → ActionState → Type 0 where
  created :
      (at : ℕ)
      → PathTo
          (record { from = none; to = awaiting_confirmation; transitioned_at = at } ∷ [])
          awaiting_confirmation
  moved :
      {h : List Transition} {s t : ActionState} (at : ℕ)
      → PathTo h s
      → Edge s t
      → PathTo (h ++ record { from = some s; to = t; transitioned_at = at } ∷ []) t

is_allowed-Edge :
    (s t : ActionState) → any (λ x. same_state x t) (allowed_action_transitions s) ≡ true → Edge s t
unfolding allowed_action_transitions
is_allowed-Edge awaiting_confirmation confirmed h = confirms
is_allowed-Edge awaiting_confirmation cancelled h = cancels
is_allowed-Edge awaiting_confirmation expired h = expires
is_allowed-Edge awaiting_confirmation rejected h = rejects
is_allowed-Edge awaiting_confirmation awaiting_confirmation h = absurd (ground arith)
is_allowed-Edge awaiting_confirmation ready_for_execution h = absurd (ground arith)
is_allowed-Edge awaiting_confirmation replan_required h = absurd (ground arith)
is_allowed-Edge confirmed replan_required h = replans
is_allowed-Edge confirmed ready_for_execution h = readies
is_allowed-Edge confirmed awaiting_confirmation h = absurd (ground arith)
is_allowed-Edge confirmed confirmed h = absurd (ground arith)
is_allowed-Edge confirmed cancelled h = absurd (ground arith)
is_allowed-Edge confirmed expired h = absurd (ground arith)
is_allowed-Edge confirmed rejected h = absurd (ground arith)
is_allowed-Edge ready_for_execution t h = absurd (ground arith)
is_allowed-Edge cancelled t h = absurd (ground arith)
is_allowed-Edge expired t h = absurd (ground arith)
is_allowed-Edge replan_required t h = absurd (ground arith)
is_allowed-Edge rejected t h = absurd (ground arith)

-- What a transition made of an action.
pub record IsMoved (a : PendingAction) (next : ActionState) (at : ℕ) (b : PendingAction)
    : Type 0 where
  pub edge : Edge a.state next
  pub intent : b.intent ≡ a.intent
  pub state : b.state ≡ next
  pub updated : b.updated_at ≡ at
  pub history :
      b.state_history
      ≡ a.state_history ++ record { from = some a.state; to = next; transitioned_at = at } ∷ []

pub transition-IsMoved :
    (a b : PendingAction) (next : ActionState) (at : ℕ)
    → transition_pending_action a next at ≡ some b
    → IsMoved a next at b
unfolding transition_pending_action
transition-IsMoved a b next at h = record {
  edge = is_allowed-Edge a.state next (ground arith);
  intent = ground arith;
  state = ground arith;
  updated = ground arith;
  history = ground arith;
}

Edge-is_allowed :
    (s t : ActionState) → Edge s t → any (λ x. same_state x t) (allowed_action_transitions s) ≡ true
unfolding allowed_action_transitions
Edge-is_allowed s t confirms = refl
Edge-is_allowed s t cancels = refl
Edge-is_allowed s t expires = refl
Edge-is_allowed s t rejects = refl
Edge-is_allowed s t replans = refl
Edge-is_allowed s t readies = refl

-- A transition of an action to `next` succeeds with `b` exactly when the state machine has that
-- edge and `b` is the action with its intent kept, the state and the time of the transition set,
-- and the transition appended to its history.
pub transition_iff :
    (a b : PendingAction) (next : ActionState) (at : ℕ)
    → (transition_pending_action a next at ≡ some b) ↔ IsMoved a next at b
unfolding transition_pending_action
transition_iff a b next at = (
  transition-IsMoved a b next at,
  λ m. rw (Edge-is_allowed a.state next m.edge) (same m.intent m.state m.updated m.history),
)
  where
    same :
        b.intent ≡ a.intent
        → b.state ≡ next
        → b.updated_at ≡ at
        → b.state_history
          ≡ a.state_history ++ record { from = some a.state; to = next; transitioned_at = at } ∷ []
        → some (record a {
          state = next;
          updated_at = at;
          state_history =
              a.state_history
              ++ record { from = some a.state; to = next; transitioned_at = at } ∷ [];
        })
          ≡ some b
    same i s u h = rw⁻¹ (i, h, s, u) refl
