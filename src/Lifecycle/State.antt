-- ===== src/Lifecycle/State.antt =====
-- packages/action-lifecycle/src/state-machine.ts.
pub mod History
use drive_guard.Prelude.{
  ℕ, Bool, true, false, Option, none, some, List, [], ◌∷◌, ◌++◌, any, if◌then◌else◌,
}
use drive_guard.Lifecycle.{
  ActionState, awaiting_confirmation, confirmed, ready_for_execution, cancelled, expired,
  replan_required, rejected, PendingAction,
}

abbrev pub same_state : ActionState → ActionState → Bool
same_state awaiting_confirmation awaiting_confirmation = true
same_state confirmed confirmed = true
same_state ready_for_execution ready_for_execution = true
same_state cancelled cancelled = true
same_state expired expired = true
same_state replan_required replan_required = true
same_state rejected rejected = true
same_state _ _ = false

-- LEGAL_TRANSITIONS, allowedActionTransitions
unfoldable pub allowed_action_transitions : ActionState → List ActionState
allowed_action_transitions awaiting_confirmation = confirmed ∷ cancelled ∷ expired ∷ rejected ∷ []
allowed_action_transitions confirmed = replan_required ∷ ready_for_execution ∷ []
allowed_action_transitions _ = []

-- transitionPendingAction; `none` is the ActionLifecycleError INVALID_TRANSITION.
unfoldable pub transition_pending_action : PendingAction → ActionState → ℕ → Option PendingAction
unfolding allowed_action_transitions
transition_pending_action a next at =
    if any (λ s. same_state s next) (allowed_action_transitions a.state)
    then some (record a {
      state = next;
      updated_at = at;
      state_history =
          a.state_history ++ record { from = some a.state; to = next; transitioned_at = at } ∷ [];
    })
    else none
