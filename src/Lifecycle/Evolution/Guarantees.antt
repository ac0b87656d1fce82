-- ===== src/Lifecycle/Evolution/Guarantees.antt =====
-- What the life of a record of packages/action-lifecycle/src never does.
use drive_guard.Prelude.{ℕ, ◌≡◌, refl, ap, ◌∙◌, subst, some, arith}
use drive_guard.Lifecycle.{
  ActionState, awaiting_confirmation, confirmed, PendingAction, PendingActionRecord,
}
use drive_guard.Lifecycle.State.History.{
  Edge, confirms, cancels, expires, rejects, replans, readies, transition-IsMoved,
}
use drive_guard.Lifecycle.Evolution.{
  Step, settle, accept, authorize, consume, Steps, done, followed,
}
use drive_guard.Lifecycle.Evolution.Invariant.{IsSound, Steps-IsSound, not_ready}

Step-intent :
    {r s : PendingActionRecord}
    → Step r s
    → (s.action.intent ≡ r.action.intent) × (s.original_context ≡ r.original_context)
Step-intent {r} (settle next at a c d shift e) =
    rw (e) ((transition-IsMoved r.action a next at shift).intent, refl)
Step-intent {r} (accept id at a shift e) =
    rw (e) ((transition-IsMoved r.action a _ at shift).intent, refl)
Step-intent {r} (authorize x at a free shift bound e) =
    rw (e) ((transition-IsMoved r.action a _ at shift).intent, refl)
Step-intent (consume x at ready issued free e) = rw (e) (refl, refl)

-- What was submitted for confirmation, with its Context, is what stays on the record: the tool, the
-- arguments, the identities, the fingerprint and the policy decision never change.
pub Steps-intent :
    {r s : PendingActionRecord}
    → Steps r s
    → (s.action.intent ≡ r.action.intent) × (s.original_context ≡ r.original_context)
Steps-intent done = (refl, refl)
Steps-intent (followed p q) =
    let (i, c) = Steps-intent p in let (j, d) = Step-intent q in (j ∙ i, d ∙ c)

-- States that the state machine leaves.
pub data IsOpen : ActionState → Type 0 where
  waiting : IsOpen awaiting_confirmation
  accepted : IsOpen confirmed

leaves-IsOpen : {s t : ActionState} → Edge s t → IsOpen s
leaves-IsOpen confirms = waiting
leaves-IsOpen cancels = waiting
leaves-IsOpen expires = waiting
leaves-IsOpen rejects = waiting
leaves-IsOpen replans = accepted
leaves-IsOpen readies = accepted

Step-closed :
    {r s : PendingActionRecord}
    → (IsOpen r.action.state → ⊥)
    → Step r s
    → (s.action ≡ r.action) × (s.authorization ≡ r.authorization)
Step-closed {r} c (settle next at a n d shift e) =
    absurd (c (leaves-IsOpen (transition-IsMoved r.action a next at shift).edge))
Step-closed {r} c (accept id at a shift e) =
    absurd (c (leaves-IsOpen (transition-IsMoved r.action a _ at shift).edge))
Step-closed {r} c (authorize x at a free shift bound e) =
    absurd (c (leaves-IsOpen (transition-IsMoved r.action a _ at shift).edge))
Step-closed c (consume x at ready issued free e) = rw (e) (refl, refl)

-- An action that is neither awaiting its confirmation nor confirmed keeps its state, its history
-- and its authorization.
pub Steps-closed :
    {r s : PendingActionRecord}
    → (IsOpen r.action.state → ⊥)
    → Steps r s
    → (s.action ≡ r.action) × (s.authorization ≡ r.authorization)
Steps-closed c done = (refl, refl)
Steps-closed c (followed p q) =
    let (i, x) = Steps-closed c p in
    let (j, y) = Step-closed (λ h. c (subst (λ (a : PendingAction). IsOpen a.state) i h)) q in
    (j ∙ i, y ∙ x)

Step-used :
    {r s : PendingActionRecord} (at : ℕ)
    → IsSound r
    → r.authorization_consumed_at ≡ some at
    → Step r s
    → s ≡ r
Step-used {r} at i used (settle next m a n d shift e) =
    absurd (not_ready (transition-IsMoved r.action a next m shift).edge (i.used at used))
Step-used {r} at i used (accept id m a shift e) =
    absurd (not_ready (transition-IsMoved r.action a _ m shift).edge (i.used at used))
Step-used {r} at i used (authorize x m a free shift bound e) =
    absurd (not_ready (transition-IsMoved r.action a _ m shift).edge (i.used at used))
Step-used at i used (consume x m ready issued free e) = absurd (ground arith)

-- A sound record whose authorization is used never changes again.
pub Steps-used :
    {r s : PendingActionRecord} (at : ℕ)
    → IsSound r
    → r.authorization_consumed_at ≡ some at
    → Steps r s
    → s ≡ r
Steps-used at i used done = refl
Steps-used at i used (followed p q) =
    let e = Steps-used at i used p in
    Step-used at (Steps-IsSound p i)
      (ap (λ (x : PendingActionRecord). x.authorization_consumed_at) e ∙ used) q
    ∙ e
