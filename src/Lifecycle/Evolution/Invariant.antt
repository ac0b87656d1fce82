-- ===== src/Lifecycle/Evolution/Invariant.antt =====
-- What holds of a record of packages/action-lifecycle/src through its whole life.
use drive_guard.Prelude.{
  ℕ, ◌≡◌, refl, subst, sym, ap, ◌∙◌, ◌⊎◌, inl, inr, none, some, Option-cases, arith,
}
use drive_guard.Lifecycle.{
  ActionState, awaiting_confirmation, confirmed, ready_for_execution, PendingAction,
  ExecutionAuthorization, PendingActionRecord,
}
use drive_guard.Lifecycle.State.History.{
  Edge, confirms, cancels, expires, rejects, replans, readies, PathTo, created, moved, IsMoved,
  transition-IsMoved,
}
use drive_guard.Lifecycle.Evolution.{
  Step, settle, accept, authorize, consume, Steps, done, followed, IsBoundTo, IsNew,
}

-- What each state says of the token, the confirmation, the authorization and its consumption.
pub record IsSound (r : PendingActionRecord) : Type 0 where
  pub waits : r.action.state ≡ awaiting_confirmation → r.confirmation_id ≡ none
  pub confirms :
      (r.action.state ≡ confirmed) ⊎ (r.action.state ≡ ready_for_execution) → r.token_hash ≡ none
  pub readied :
      r.action.state ≡ ready_for_execution
      → (a : ExecutionAuthorization) × (r.authorization ≡ some a)
  pub authorized :
      (a : ExecutionAuthorization)
      → r.authorization ≡ some a
      → (r.action.state ≡ ready_for_execution) × IsBoundTo a r
  pub used : (at : ℕ) → r.authorization_consumed_at ≡ some at → r.action.state ≡ ready_for_execution
  pub history : PathTo r.action.state_history r.action.state

pub IsNew-IsSound : (r : PendingActionRecord) → IsNew r → IsSound r
IsNew-IsSound r n = record {
  waits = λ e. n.unconfirmed;
  confirms = λ e. absurd (ground (arith, n.awaiting));
  readied = λ e. absurd (ground (arith, n.awaiting));
  authorized = λ a e. absurd (ground (arith, n.unauthorized));
  used = λ at e. absurd (ground (arith, n.unconsumed));
  history = rw (n.history, n.awaiting) (created n.created_at);
}

moved-PathTo :
    (a b : PendingAction) (next : ActionState) (at : ℕ)
    → IsMoved a next at b
    → PathTo a.state_history a.state
    → PathTo b.state_history b.state
moved-PathTo a b next at m p = rw (m.history, m.state) (moved at p m.edge)

-- No edge leaves a state in which an authorization or a consumption may stand, or enters the first.
pub not_ready : {s t : ActionState} → Edge s t → s ≡ ready_for_execution → ⊥
not_ready confirms e = ground arith
not_ready cancels e = ground arith
not_ready expires e = ground arith
not_ready rejects e = ground arith
not_ready replans e = ground arith
not_ready readies e = ground arith

not_awaiting : {s t : ActionState} → Edge s t → t ≡ awaiting_confirmation → ⊥
not_awaiting confirms e = ground arith
not_awaiting cancels e = ground arith
not_awaiting expires e = ground arith
not_awaiting rejects e = ground arith
not_awaiting replans e = ground arith
not_awaiting readies e = ground arith

-- What an action keeps in a transition that leaves the rest of the record as it is.
kept_bound :
    (a : ExecutionAuthorization) (r s : PendingActionRecord)
    → s.action.intent ≡ r.action.intent
    → s.confirmation_id ≡ r.confirmation_id
    → IsBoundTo a r
    → IsBoundTo a s
kept_bound a r s i c b = record {
  action_id = b.action_id ∙ ap (λ x. x.action_id) (sym i);
  action_fingerprint = b.action_fingerprint ∙ ap (λ x. x.action_fingerprint) (sym i);
  tool_name = b.tool_name ∙ ap (λ x. x.tool_name) (sym i);
  risk_level = b.risk_level ∙ ap (λ x. x.risk_level) (sym i);
  policy_rule_id = b.policy_rule_id ∙ ap (λ x. x.policy_rule_id) (sym i);
  confirmation_id = c ∙ b.confirmation_id;
}

-- A record that is sound and can still move has no authorization and no consumption.
unissued :
    {r : PendingActionRecord} {t : ActionState}
    → IsSound r
    → Edge r.action.state t
    → (r.authorization ≡ none) × (r.authorization_consumed_at ≡ none)
unissued {r} s e = (
  elim (Option-cases r.authorization) [
    | inl n ↦ n
    | inr (a, h) ↦ absurd (not_ready e (s.authorized a h).0)
  ],
  elim (Option-cases r.authorization_consumed_at) [
    | inl n ↦ n
    | inr (at, h) ↦ absurd (not_ready e (s.used at h))
  ],
)

some-inj : {x y : ExecutionAuthorization} → some x ≡ some y → x ≡ y
some-inj h = ground arith

from_confirmed : {s : ActionState} → Edge s ready_for_execution → s ≡ confirmed
from_confirmed readies = refl

Step-IsSound : {r s : PendingActionRecord} → Step r s → IsSound r → IsSound s
Step-IsSound {r} (settle next at a c d shift e) i =
    let m = transition-IsMoved r.action a next at shift in
    let (u, v) = unissued i m.edge in
    rw (e) (record {
      waits = λ h. absurd (not_awaiting m.edge (sym m.state ∙ h));
      confirms = λ h. absurd (ground (arith, m.state));
      readied = λ h. absurd (ground (arith, m.state));
      authorized = λ a h. absurd (ground (arith, u));
      used = λ at h. absurd (ground (arith, v));
      history = moved-PathTo r.action a next at m i.history;
    })
Step-IsSound {r} (accept id at a shift e) i =
    let m = transition-IsMoved r.action a confirmed at shift in
    let (u, v) = unissued i m.edge in
    rw (e) (record {
      waits = λ h. absurd (not_awaiting m.edge (sym m.state ∙ h));
      confirms = λ h. refl;
      readied = λ h. absurd (ground (arith, m.state));
      authorized = λ a h. absurd (ground (arith, u));
      used = λ at h. absurd (ground (arith, v));
      history = moved-PathTo r.action a confirmed at m i.history;
    })
Step-IsSound {r} (authorize x at a free shift bound e) i =
    let m = transition-IsMoved r.action a ready_for_execution at shift in
    let (u, v) = unissued i m.edge in
    rw (e) (record {
      waits = λ h. absurd (not_awaiting m.edge (sym m.state ∙ h));
      confirms = λ h. i.confirms (inl (from_confirmed m.edge));
      readied = λ h. (x, refl);
      authorized = λ b h. (
        m.state,
        kept_bound b r (record r { action = a; authorization = some x }) m.intent refl
            (subst (λ y. IsBoundTo y r) (some-inj h) bound),
      );
      used = λ at h. m.state;
      history = moved-PathTo r.action a ready_for_execution at m i.history;
    })
Step-IsSound {r} (consume x at ready issued free e) i = rw (e) (record {
  waits = λ h. i.waits h;
  confirms = λ h. i.confirms h;
  readied = λ h. i.readied h;
  authorized = λ b h. let (f, bound) = i.authorized b h in (f, kept_bound b r _ refl refl bound);
  used = λ at h. ready;
  history = i.history;
})

-- A record keeps its soundness for its whole life.
pub Steps-IsSound : {r s : PendingActionRecord} → Steps r s → IsSound r → IsSound s
Steps-IsSound done i = i
Steps-IsSound (followed p q) i = Step-IsSound q (Steps-IsSound p i)
