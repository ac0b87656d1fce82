-- ===== src/Lifecycle/Consumption/Meaning.antt =====
-- What the verification of a consumption (packages/action-lifecycle/src/authorization-consumption.ts)
-- demands, read as equations.
use drive_guard.Prelude.{
  ℕ, ◌<◌, String, ◌≡◌, refl, ◌↔◌, inl, inr, Bool, true, false, ◌&&◌, Option, none, some, Bool-cases,
  ap, ◌∙◌, subst, str_eq, eq_iff, eq_refl, ◌==◌, leb, if◌then◌else◌, arith,
}
use drive_guard.Exec.{Result, ok, err}
use drive_guard.Js.{Js}
use drive_guard.Lifecycle.{
  ActionState, PendingActionRecord, ExecutionAuthorization, ready_for_execution, is_ready, Fault,
}
use drive_guard.Lifecycle.Canonical.{create_action_fingerprint, FingerprintInput}
use drive_guard.Lifecycle.Consumption.{
  ConsumeCommand, matches_command, compare_request, check_unused, check_available, verify,
}

-- The request repeats the authorization and the action to which it is bound.
pub record IsMatch (r : PendingActionRecord) (a : ExecutionAuthorization) (c : ConsumeCommand)
    : Type 0 where
  pub authorization_id : a.authorization_id ≡ c.authorization_id
  pub action_id : a.action_id ≡ c.action_id
  pub action_fingerprint : a.action_fingerprint ≡ c.action_fingerprint
  pub tool_name : a.tool_name ≡ c.tool_name
  pub session_id : r.action.session_id ≡ c.session_id
  pub user_id : r.action.user_id ≡ c.user_id
  pub vehicle_id : r.action.vehicle_id ≡ c.vehicle_id
  pub context_snapshot_id : a.context_snapshot_id ≡ c.context_snapshot_id
  pub context_version : a.context_version ≡ c.context_version
  pub bound_fingerprint : r.action.action_fingerprint ≡ c.action_fingerprint
  pub bound_tool : r.action.tool_name ≡ c.tool_name

&&-text : (b : Bool) (x y : String) → (b && str_eq x y) ≡ true → (b ≡ true) × (x ≡ y)
&&-text b x y h = ground (arith, eq_iff x y)

&&-number : (b : Bool) (m n : ℕ) → (b && (m == n)) ≡ true → (b ≡ true) × (m ≡ n)
&&-number b m n h = ground arith

pub matches_command→IsMatch :
    (r : PendingActionRecord) (a : ExecutionAuthorization) (c : ConsumeCommand) (requested : String)
    → matches_command r a c requested ≡ true
    → IsMatch r a c × (requested ≡ c.action_fingerprint)
unfolding matches_command
matches_command→IsMatch r a c requested h =
    let (h12, e12) = &&-text _ _ _ h in
    let (h11, e11) = &&-text _ _ _ h12 in
    let (h10, e10) = &&-text _ _ _ h11 in
    let (h9, e9) = &&-number _ _ _ h10 in
    let (h8, e8) = &&-text _ _ _ h9 in
    let (h7, e7) = &&-text _ _ _ h8 in
    let (h6, e6) = &&-text _ _ _ h7 in
    let (h5, e5) = &&-text _ _ _ h6 in
    let (h4, e4) = &&-text _ _ _ h5 in
    let (h3, e3) = &&-text _ _ _ h4 in
    let (h2, e2) = &&-text _ _ _ h3 in
    (
      record {
        authorization_id = (eq_iff _ _).0 h2;
        action_id = e2;
        action_fingerprint = e3;
        tool_name = e4;
        session_id = e5;
        user_id = e6;
        vehicle_id = e7;
        context_snapshot_id = e8;
        context_version = e9;
        bound_fingerprint = e10;
        bound_tool = e12;
      },
      e11,
    )

==-refl : (n : ℕ) → (n == n) ≡ true
==-refl n = ground arith

IsMatch→matches_command :
    (r : PendingActionRecord) (a : ExecutionAuthorization) (c : ConsumeCommand)
    → IsMatch r a c
    → matches_command r a c c.action_fingerprint ≡ true
unfolding matches_command
IsMatch→matches_command r a c m = simp (
  m.authorization_id, m.action_id, m.action_fingerprint, m.tool_name, m.session_id, m.user_id,
  m.vehicle_id, m.context_snapshot_id, m.context_version, m.bound_fingerprint, m.bound_tool,
  eq_refl, ==-refl,
)

-- The identity that the fingerprint of the request covers.
abbrev pub requested_identity : PendingActionRecord → ConsumeCommand → FingerprintInput
requested_identity r c = record {
  tool_name = c.tool_name;
  validated_arguments = c.validated_arguments;
  session_id = c.session_id;
  user_id = c.user_id;
  vehicle_id = c.vehicle_id;
  context_snapshot_id = r.action.context_snapshot_id;
  context_version = r.action.context_version;
}

-- A request that consumes the authorization `a` of the record at the time `now`.
pub record IsConsumable (js : Js) (r : PendingActionRecord) (c : ConsumeCommand) (now : ℕ)
    (a : ExecutionAuthorization) : Type 0 where
  pub ready : r.action.state ≡ ready_for_execution
  pub issued : r.authorization ≡ some a
  pub unused : r.authorization_consumed_at ≡ none
  pub unexpired : now < a.expires_at
  pub matching : IsMatch r a c
  pub fingerprint :
      create_action_fingerprint js (requested_identity r c) ≡ some c.action_fingerprint

compare_request-ok :
    (r : PendingActionRecord) (a b : ExecutionAuthorization) (c : ConsumeCommand)
    (o : Option String)
    → compare_request r a c o ≡ ok b
    → (a ≡ b) × IsMatch r a c × (o ≡ some c.action_fingerprint)
compare_request-ok r a b c none h = absurd (ground arith)
compare_request-ok r a b c (some requested) h =
    elim (Bool-cases (matches_command r a c requested)) [
      | inl e ↦
          let (m, q) = matches_command→IsMatch r a c requested e in (ground arith, m, ap some q)
      | inr e ↦ absurd (ground arith)
    ]

is_ready_lem : (s : ActionState) → is_ready s ≡ true → s ≡ ready_for_execution
is_ready_lem s h = ground arith

check_unused-ok :
    (js : Js) (r : PendingActionRecord) (a b : ExecutionAuthorization) (c : ConsumeCommand)
    (now : ℕ)
    → check_unused js r a c now ≡ ok b
    → (r.authorization_consumed_at ≡ none)
      × (now < a.expires_at)
      × (compare_request r a c (create_action_fingerprint js (requested_identity r c)) ≡ ok b)
check_unused-ok js r a b c now h = (ground arith, ground arith, ground arith)

if-ok :
    (b : Bool) (x : Result Fault ExecutionAuthorization) (e : Fault) (a : ExecutionAuthorization)
    → (if b then x else err e) ≡ ok a
    → (b ≡ true) × (x ≡ ok a)
if-ok true x e a h = (refl, h)
if-ok false x e a h = absurd (ground arith)

check_available-ok :
    (js : Js) (r : PendingActionRecord) (o : Option ExecutionAuthorization)
    (b : ExecutionAuthorization) (c : ConsumeCommand) (now : ℕ)
    → check_available js r o c now ≡ ok b
    → (a : ExecutionAuthorization) × (o ≡ some a)
      × (r.action.state ≡ ready_for_execution)
      × (check_unused js r a c now ≡ ok b)
check_available-ok js r none b c now h = absurd (ground arith)
check_available-ok js r (some a) b c now h =
    let (e, k) = if-ok (is_ready r.action.state) (check_unused js r a c now) _ b h in
    (a, refl, is_ready_lem r.action.state e, k)

leb-false : (m n : ℕ) → n < m → leb m n ≡ false
leb-false m n h = ground arith

-- An authorization is handed out for a request exactly when the action is ready for execution, the
-- authorization is the action's own, unused and unexpired, and the request repeats its identifiers,
-- its tool, its session, user and vehicle, its Context, and the fingerprint of its arguments.
pub verify_iff :
    (js : Js) (r : PendingActionRecord) (c : ConsumeCommand) (now : ℕ) (a : ExecutionAuthorization)
    → (verify js r c now ≡ ok a) ↔ IsConsumable js r c now a
unfolding verify matches_command
verify_iff js r c now a = (
  λ h.
      let (b, issued, ready, k) = check_available-ok js r r.authorization a c now h in
      let (unused, unexpired, l) = check_unused-ok js r b a c now k in
      let (same, matching, fingerprint) = compare_request-ok r b a c _ l in
      record {
        ready = ready;
        issued = issued ∙ ap some same;
        unused = unused;
        unexpired = subst (λ (x : ExecutionAuthorization). now < x.expires_at) same unexpired;
        matching = subst (λ (x : ExecutionAuthorization). IsMatch r x c) same matching;
        fingerprint = fingerprint;
      },
  λ k. rw (
    k.issued,
    k.ready,
    k.unused,
    leb-false a.expires_at now k.unexpired,
    k.fingerprint,
    IsMatch→matches_command r a c k.matching,
  ),
)
