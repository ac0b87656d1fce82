-- ===== src/Lifecycle/Service/Confirm/Conditions.antt =====
-- When ConfirmationService.confirm (packages/action-lifecycle/src/service.ts) hands out an
-- authorization.
use drive_guard.Prelude.{
  ℕ, ◌<◌, String, ◌≡◌, refl, sym, ap, ◌∙◌, inl, inr, true, false, not, Option, none, some, str_eq,
  eq_iff, leb, ||-false, arith,
}
use drive_guard.Prelude.Dict.{get}
use drive_guard.Exec.{Result, ok, err, ◌>>=◌, continue, require, pure, raise}
use drive_guard.Exec.Returns.{bind-ok, throw_if-ok, if-ok, require-ok, pure-ok, raise-ok}
use drive_guard.Context.{ContextSnapshot}
use drive_guard.Lifecycle.{
  awaiting_confirmation, ActionState, is_awaiting, ExecutionAuthorization, PendingActionRecord,
  Fault, action_not_found,
}
use drive_guard.Lifecycle.Integrity.{assert_record_integrity}
use drive_guard.Lifecycle.Revalidation.{Revalidation}
use drive_guard.Lifecycle.Repository.{Records, find}
use drive_guard.Lifecycle.Evolution.Tracks.{returned}
use drive_guard.Lifecycle.Service.{
  World, Env, outside, repository, require_bound_command, require_awaiting, require_identity, now,
  require_record,
}
use drive_guard.Lifecycle.Service.Confirm.{
  ConfirmCommand, Outcome, same_hash, recover, expire_now, decline, issue, settle, accept,
  require_integrity, confirm_open, confirm_awaiting, confirm,
}
use drive_guard.Lifecycle.Evolution.Repository.{find-Moves_at}

kept :
    (o : Option PendingActionRecord) (w : World)
    → (require {S = World} action_not_found o w).1.calls ≡ w.calls
unfolding require pure raise
kept none w = refl
kept (some r) w = refl

-- What the outcome of the later stages shows if it carries an authorization.
abbrev Validated : Outcome → Type 0
Validated o = (a : ExecutionAuthorization) → o.authorization ≡ some a → o.revalidation.valid ≡ true

module _ (env : Env) where
  recover-none :
      (id : String) (w : World) (o : Outcome) → (recover env id w).0 ≡ ok o → o.authorization ≡ none
  unfolding recover
  recover-none id w o h =
      let (ms, e, h1) = bind-ok _ _ w o h in
      let (r, e2, h2) = bind-ok _ _ _ o h1 in
      let (u, e3, h3) = bind-ok _ _ _ o h2 in
      ap (λ (x : Outcome). x.authorization) (sym (pure-ok _ _ o h3))

  decline-none :
      (id : String) (ms : ℕ) (x : Revalidation) (w : World) (o : Outcome)
      → (decline env id ms x w).0 ≡ ok o
      → o.authorization ≡ none
  unfolding decline
  decline-none id ms x w o h =
      let (r, e2, h2) = bind-ok _ _ w o h in
      let (u, e3, h3) = bind-ok _ _ _ o h2 in
      ap (λ (x : Outcome). x.authorization) (sym (pure-ok _ _ o h3))

  expire_now-fails :
      (id : String) (ms : ℕ) (w : World) (o : Outcome) → (expire_now env id ms w).0 ≡ ok o → ⊥
  unfolding expire_now
  expire_now-fails id ms w o h =
      let (r, e2, h2) = bind-ok _ _ w o h in
      let (u, e3, h3) = bind-ok _ _ _ o h2 in raise-ok _ _ o h3

  issue-revalidation :
      (id : String) (r : PendingActionRecord) (confirmation_id : String) (ms : ℕ) (x : Revalidation)
      (current : ContextSnapshot) (w : World) (o : Outcome)
      → (issue env id r confirmation_id ms x current w).0 ≡ ok o
      → o.revalidation ≡ x
  unfolding issue
  issue-revalidation id r confirmation_id ms x current w o h =
      let (at, e1, h1) = bind-ok _ _ w o h in
      let (i, e2, h2) = bind-ok _ _ _ o h1 in
      let (t, e3, h3) = bind-ok _ _ _ o h2 in
      let (q, e4, h4) = bind-ok _ _ _ o h3 in
      let (u, e5, h5) = bind-ok _ _ _ o h4 in
      ap (λ (x : Outcome). x.revalidation) (sym (pure-ok _ _ o h5))

  declined : (o : Outcome) → o.authorization ≡ none → Validated o
  declined o e a f = absurd (ground arith)

  settle-Validated :
      (id : String) (r : PendingActionRecord) (confirmation_id : String) (ms : ℕ) (x : Revalidation)
      (current : Option ContextSnapshot) (w : World) (o : Outcome)
      → (settle env id r confirmation_id ms x current w).0 ≡ ok o
      → Validated o
  unfolding settle
  settle-Validated id r confirmation_id ms x none w o h = declined o (decline-none id ms x w o h)
  settle-Validated id r confirmation_id ms x (some current) w o h =
      elim (if-ok x.valid (issue env id r confirmation_id ms x current) (decline env id ms x) w o
        h) [
          | inl (v, k) ↦ (λ a f.
              ap (λ (y : Revalidation). y.valid)
                (issue-revalidation id r confirmation_id ms x current w o k)
              ∙ v)
          | inr (v, k) ↦ declined o (decline-none id ms x w o k)
        ]

  accept-Validated :
      (id : String) (ms : ℕ) (w : World) (o : Outcome) → (accept env id ms w).0 ≡ ok o → Validated o
  unfolding accept
  accept-Validated id ms w o h =
      let (at, e1, h1) = bind-ok _ _ w o h in
      let (i, e2, h2) = bind-ok _ _ _ o h1 in
      let (r, e3, h3) = bind-ok _ _ _ o h2 in
      let (u, e4, h4) = bind-ok _ _ _ o h3 in
      let (v, e5, h5) = bind-ok _ _ _ o h4 in
      let (x, e6, h6) = bind-ok _ _ _ o h5 in
      let (t, e7, h7) = bind-ok _ _ _ o h6 in settle-Validated id r i t x x.current_context _ o h7

  -- The record `r`, stored when `confirm` is called, admits the command.
  pub record IsConfirmable (w : World) (c : ConfirmCommand) (r : PendingActionRecord) : Type 0 where
    pub stored : get c.action_id w.records ≡ some r
    pub awaiting : r.action.state ≡ awaiting_confirmation
    pub unexpired : env.now_ms w.calls < r.action.expires_at
    pub session_id : r.action.session_id ≡ c.session_id
    pub user_id : r.action.user_id ≡ c.user_id
    pub intact : assert_record_integrity env.js r ≡ ok tt
    pub token : r.token_hash ≡ some (env.js.sha256 c.confirmation_token)

  found-stored :
      (id : String) (w : World) (o : Option PendingActionRecord) (r : PendingActionRecord)
      → (repository (find env.js id) w).0 ≡ ok o
      → o ≡ some r
      → get id w.records ≡ some r
  unfolding repository
  found-stored id w o r e f =
      returned (λ o s. (r : PendingActionRecord) → o ≡ some r → get id w.records ≡ some r)
        (find env.js id w.records).1 o e ((find-Moves_at env.js w.records id).at).1 r f

  require_record-calls : (id : String) (w : World) → (require_record env id w).1.calls ≡ w.calls
  unfolding require_record repository ◌>>=◌
  require_record-calls id w = go (find env.js id w.records).0 (find env.js id w.records).1
    where
      go :
          (x : Result Fault (Option PendingActionRecord)) (s : Records)
          → (continue x
              (λ found. require action_not_found found)
              (record w { records = s })).1.calls
            ≡ w.calls
      go (err e) s = refl
      go (ok o) s = kept o (record w { records = s })

  require_record-ok :
      (id : String) (w : World) (r : PendingActionRecord)
      → (require_record env id w).0 ≡ ok r
      → get id w.records ≡ some r
  unfolding require_record
  require_record-ok id w r h =
      let (o, e, k) = bind-ok _ _ w r h in found-stored id w o r e (require-ok _ o _ r k)

  identity-ok : (x y : String) → not (str_eq x y) ≡ false → x ≡ y
  identity-ok x y h = ground (arith, eq_iff x y)

  same_hash-ok : (o : Option String) (h : String) → not (same_hash o h) ≡ false → o ≡ some h
  same_hash-ok none h e = absurd (ground arith)
  same_hash-ok (some g) h e = ap some (identity-ok g h e)

  awaiting-ok : (s : ActionState) → not (is_awaiting s) ≡ false → s ≡ awaiting_confirmation
  awaiting-ok s h = ground arith

  leb-false : (m n : ℕ) → leb m n ≡ false → n < m
  leb-false m n h = ground arith

  now-ok : (w : World) (ms : ℕ) → (now env w).0 ≡ ok ms → env.now_ms w.calls ≡ ms
  unfolding now outside
  now-ok w ms h = ground arith

  confirm_open-ok :
      (c : ConfirmCommand) (r : PendingActionRecord) (ms : ℕ) (w : World) (o : Outcome)
      → (confirm_open env c r ms w).0 ≡ ok o
      → (r.action.session_id ≡ c.session_id)
        × (r.action.user_id ≡ c.user_id)
        × (assert_record_integrity env.js r ≡ ok tt)
        × (r.token_hash ≡ some (env.js.sha256 c.confirmation_token))
        × Validated o
  unfolding confirm_open require_identity require_integrity
  confirm_open-ok c r ms w o h =
      let (e1, h1) = throw_if-ok _ _ _ w o h in
      let (u, e2, h2) = bind-ok _ _ w o h1 in
      let (e3, h3) = throw_if-ok _ _ _ _ o h2 in
      let (s, t) = ||-false _ _ e1 in
      (
        identity-ok _ _ s,
        identity-ok _ _ t,
        e2,
        same_hash-ok r.token_hash _ e3,
        accept-Validated c.action_id ms _ o h3,
      )

  -- `confirm` returns an authorization only for an action that was stored and awaited its
  -- confirmation, before its expiry, to the session and user it belongs to, with the token that was
  -- handed out, on a record that is whole, and after a revalidation that found the action valid.
  pub confirm-IsConfirmable :
      (c : ConfirmCommand) (w : World) (o : Outcome) (a : ExecutionAuthorization)
      → (confirm env c w).0 ≡ ok o
      → o.authorization ≡ some a
      → ((r : PendingActionRecord) × IsConfirmable w c r) × (o.revalidation.valid ≡ true)
  unfolding confirm require_bound_command confirm_awaiting require_awaiting
  confirm-IsConfirmable c w o a h issued =
      let (e1, h1) = throw_if-ok _ _ _ w o h in
      let (e2, h2) = throw_if-ok _ _ _ w o h1 in
      let (r, e3, h3) = bind-ok _ _ w o h2 in
      let stored = require_record-ok c.action_id w r e3 in
      let calls = require_record-calls c.action_id w in
      let w1 = (require_record env c.action_id w).1 in
      elim (if-ok _ (recover env c.action_id) (confirm_awaiting env c r) w1 o h3) [
        | inl (v, k) ↦ absurd (none-some (recover-none c.action_id w1 o k) issued)
        | inr (v, k) ↦
            let (e4, h4) = throw_if-ok _ _ _ w1 o k in
            let (ms, e5, h5) = bind-ok _ _ w1 o h4 in
            elim (if-ok (leb r.action.expires_at ms) (expire_now env c.action_id ms)
              (confirm_open env c r ms) (now env w1).1 o h5) [
                | inl (v, k) ↦ absurd (expire_now-fails c.action_id ms _ o k)
                | inr (v, k) ↦
                    let (s, u, intact, t, validated) = confirm_open-ok c r ms _ o k in
                    (
                      (
                        r,
                        record {
                          stored = stored;
                          awaiting = awaiting-ok r.action.state e4;
                          unexpired =
                              at_now ms calls (now-ok w1 ms e5)
                                (leb-false r.action.expires_at ms v);
                          session_id = s;
                          user_id = u;
                          intact = intact;
                          token = t;
                        },
                      ),
                      validated a issued,
                    )
              ]
      ]
    where
      none-some : {x : Option ExecutionAuthorization} → x ≡ none → x ≡ some a → ⊥
      none-some e f = ground arith

      at_now :
          {calls expires_at : ℕ} (ms : ℕ)
          → calls ≡ w.calls
          → env.now_ms calls ≡ ms
          → ms < expires_at
          → env.now_ms w.calls < expires_at
      at_now ms e f l = ground arith
