-- ===== src/Lifecycle/Evolution/Confirm.antt =====
-- ConfirmationService.confirm (packages/action-lifecycle/src/service.ts) makes only steps of the life
-- of the records, and binds the authorization to the record it is for.
use drive_guard.Prelude.{ℕ, String, ◌≡◌, refl, Option, none, some, leb, is_none, is_some, ◌&&◌}
use drive_guard.Prelude.Dict.{get}
use drive_guard.Exec.{Result, ok, err, pure}
use drive_guard.Lifecycle.{
  replan_required, expired, PendingActionRecord, Fault, is_confirmed, is_expired,
}
use drive_guard.Lifecycle.Integrity.{assert_record_integrity}
use drive_guard.Lifecycle.Repository.{Records}
use drive_guard.Lifecycle.Service.{Env, require_bound_command, require_awaiting, require_identity}
use drive_guard.Context.{ContextSnapshot}
use drive_guard.Lifecycle.Revalidation.{Revalidation}
use drive_guard.Lifecycle.Service.Confirm.{
  ConfirmCommand, recover, expire_now, reject_expired, announce, run_revalidator, decline,
  authorization_id_for, issue, settle, accept, require_integrity, confirm_open, confirm_awaiting,
  confirm,
}
use drive_guard.Lifecycle.Evolution.{IsEvolution-refl}
use drive_guard.Lifecycle.Evolution.Tracks.{
  Known, nothing, Leaves, Tracks, Tracks-pure, Tracks-raise, Tracks-outside, Tracks-if,
  Tracks-attempt, Tracks-bind, Tracks-then, Tracks-forget, Tracks-result,
}
use drive_guard.Lifecycle.Evolution.Repository.{accept_confirmation-Moves, authorize-Moves}
use drive_guard.Lifecycle.Evolution.Service.{
  Tracks-repository, Tracks-to_utc, Tracks-generated_id, Tracks-check, Tracks-now, Tracks-emit,
  Tracks-transition_at, Tracks-require_record, Tracks-replan,
}

module _ (env : Env) where
  Tracks-recover : (id : String) → Tracks nothing (recover env id) (λ a. nothing)
  unfolding recover
  Tracks-recover id = Tracks-then _ _ (Tracks-now env) (λ ms.
      Tracks-then _ _ (Tracks-transition_at env id replan_required ms refl refl)
        (λ r. Tracks-then _ _ (Tracks-emit env _ r) (λ u. Tracks-pure _ (λ s k. tt))))

  Tracks-expire_now : (id : String) (ms : ℕ) → Tracks nothing (expire_now env id ms) (λ a. nothing)
  unfolding expire_now
  Tracks-expire_now id ms =
      Tracks-then _ _ (Tracks-transition_at env id expired ms refl refl)
        (λ r. Tracks-then _ _ (Tracks-emit env _ r) (λ u. Tracks-raise _))

  Tracks-announce : {P : Known} (r : PendingActionRecord) → Tracks P (announce env r) (λ u. P)
  unfolding announce
  Tracks-announce r =
      Tracks-attempt _ _ (Tracks-then _ _ (Tracks-emit env _ r) (λ u. Tracks-emit env _ r))
        (λ e. Tracks-then _ _ (Tracks-replan env r) (λ u. Tracks-raise e))

  Tracks-run_revalidator :
      {P : Known} (r : PendingActionRecord) → Tracks P (run_revalidator env r) (λ a. P)
  unfolding run_revalidator
  Tracks-run_revalidator r = Tracks-then _ _ (Tracks-outside _) (λ current.
      Tracks-then _ _ (Tracks-now env) (λ t.
        Tracks-then _ _ (Tracks-now env)
          (λ u. Tracks-then _ _ (Tracks-now env) (λ v. Tracks-pure _ (λ s k. k)))))

  Tracks-decline :
      (id : String) (ms : ℕ) (x : Revalidation)
      → Tracks nothing (decline env id ms x) (λ a. nothing)
  unfolding decline
  Tracks-decline id ms x =
      Tracks-then _ _ (Tracks-transition_at env id replan_required ms refl refl)
        (λ r. Tracks-then _ _ (Tracks-emit env _ r) (λ u. Tracks-pure _ (λ s k. tt)))

  Tracks-authorization_id_for :
      {P : Known} (id : String) (ms : ℕ) → Tracks P (authorization_id_for env id ms) (λ a. P)
  unfolding authorization_id_for
  Tracks-authorization_id_for id ms = Tracks-attempt _ _ (Tracks-generated_id _) (λ e.
      Tracks-then _ _ (Tracks-transition_at env id replan_required ms refl refl)
        (λ r. Tracks-then _ _ (Tracks-emit env _ r) (λ u. Tracks-raise e)))

  -- The record as the acceptance left it.
  abbrev Accepted : String → PendingActionRecord → String → Known
  Accepted id r confirmation_id s = (get id s ≡ some r) × (r.confirmation_id ≡ some confirmation_id)

  Tracks-issue :
      (id : String) (r : PendingActionRecord) (confirmation_id : String) (ms : ℕ) (x : Revalidation)
      (current : ContextSnapshot)
      → Tracks
          (Accepted id r confirmation_id)
          (issue env id r confirmation_id ms x current)
          (λ a. nothing)
  unfolding issue
  Tracks-issue id r confirmation_id ms x current = Tracks-then _ _ (Tracks-to_utc ms) (λ issued_at.
      Tracks-then _ _ (Tracks-authorization_id_for id ms) (λ authorization_id.
        Tracks-then _ _ (Tracks-to_utc _) (λ expires_at.
          Tracks-bind (λ q. nothing) _ _
            (Tracks-result _
              (Tracks-repository _ (λ s k. authorize-Moves env.js s id r _ issued_at k.0 (record {
                action_id = refl;
                action_fingerprint = refl;
                tool_name = refl;
                risk_level = refl;
                policy_rule_id = refl;
                confirmation_id = k.1;
              })))
              (λ q s k. tt))
            (λ q. Tracks-then _ _ (Tracks-emit env _ q) (λ u. Tracks-pure _ (λ s k. tt))))))

  Tracks-settle :
      (id : String) (r : PendingActionRecord) (confirmation_id : String) (ms : ℕ) (x : Revalidation)
      (current : Option ContextSnapshot)
      → Tracks
          (Accepted id r confirmation_id)
          (settle env id r confirmation_id ms x current)
          (λ a. nothing)
  unfolding settle
  Tracks-settle id r confirmation_id ms x none = Tracks-forget _ (Tracks-decline id ms x)
  Tracks-settle id r confirmation_id ms x (some current) =
      Tracks-if x.valid (issue env id r confirmation_id ms x current) (decline env id ms x)
        (λ e. Tracks-issue id r confirmation_id ms x current)
        (λ e. Tracks-forget _ (Tracks-decline id ms x))

  Tracks-reject_expired :
      {P : Known} (r : PendingActionRecord) → Tracks P (reject_expired env r) (λ u. P)
  unfolding reject_expired
  Tracks-reject_expired r = Tracks-then _ _ (Tracks-emit env _ r) (λ u. Tracks-raise _)

  Tracks-accept : (id : String) (ms : ℕ) → Tracks nothing (accept env id ms) (λ a. nothing)
  unfolding accept
  Tracks-accept id ms = Tracks-then _ _ (Tracks-to_utc ms) (λ confirmed_at.
      Tracks-then _ _ (Tracks-generated_id _) (λ confirmation_id.
        Tracks-bind (λ r. Accepted id r confirmation_id) _ _
          (Tracks-repository _
            (λ s k. accept_confirmation-Moves env.js s id confirmation_id confirmed_at))
          (λ r.
            Tracks-then _ _
              (Tracks-if (is_expired r.action.state) (reject_expired env r) (pure tt)
                (λ e. Tracks-reject_expired r) (λ e. Tracks-pure tt (λ s k. k)))
              (λ u. Tracks-then _ _ (Tracks-announce r) (λ u.
                Tracks-then _ _ (Tracks-run_revalidator r) (λ x.
                  Tracks-then _ _ (Tracks-now env) (λ completion_ms.
                    Tracks-settle id r confirmation_id completion_ms x x.current_context)))))))

  Tracks-require_integrity :
      (r : PendingActionRecord) → Tracks nothing (require_integrity env r) (λ u. nothing)
  unfolding require_integrity
  Tracks-require_integrity r = record {
    at = λ w p. (IsEvolution-refl w.records, leaves (assert_record_integrity env.js r) w.records);
  }
    where
      leaves : (x : Result Fault (Unit {0})) (s : Records) → Leaves (λ u. nothing) x s
      leaves (ok u) s = tt
      leaves (err e) s = tt

  Tracks-confirm_open :
      (c : ConfirmCommand) (r : PendingActionRecord) (ms : ℕ)
      → Tracks nothing (confirm_open env c r ms) (λ a. nothing)
  unfolding confirm_open require_identity
  Tracks-confirm_open c r ms = Tracks-then _ _ (Tracks-check _ _) (λ u.
      Tracks-then _ _ (Tracks-require_integrity r)
        (λ u. Tracks-then _ _ (Tracks-check _ _) (λ u. Tracks-accept c.action_id ms)))

  Tracks-confirm_awaiting :
      (c : ConfirmCommand) (r : PendingActionRecord)
      → Tracks nothing (confirm_awaiting env c r) (λ a. nothing)
  unfolding confirm_awaiting require_awaiting
  Tracks-confirm_awaiting c r = Tracks-then _ _ (Tracks-check _ _) (λ u.
      Tracks-then _ _ (Tracks-now env) (λ ms.
        Tracks-if (leb r.action.expires_at ms) (expire_now env c.action_id ms)
          (confirm_open env c r ms) (λ e. Tracks-expire_now _ ms)
          (λ e. Tracks-confirm_open c r ms)))

  pub confirm-Tracks : (c : ConfirmCommand) → Tracks nothing (confirm env c) (λ a. nothing)
  unfolding confirm require_bound_command
  confirm-Tracks c = Tracks-then _ _ (Tracks-check _ _) (λ u.
      Tracks-then _ _ (Tracks-check _ _) (λ u.
        Tracks-bind (λ r. nothing) _ _ (Tracks-result _ (Tracks-require_record env _) (λ r s k. tt))
          (λ r.
            Tracks-if
              (is_confirmed r.action.state && is_none r.token_hash && is_some r.confirmation_id)
              (recover env c.action_id) (confirm_awaiting env c r) (λ e. Tracks-recover _)
              (λ e. Tracks-confirm_awaiting c r))))
