-- ===== src/Lifecycle/Evolution/Settle.antt =====
-- reject, cancel, expire, resumeReadyForExecution and consumeExecutionAuthorization
-- (packages/action-lifecycle/src/service.ts) make only steps of the life of the records.
use drive_guard.Prelude.{ℕ, String, ◌≡◌, refl, subst, false, Option, none, some, arith}
use drive_guard.Prelude.Dict.{get, get_unique}
use drive_guard.Exec.{Result, ok, err, pure, raise}
use drive_guard.Lifecycle.{
  ActionState, expired, EventType, PendingActionRecord, ExecutionAuthorization, Fault, is_confirmed,
  is_ready, is_expired,
}
use drive_guard.Lifecycle.Consumption.{ConsumeCommand, verify}
use drive_guard.Lifecycle.Consumption.Meaning.{verify_iff}
use drive_guard.Lifecycle.Repository.{Records, find}
use drive_guard.Lifecycle.Service.{
  Env, BoundCommand, require_bound_command, require_awaiting, require_identity,
}
use drive_guard.Lifecycle.Service.Settle.{
  check, resume_ready_for_execution, consume_execution_authorization, terminal, reject, cancel,
  expire_waiting, expire, ready_parts,
}
use drive_guard.Lifecycle.Evolution.{IsEvolution-refl}
use drive_guard.Lifecycle.Evolution.Tracks.{
  Known, nothing, Tracks, Tracks-pure, Tracks-raise, Tracks-require, Tracks-if, Tracks-bind,
  Tracks-then, Tracks-forget, Tracks-result,
}
use drive_guard.Lifecycle.Evolution.Repository.{
  Moves, find-Moves, find-Moves_at, Moves-result, consume_authorization-Moves,
}
use drive_guard.Lifecycle.Evolution.Service.{
  Tracks-repository, Tracks-to_utc, Tracks-check, Tracks-now, Tracks-emit, Tracks-transition_at,
  Tracks-require_record,
}

Tracks-checked :
    {A : Type 0} {P : Known} (x : Result Fault A) → Tracks P (check x) (λ a s. P s × (x ≡ ok a))
unfolding check
Tracks-checked (ok a) = record { at = λ w p. (IsEvolution-refl w.records, (p, refl)) }
Tracks-checked (err e) = record { at = λ w p. (IsEvolution-refl w.records, tt) }

-- An action whose authorization is used.
abbrev pub Used : String → Known
Used id s =
    (r : PendingActionRecord) × (get id s ≡ some r)
    × (at : ℕ) × (r.authorization_consumed_at ≡ some at)

module _ (env : Env) where
  Tracks-terminal :
      (c : BoundCommand) (state : ActionState) (t : EventType)
      → is_confirmed state ≡ false
      → is_ready state ≡ false
      → Tracks nothing (terminal env c state t) (λ a. nothing)
  unfolding terminal require_bound_command require_awaiting require_identity
  Tracks-terminal c state t p q = Tracks-then _ _ (Tracks-check _ _) (λ u.
      Tracks-bind _ _ _ (Tracks-require_record env _) (λ r. Tracks-forget _ (
        Tracks-then _ _ (Tracks-check _ _) (λ u. Tracks-then _ _ (Tracks-check _ _) (λ u.
          Tracks-then _ _ (Tracks-now env) (λ ms.
            Tracks-then _ _ (Tracks-transition_at env _ state ms p q) (λ settled.
              Tracks-then _ _ (Tracks-emit env t settled) (λ u. Tracks-pure _ (λ s k. tt)))))))))

  pub reject-Tracks : (c : BoundCommand) → Tracks nothing (reject env c) (λ a. nothing)
  unfolding reject
  reject-Tracks c = Tracks-terminal c _ _ refl refl

  pub cancel-Tracks : (c : BoundCommand) → Tracks nothing (cancel env c) (λ a. nothing)
  unfolding cancel
  cancel-Tracks c = Tracks-terminal c _ _ refl refl

  Tracks-expire_waiting :
      (id : String) (r : PendingActionRecord)
      → Tracks nothing (expire_waiting env id r) (λ a. nothing)
  unfolding expire_waiting require_awaiting
  Tracks-expire_waiting id r = Tracks-then _ _ (Tracks-check _ _) (λ u.
      Tracks-then _ _ (Tracks-now env) (λ ms. Tracks-then _ _ (Tracks-check _ _) (λ u.
        Tracks-then _ _ (Tracks-transition_at env _ expired ms refl refl) (λ settled.
          Tracks-then _ _ (Tracks-emit env _ settled) (λ u. Tracks-pure _ (λ s k. tt))))))

  pub expire-Tracks : (id : String) → Tracks nothing (expire env id) (λ a. nothing)
  unfolding expire
  expire-Tracks id = Tracks-bind _ _ _ (Tracks-require_record env _) (λ r.
      Tracks-if (is_expired r.action.state) (pure r.action) (expire_waiting env id r)
        (λ e. Tracks-pure _ (λ s k. tt)) (λ e. Tracks-forget _ (Tracks-expire_waiting id r)))

  Tracks-ready_parts :
      (r : PendingActionRecord) (o : Option ExecutionAuthorization)
      → Tracks nothing (ready_parts env r o) (λ a. nothing)
  Tracks-ready_parts r none = Tracks-raise _
  Tracks-ready_parts r (some a) =
      Tracks-if (is_ready r.action.state) (pure (r.action, a)) (raise _)
        (λ e. Tracks-pure _ (λ s k. tt)) (λ e. Tracks-raise _)

  pub resume-Tracks :
      (c : BoundCommand) → Tracks nothing (resume_ready_for_execution env c) (λ a. nothing)
  unfolding resume_ready_for_execution require_bound_command require_identity
  resume-Tracks c = Tracks-then _ _ (Tracks-check _ _) (λ u.
      Tracks-bind _ _ _ (Tracks-require_record env _) (λ r. Tracks-forget _ (
        Tracks-then _ _ (Tracks-check _ _) (λ u.
          Tracks-bind _ _ _ (Tracks-checked _) (λ u. Tracks-forget _ (Tracks-ready_parts r _))))))

  pub consume-Tracks :
      (c : ConsumeCommand)
      → Tracks nothing (consume_execution_authorization env c) (λ a. Used c.action_id)
  unfolding consume_execution_authorization
  consume-Tracks c = Tracks-then _ _ (Tracks-check _ _) (λ u.
      Tracks-bind _ _ _ (Tracks-repository _ (λ s known. find-Moves env.js s c.action_id)) (λ found.
        Tracks-bind (λ r s. get c.action_id s ≡ some r) _ _ (Tracks-require _ _ (λ r s e k. k r e))
          (λ r. Tracks-then _ _ (Tracks-now env) (λ ms. Tracks-bind _ _ _ (Tracks-checked _) (λ a.
            Tracks-then _ _ (Tracks-to_utc ms) (λ at.
              Tracks-bind (λ q. Used c.action_id) _ _
                (Tracks-result _
                  (Tracks-repository _ (λ s k.
                    let v = (verify_iff env.js r c ms a).0 k.1 in
                    consume_authorization-Moves env.js s _ r a at k.0 v.ready v.issued))
                  (λ q s k. (q, k.0, at, k.1)))
                (λ q. Tracks-pure a (λ s k. k))))))))

  -- A used authorization is not handed out.
  pub consume-Tracks-Used :
      (c : ConsumeCommand)
      → Tracks (Used c.action_id) (consume_execution_authorization env c) (λ a s. ⊥)
  unfolding consume_execution_authorization
  consume-Tracks-Used c = Tracks-then _ _ (Tracks-check _ _) (λ u.
      Tracks-bind
        (λ found s.
          (r : PendingActionRecord)
          → found ≡ some r
          → (at : ℕ) × (r.authorization_consumed_at ≡ some at))
        _ _ (Tracks-repository _ (λ s known. found-used s c.action_id known))
        (λ found.
          Tracks-bind (λ r s. (at : ℕ) × (r.authorization_consumed_at ≡ some at)) _ _
            (Tracks-require _ _ (λ r s e k. k r e))
            (λ r. Tracks-then _ _ (Tracks-now env) (λ ms.
              Tracks-bind (λ a s. ⊥) _ _
                (Tracks-result _ (Tracks-checked _) (λ a s k. unusable r c ms a k.0 k.1))
                (λ a. record { at = λ w p. absurd p })))))
    where
      found-used :
          (s : Records) (id : String)
          → Used id s
          → Moves s (find env.js id) (λ o after.
            (r : PendingActionRecord)
            → o ≡ some r
            → (at : ℕ) × (r.authorization_consumed_at ≡ some at))
      found-used s id (q, stored, at, used) =
          Moves-result _
            (λ o after k r e. (
              at,
              subst (λ (x : PendingActionRecord). x.authorization_consumed_at ≡ some at)
                  (get_unique id s stored (k r e)) used,
            ))
            (find-Moves_at env.js s id)

      unusable :
          (r : PendingActionRecord) (c : ConsumeCommand) (ms : ℕ) (a : ExecutionAuthorization)
          → (at : ℕ) × (r.authorization_consumed_at ≡ some at)
          → verify env.js r c ms ≡ ok a
          → ⊥
      unusable r c ms a (at, used) h =
          let v = (verify_iff env.js r c ms a).0 h in ground (arith, v.unused)
