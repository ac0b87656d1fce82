-- ===== src/Executor/Recovery/Decisions.antt =====
-- When RecoveryManager (packages/executor/src/recovery.ts) repeats an operation.
use drive_guard.Prelude.{◌<◌, ◌≡◌, refl, ◌↔◌, ◌⊎◌, inl, inr, true, some, arith}
use drive_guard.Tools.{idempotent}
use drive_guard.Executor.{http_503, duplicate_request}
use drive_guard.Executor.Recovery.{
  OperationType, read, write, not_executed, retry, RecoveryInput, decide, is_transient_read,
  is_ambiguous_write,
}

-- A write that is known not to have happened: its failure says so, or the reconciliation does.
pub record IsSafeToRepeat (i : RecoveryInput) : Type 0 where
  pub idempotent : i.idempotency_hint ≡ idempotent
  pub not_done :
      (i.failure_type ≡ http_503)
      ⊎ ((i.failure_type ≡ duplicate_request)
          ⊎ ((is_ambiguous_write i.failure_type ≡ true)
              × (i.reconciliation_status ≡ some not_executed)))

repeat_write :
    (i : RecoveryInput)
    → i.operation_type ≡ write
    → ((decide i).action ≡ retry) ↔ ((i.attempt < i.max_attempts) × IsSafeToRepeat i)
unfolding decide
repeat_write i w = (
  λ h. (ground arith, record { idempotent = ground arith; not_done = ground arith }),
  λ (l, s). ground (arith, s.idempotent, s.not_done),
)

repeat_read :
    (i : RecoveryInput)
    → i.operation_type ≡ read
    → ((decide i).action ≡ retry)
      ↔ ((is_transient_read i.failure_type ≡ true) × (i.attempt < i.max_attempts))
unfolding decide
repeat_read i r = ground arith

-- A failed operation is repeated exactly when attempts are left and either it is a read that failed
-- transiently, or it is a write of an idempotent tool that is known not to have happened: by a 503
-- or a duplicate answer, or, after a failure that leaves it open, by a reconciliation.
pub retry_iff :
    (i : RecoveryInput)
    → ((decide i).action ≡ retry) ↔ (
        (i.attempt < i.max_attempts)
        × (((i.operation_type ≡ read) × (is_transient_read i.failure_type ≡ true))
            ⊎ ((i.operation_type ≡ write) × IsSafeToRepeat i)))
retry_iff i = elim (operations i.operation_type) [
  | inl r ↦ (
    λ h. let (t, l) = (repeat_read i r).0 h in (l, inl (r, t)),
    λ (l, c). elim c [
      | inl (r', t) ↦ (repeat_read i r).1 (t, l)
      | inr (w, s) ↦ absurd (ground arith)
    ],
  )
  | inr w ↦ (
    λ h. let (l, s) = (repeat_write i w).0 h in (l, inr (w, s)),
    λ (l, c). elim c [
      | inl (r, t) ↦ absurd (ground arith)
      | inr (w', s) ↦ (repeat_write i w).1 (l, s)
    ],
  )
]
  where
    operations : (o : OperationType) → (o ≡ read) ⊎ (o ≡ write)
    operations read = inl refl
    operations write = inr refl
