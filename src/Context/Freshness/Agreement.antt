-- ===== src/Context/Freshness/Agreement.antt =====
-- What an evaluation says, and when the Policy Engine takes it as evidence.
use drive_guard.Prelude.{ℕ, ◌+◌, ◌≤◌, ◌<◌, ◌≡◌, ◌⊎◌, ◌↔◌, true, false, some, arith}
use drive_guard.Context.{ContextSnapshot}
use drive_guard.Context.Freshness.{
  Requirement, FreshnessResult, fresh, Latest, absent, version, evaluate, valid_freshness,
  max_safe_integer,
}

-- An evaluation is FRESH exactly when the snapshot is not from the future, is no older than the
-- requirement allows, and is the latest one where the requirement asks for that.
pub fresh_iff :
    (now : ℕ) (s : ContextSnapshot) (q : Requirement) (latest : Latest) (r : FreshnessResult)
    → evaluate now s q latest ≡ some r
    → (r.status ≡ fresh) ↔ (
        (s.captured_at ≤ now)
        × (now ≤ s.captured_at + q.max_age_ms)
        × ((q.requires_latest ≡ false) ⊎ (latest ≡ version s.context_version)))
unfolding evaluate
fresh_iff now s q latest r e = (λ h. ground arith, λ h. ground arith)

-- What the evaluator makes for a snapshot with a safe version is valid to the engine exactly when
-- the requirement asks for the latest version, or none was passed, or the one that was passed is
-- that of the snapshot, or the snapshot is from the future. In the one other case, a version that is
-- not the snapshot's and was not asked for, the engine expects NOT_LATEST of it.
pub evaluate-valid_iff :
    (now : ℕ) (s : ContextSnapshot) (q : Requirement) (latest : Latest) (r : FreshnessResult)
    → evaluate now s q latest ≡ some r
    → s.context_version ≤ max_safe_integer
    → (valid_freshness r (some s.context_version) (some q) ≡ true) ↔ (
        (q.requires_latest ≡ true)
        ⊎ ((latest ≡ absent) ⊎ ((latest ≡ version s.context_version) ⊎ (now < s.captured_at))))
unfolding evaluate valid_freshness
evaluate-valid_iff now s q latest r e v = (λ h. ground arith, λ h. ground arith)
