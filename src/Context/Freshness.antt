-- ===== src/Context/Freshness.antt =====
-- packages/context/src/freshness.ts: ContextFreshnessEvaluator.evaluate, and validFreshness of
-- packages/policy/src/engine.ts, which checks such a result when it comes back as evidence.
pub mod Agreement
use drive_guard.Prelude.{
  ℕ, Bool, true, false, not, ◌&&◌, ◌||◌, Option, none, some, leb, ◌==◌, is_none, if◌then◌else◌,
}
use drive_guard.Prelude.Int.{ℤ, sub_ℕ, is_negative, leb_pos}
use drive_guard.Context.{ContextSnapshot}
use drive_guard.Context.Time.{to_utc_timestamp}

abbrev pub max_safe_integer : ℕ
max_safe_integer = 9007199254740991

-- `maxAgeMs` is a number; that it is a natural one is checked by its type.
pub record Requirement : Type 0 where
  pub max_age_ms : ℕ
  pub requires_latest : Bool

pub data Status : Type 0 where
  fresh stale invalid_future_timestamp not_latest : Status

pub record FreshnessResult : Type 0 where
  pub status : Status
  pub age_ms : ℤ
  pub max_age_ms : ℕ
  pub snapshot_version : ℕ
  pub latest_version : Option ℕ

-- The argument `latestVersion?: unknown`.
pub data Latest : Type 0 where
  absent malformed : Latest
  version : ℕ → Latest

abbrev is_absent : Latest → Bool
is_absent absent = true
is_absent _ = false

-- ContextVersionSchema: an integer from 1 to Number.MAX_SAFE_INTEGER
abbrev pub is_context_version : ℕ → Bool
is_context_version v = leb 1 v && leb v max_safe_integer

-- The validated latest version; the outer `none` is a DomainValidationError.
validate_latest : Latest → Option (Option ℕ)
validate_latest absent = some none
validate_latest malformed = none
validate_latest (version v) = if is_context_version v then some (some v) else none

abbrev differs : Option ℕ → ℕ → Bool
differs none v = true
differs (some w) v = not (w == v)

classify : Requirement → ℤ → Option ℕ → ℕ → Status
classify requirement age latest snapshot_version =
    if is_negative age
    then invalid_future_timestamp
    else if requirement.requires_latest && differs latest snapshot_version
    then not_latest
    else if leb_pos age requirement.max_age_ms
    then fresh
    else stale

abbrev evaluated : ℕ → ContextSnapshot → Requirement → Option (Option ℕ) → Option FreshnessResult
evaluated now snapshot requirement none = none
evaluated now snapshot requirement (some latest) =
    let age = sub_ℕ now snapshot.captured_at in
    some (record {
      status = classify requirement age latest snapshot.context_version;
      age_ms = age;
      max_age_ms = requirement.max_age_ms;
      snapshot_version = snapshot.context_version;
      latest_version = latest;
    })

-- `now` is the reading of the clock; `none` is a DomainValidationError.
unfoldable pub evaluate : ℕ → ContextSnapshot → Requirement → Latest → Option FreshnessResult
unfolding classify validate_latest to_utc_timestamp
evaluate now snapshot requirement latest =
    if not (leb requirement.max_age_ms max_safe_integer)
      || is_none (to_utc_timestamp now)
      || (requirement.requires_latest && is_absent latest)
    then none
    else evaluated now snapshot requirement (validate_latest latest)

abbrev has_changed : Option ℕ → Option ℕ → Bool
has_changed none context_version = false
has_changed (some latest) none = true
has_changed (some latest) (some v) = not (latest == v)

abbrev same_version : ℕ → Option ℕ → Bool
same_version v none = false
same_version v (some w) = v == w

abbrev positive : Option ℕ → Bool
positive none = true
positive (some v) = leb 1 v && leb v max_safe_integer

abbrev same_status : Status → Status → Bool
same_status fresh fresh = true
same_status stale stale = true
same_status invalid_future_timestamp invalid_future_timestamp = true
same_status not_latest not_latest = true
same_status _ _ = false

abbrev expected_status : ℤ → ℕ → Option ℕ → Option ℕ → Status
expected_status age max_age latest context_version =
    if is_negative age
    then invalid_future_timestamp
    else if has_changed latest context_version
    then not_latest
    else if leb_pos age max_age
    then fresh
    else stale

-- validFreshness, of a value that has the shape of a result. `context_version` is null where the
-- Context is invalid, and the requirement is that of the tool's profile, if there is one.
unfoldable pub valid_freshness : FreshnessResult → Option ℕ → Option Requirement → Bool
valid_freshness r context_version none = false
valid_freshness r context_version (some requirement) =
    leb r.max_age_ms max_safe_integer
    && r.max_age_ms == requirement.max_age_ms
    && leb r.snapshot_version max_safe_integer
    && same_version r.snapshot_version context_version
    && positive r.latest_version
    && not (requirement.requires_latest && is_none r.latest_version)
    && same_status r.status (expected_status r.age_ms r.max_age_ms r.latest_version context_version)
