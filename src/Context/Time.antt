-- ===== src/Context/Time.antt =====
-- packages/domain/src/validation.ts: toUtcTimestamp. The clock is read in whole milliseconds from
-- the epoch on; the pattern of a UtcTimestamp has four digits for the year, so the last timestamp
-- is 9999-12-31T23:59:59.999Z.
use drive_guard.Prelude.{ℕ, Option, none, some, leb, if◌then◌else◌}

abbrev pub max_timestamp : ℕ
max_timestamp = 253402300799999

-- `none` is the DomainValidationError INVALID_TIMESTAMP.
unfoldable pub to_utc_timestamp : ℕ → Option ℕ
to_utc_timestamp epoch_ms = if leb epoch_ms max_timestamp then some epoch_ms else none
