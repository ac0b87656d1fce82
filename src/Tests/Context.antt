-- ===== src/Tests/Context.antt =====
-- The evaluator and the detector of packages/context/src on concrete snapshots.
use drive_guard.Prelude.{◌≤◌, ◌<◌, ◌≡◌, refl, ◌⊎◌, ◌↔◌, true, false, some, [], ◌∷◌, arith}
use drive_guard.Prelude.Int.{pos}
use drive_guard.Context.Freshness.{
  Requirement, FreshnessResult, fresh, absent, version, evaluate, valid_freshness,
}
use drive_guard.Context.Freshness.Agreement.{fresh_iff, evaluate-valid_iff}
use drive_guard.Context.Conflict.{
  is_known_path, has_changed_at, value_at, detect_paths, valid_conflict, relevant_state_changed,
}
use drive_guard.Prelude.Sets.{includes}
use drive_guard.Prelude.Text.{split_dot}
use drive_guard.Context.Conflict.Values.{to_value, read_path, deep_equal}
use drive_guard.Context.Conflict.Detection.{detect_paths-status, detect_paths-valid}
use drive_guard.Tests.Fixtures.{snapshot, js}

abbrev requirement : Requirement
requirement = record { max_age_ms = 5000; requires_latest = true }

abbrev result : FreshnessResult
result = record {
  status = fresh;
  age_ms = pos 500;
  max_age_ms = 5000;
  snapshot_version = 1;
  latest_version = some 1;
}

fresh_iff_example :
    (fresh ≡ fresh) ↔ ((1000 ≤ 1500) × (1500 ≤ 6000) × ((true ≡ false) ⊎ (version 1 ≡ version 1)))
unfolding evaluate
fresh_iff_example = fresh_iff 1500 (snapshot 1000 1 "CLOSED") requirement (version 1) result refl

evaluate-valid_iff_example :
    (valid_freshness result (some 1) (some requirement) ≡ true)
    ↔ ((true ≡ true) ⊎ ((version 1 ≡ absent) ⊎ ((version 1 ≡ version 1) ⊎ (1500 < 1000))))
unfolding evaluate
evaluate-valid_iff_example =
    evaluate-valid_iff 1500 (snapshot 1000 1 "CLOSED") requirement (version 1) result refl
      (omega arith)

-- Fresh to the evaluator, which was not asked for the latest version, and not to the engine.
abbrev old_result : FreshnessResult
old_result = record result { latest_version = some 2 }

disagreement :
    evaluate 1500
      (snapshot 1000 1 "CLOSED")
      (record requirement { requires_latest = false })
      (version 2)
    ≡ some old_result
unfolding evaluate
disagreement = refl

disagreement_rejected :
    valid_freshness old_result (some 1) (some (record requirement { requires_latest = false }))
    ≡ false
unfolding valid_freshness
disagreement_rejected = refl

detect_paths-status_example :
    (detect_paths js.before
      (snapshot 1000 1 "CLOSED")
      (snapshot 1000 2 "OPEN")
      ("vehicle.doors.trunk" ∷ [])).status
    ≡ relevant_state_changed
unfolding is_known_path includes has_changed_at deep_equal value_at read_path split_dot to_value
detect_paths-status_example =
    detect_paths-status js.before (snapshot 1000 1 "CLOSED") (snapshot 1000 2 "OPEN")
      ("vehicle.doors.trunk" ∷ [])

detect_paths-valid_example :
    valid_conflict
      (detect_paths js.before
        (snapshot 1000 1 "CLOSED")
        (snapshot 1000 2 "OPEN")
        ("vehicle.doors.trunk" ∷ []))
      (some 2)
    ≡ true
detect_paths-valid_example =
    detect_paths-valid js.before (snapshot 1000 1 "CLOSED") (snapshot 1000 2 "OPEN")
      ("vehicle.doors.trunk" ∷ []) (omega arith) (omega arith) (omega arith) (omega arith)
