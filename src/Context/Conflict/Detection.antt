-- ===== src/Context/Conflict/Detection.antt =====
-- What a detection says, and that the Policy Engine takes it as evidence.
use drive_guard.Prelude.{
  ◌≤◌, String, ◌≡◌, refl, ◌∙◌, Bool, true, not, ◌&&◌, some, List, [], ◌∷◌, arith, any,
  if◌then◌else◌,
}
use drive_guard.Prelude.Sets.{
  keep, unique, sort, any-sort, any-unique, any-keep, all-sort, all-unique, all-keep, all-keep_self,
  is_unique-sort, is_unique-unique, is_unique-keep,
}
use drive_guard.Context.Freshness.{max_safe_integer}
use drive_guard.Context.{ContextSnapshot}
use drive_guard.Context.Conflict.{
  no_conflict, version_changed_but_irrelevant, relevant_state_changed, unknown_relevant_path,
  is_known_path, has_changed_at, detect_version_changes, detect_paths, valid_conflict, status_of,
}

abbrev is_inhabited : List String → Bool
is_inhabited = any (λ p. true)

status_of_lem :
    (unknown changed : List String) (moved : Bool)
    → status_of unknown changed moved ≡ (
        if is_inhabited unknown
        then unknown_relevant_path
        else if is_inhabited changed
        then relevant_state_changed
        else if moved
        then version_changed_but_irrelevant
        else no_conflict)
status_of_lem [] [] moved = refl
status_of_lem [] (p ∷ ps) moved = refl
status_of_lem (p ∷ ps) changed moved = refl

any-&&-true : (p : String → Bool) (xs : List String) → any (λ x. p x && true) xs ≡ any p xs
any-&&-true p [] = refl
any-&&-true p (x ∷ xs) = ground (arith, any-&&-true p xs)

module _ (before : String → String → Bool) where
  inhabited-set :
      (p : String → Bool) (xs : List String)
      → is_inhabited (sort before (unique (keep p xs))) ≡ any p xs
  inhabited-set p xs =
      any-sort (λ x. true) before (unique (keep p xs))
      ∙ any-unique (λ x. true) (keep p xs)
      ∙ any-keep p (λ x. true) xs
      ∙ any-&&-true p xs

  inhabited-changed :
      (p q : String → Bool) (xs : List String)
      → is_inhabited (keep q (sort before (unique (keep p xs)))) ≡ any (λ x. p x && q x) xs
  inhabited-changed p q xs =
      any-keep q (λ x. true) (sort before (unique (keep p xs)))
      ∙ any-&&-true q (sort before (unique (keep p xs)))
      ∙ any-sort q before (unique (keep p xs))
      ∙ any-unique q (keep p xs)
      ∙ any-keep p q xs

  module _ (planning execution : ContextSnapshot) (relevant : List String) where
    -- The status of a detection, read off the paths as they were given, whatever their order and
    -- repetitions: UNKNOWN_RELEVANT_PATH if any is unknown, else RELEVANT_STATE_CHANGED if the
    -- snapshots differ at any, else VERSION_CHANGED_BUT_IRRELEVANT if any version or the snapshot
    -- id changed, else NO_CONFLICT.
    pub detect_paths-status : (detect_paths before planning execution relevant).status ≡ (
        if any (λ p. not (is_known_path p)) relevant
        then unknown_relevant_path
        else if any (λ p. is_known_path p && has_changed_at planning execution p) relevant
        then relevant_state_changed
        else if (detect_version_changes planning execution).has_version_changed
        then version_changed_but_irrelevant
        else no_conflict)
    unfolding detect_paths
    detect_paths-status =
        status_of_lem _ _ _
        ∙ rw (
          inhabited-set (λ p. not (is_known_path p)) relevant,
          inhabited-changed is_known_path (has_changed_at planning execution) relevant,
        )

    -- Every detection between two snapshots with valid versions is evidence that the engine accepts
    -- against the second one.
    pub detect_paths-valid :
        1 ≤ planning.context_version
        → planning.context_version ≤ max_safe_integer
        → 1 ≤ execution.context_version
        → execution.context_version ≤ max_safe_integer
        → valid_conflict
            (detect_paths before planning execution relevant)
            (some execution.context_version)
          ≡ true
    unfolding detect_paths valid_conflict detect_version_changes
    detect_paths-valid p1 p2 e1 e2 =
        let known = unique (keep is_known_path relevant) in
        let unknown = unique (keep (λ p. not (is_known_path p)) relevant) in
        ground (
          arith,
          all-keep (has_changed_at planning execution) is_known_path (sort before known),
          all-sort is_known_path before known,
          all-unique is_known_path (keep is_known_path relevant),
          all-keep_self is_known_path relevant,
          is_unique-keep (has_changed_at planning execution) (sort before known),
          is_unique-sort before known,
          is_unique-unique (keep is_known_path relevant),
          all-sort (λ p. not (is_known_path p)) before unknown,
          all-unique (λ p. not (is_known_path p)) (keep (λ p. not (is_known_path p)) relevant),
          all-keep_self (λ p. not (is_known_path p)) relevant,
          is_unique-sort before unknown,
          is_unique-unique (keep (λ p. not (is_known_path p)) relevant),
        )
