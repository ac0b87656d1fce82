-- ===== src/Lifecycle/Evolution/Create.antt =====
-- ConfirmationService.create (packages/action-lifecycle/src/service.ts) adds only a new record.
use drive_guard.Prelude.{ℕ, String, refl}
use drive_guard.Lifecycle.{cancelled, PendingActionRecord}
use drive_guard.Lifecycle.Service.{Env}
use drive_guard.Policy.Provenance.{Issued}
use drive_guard.Lifecycle.Service.Create.{
  CreateCommand, new_record, announce, persist, generated_token, create_action,
}
use drive_guard.Lifecycle.Evolution.{IsNew}
use drive_guard.Lifecycle.Evolution.Tracks.{
  nothing, Tracks, Tracks-pure, Tracks-raise, Tracks-require, Tracks-outside, Tracks-attempt,
  Tracks-then, Tracks-result,
}
use drive_guard.Lifecycle.Evolution.Repository.{transition-Moves, find-Moves, create-Moves}
use drive_guard.Lifecycle.Evolution.Service.{
  Tracks-repository, Tracks-to_utc, Tracks-generated_id, Tracks-check, Tracks-now, Tracks-emit,
}

module _ (env : Env) where
  Tracks-announce :
      (id : String) (r : PendingActionRecord) → Tracks nothing (announce env id r) (λ u. nothing)
  unfolding announce
  Tracks-announce id r = Tracks-attempt _ _ (Tracks-emit env _ r) (λ e.
      Tracks-then _ _
        (Tracks-result _
          (Tracks-repository _ (λ s k. transition-Moves env.js s id cancelled _ refl refl))
          (λ r s k. tt))
        (λ gone.
          Tracks-then _ _
            (Tracks-attempt _ _ (Tracks-emit env _ gone) (λ e. Tracks-pure tt (λ s k. tt)))
            (λ u. Tracks-raise e)))

  Tracks-persist :
      (r : PendingActionRecord) (token : String)
      → IsNew r
      → Tracks nothing (persist env r token) (λ a. nothing)
  unfolding persist
  Tracks-persist r token is_new =
      Tracks-then _ _ (Tracks-repository _ (λ s k. create-Moves env.js s r is_new)) (λ u.
        Tracks-then _ _
          (Tracks-result _ (Tracks-repository _ (λ s k. find-Moves env.js s r.action.action_id))
            (λ o s k. tt))
          (λ found. Tracks-then _ _ (Tracks-require _ found (λ a s e k. tt)) (λ stored.
            Tracks-then _ _ (Tracks-announce _ stored) (λ u. Tracks-pure _ (λ s k. tt)))))

  new_record-IsNew :
      (c : CreateCommand) (id : String) (created_at expires_at : ℕ)
      (summary fingerprint token : String)
      → IsNew (new_record env c id created_at expires_at summary fingerprint token)
  unfolding new_record
  new_record-IsNew c id created_at expires_at summary fingerprint token = record {
    awaiting = refl;
    token = env.js.sha256 token;
    has_token = refl;
    unconfirmed = refl;
    unauthorized = refl;
    unconsumed = refl;
    created_at = created_at;
    history = refl;
  }

  pub create-Tracks :
      (issued : Issued) (c : CreateCommand)
      → Tracks nothing (create_action env issued c) (λ a. nothing)
  unfolding create_action generated_token
  create-Tracks issued c = Tracks-then _ _ (Tracks-check _ _) (λ u.
      Tracks-then _ _ (Tracks-check _ _) (λ u. Tracks-then _ _ (Tracks-check _ _) (λ u.
        Tracks-then _ _ (Tracks-now env) (λ ms. Tracks-then _ _ (Tracks-to_utc ms) (λ created_at.
          Tracks-then _ _ (Tracks-to_utc _) (λ expires_at.
            Tracks-then _ _ (Tracks-generated_id _) (λ id. Tracks-then _ _ (Tracks-check _ _) (λ u.
              Tracks-then _ _ (Tracks-require _ _ (λ a s e k. tt)) (λ summary.
                Tracks-then _ _ (Tracks-require _ _ (λ a s e k. tt)) (λ fingerprint.
                  Tracks-then _ _
                    (Tracks-then _ _ (Tracks-outside _) (λ v. Tracks-require _ _ (λ a s e k. tt)))
                    (λ token. Tracks-persist _ token (
                      new_record-IsNew c id created_at expires_at summary fingerprint
                        token))))))))))))
