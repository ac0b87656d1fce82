-- ===== src/Lifecycle/Evolution/Service.antt =====
-- The helpers and the short methods of ConfirmationService (packages/action-lifecycle/src/service.ts)
-- make only steps of the life of the records.
use drive_guard.Prelude.{ℕ, String, ◌≡◌, refl, Bool, true, false, Option, some}
use drive_guard.Prelude.Dict.{get}
use drive_guard.Exec.{pure, throw_if, modify}
use drive_guard.Lifecycle.{
  ActionState, replan_required, EventType, PendingActionRecord, Fault, is_confirmed, is_ready,
}
use drive_guard.Lifecycle.Repository.{Records, Repo}
use drive_guard.Lifecycle.Service.{
  Env, Event, deliver, repository, to_utc, generated_id, now, emit, require_record, transition_at,
  replan_confirmed, replan_after_boundary_failure,
}
use drive_guard.Lifecycle.Evolution.{IsEvolution-refl}
use drive_guard.Lifecycle.Evolution.Tracks.{
  Known, nothing, Tracks, Tracks-pure, Tracks-raise, Tracks-require, Tracks-outside, Tracks-if,
  Tracks-attempt, Tracks-bind, Tracks-then, Tracks-throw_if, Tracks-result,
}
use drive_guard.Lifecycle.Evolution.Repository.{Moves, transition-Moves, find-Moves}

pub Tracks-repository :
    {A : Type 0} {P : Known} {Q : A → Known} (m : Repo A)
    → ((s : Records) → P s → Moves s m Q)
    → Tracks P (repository m) Q
unfolding repository
Tracks-repository m h = record { at = λ w p. (h w.records p).at }

module _ {P : Known} where
  pub Tracks-to_utc : (ms : ℕ) → Tracks P (to_utc ms) (λ a. P)
  unfolding to_utc
  Tracks-to_utc ms = Tracks-require _ _ (λ a s e p. p)

  pub Tracks-generated_id : (factory : ℕ → Option String) → Tracks P (generated_id factory) (λ a. P)
  unfolding generated_id
  Tracks-generated_id factory =
      Tracks-then _ _ (Tracks-outside _) (λ a. Tracks-require _ _ (λ id s e p. p))

  pub Tracks-check : (e : Fault) (b : Bool) → Tracks P (throw_if b e) (λ u. P)
  Tracks-check e b = Tracks-throw_if b e (λ h s p. p)

  module _ (env : Env) where
    pub Tracks-now : Tracks P (now env) (λ a. P)
    unfolding now
    Tracks-now = Tracks-outside _

    Tracks-deliver :
        (delivered : Bool) (event : Event) → Tracks P (deliver env delivered event) (λ u. P)
    unfolding modify
    Tracks-deliver true event = record { at = λ w p. (IsEvolution-refl w.records, p) }
    Tracks-deliver false event = Tracks-raise _

    pub Tracks-emit : (t : EventType) (r : PendingActionRecord) → Tracks P (emit env t r) (λ u. P)
    unfolding emit
    Tracks-emit t r = Tracks-then _ _ (Tracks-generated_id _) (λ id.
        Tracks-then _ _ Tracks-now (λ ms.
          Tracks-then _ _ (Tracks-to_utc ms)
            (λ at. Tracks-then _ _ (Tracks-outside _) (λ delivered. Tracks-deliver delivered _))))

    -- A transition to a state other than CONFIRMED and READY_FOR_EXECUTION.
    pub Tracks-transition_at :
        (id : String) (next : ActionState) (ms : ℕ)
        → is_confirmed next ≡ false
        → is_ready next ≡ false
        → Tracks P (transition_at env id next ms) (λ r. nothing)
    unfolding transition_at
    Tracks-transition_at id next ms p q = Tracks-then _ _ (Tracks-to_utc ms) (λ at.
        Tracks-result _ (Tracks-repository _ (λ s known. transition-Moves env.js s id next at p q))
          (λ r s k. tt))

    -- What `#require` returns is stored.
    pub Tracks-require_record :
        (id : String) → Tracks P (require_record env id) (λ r s. get id s ≡ some r)
    unfolding require_record
    Tracks-require_record id =
        Tracks-bind _ _ _ (Tracks-repository _ (λ s known. find-Moves env.js s id))
          (λ o. Tracks-require _ o (λ r s e k. k r e))

module _ (env : Env) where
  Tracks-replan_confirmed :
      (r : PendingActionRecord) → Tracks nothing (replan_confirmed env r) (λ u. nothing)
  unfolding replan_confirmed
  Tracks-replan_confirmed r = Tracks-then _ _ (Tracks-now env) (λ ms.
      Tracks-then _ _ (Tracks-transition_at env _ replan_required ms refl refl) (λ replanned.
        Tracks-attempt _ _ (Tracks-emit env _ replanned) (λ e. Tracks-pure tt (λ s k. tt))))

  pub Tracks-replan :
      (r : PendingActionRecord)
      → Tracks nothing (replan_after_boundary_failure env r) (λ u. nothing)
  unfolding replan_after_boundary_failure
  Tracks-replan r =
      Tracks-if (is_confirmed r.action.state) (replan_confirmed env r) (pure tt)
        (λ e. Tracks-replan_confirmed r) (λ e. Tracks-pure tt (λ s k. tt))
