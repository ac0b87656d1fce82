-- ===== src/Lifecycle/Evolution/Runs.antt =====
-- Whole histories of calls of ConfirmationService (packages/action-lifecycle/src/service.ts), from
-- an empty repository.
use drive_guard.Prelude.{
  ℕ, String, ◌≡◌, ◌≢◌, sym, ap, ◌∙◌, subst, some, Option-cases, inl, inr, List, [], ◌∷◌, arith,
}
use drive_guard.Prelude.Dict.{get, get_unique}
use drive_guard.Exec.{ok}
use drive_guard.Policy.Provenance.{Issued}
use drive_guard.Lifecycle.{ExecutionAuthorization, PendingActionRecord}
use drive_guard.Lifecycle.Consumption.{ConsumeCommand}
use drive_guard.Lifecycle.Service.{World, Env, BoundCommand}
use drive_guard.Lifecycle.Service.Create.{CreateCommand, create_action}
use drive_guard.Lifecycle.Service.Confirm.{ConfirmCommand, confirm}
use drive_guard.Lifecycle.Service.Settle.{
  resume_ready_for_execution, consume_execution_authorization, reject, cancel, expire,
}
use drive_guard.Lifecycle.Evolution.{IsEvolution, IsEvolution-refl, IsEvolution-trans}
use drive_guard.Lifecycle.Evolution.Tracks.{returned}
use drive_guard.Lifecycle.Evolution.Create.{create-Tracks}
use drive_guard.Lifecycle.Evolution.Confirm.{confirm-Tracks}
use drive_guard.Lifecycle.Evolution.Settle.{
  resume-Tracks, consume-Tracks, consume-Tracks-Used, reject-Tracks, cancel-Tracks, expire-Tracks,
  Used,
}
use drive_guard.Lifecycle.Evolution.Invariant.{IsSound, IsNew-IsSound, Steps-IsSound}
use drive_guard.Lifecycle.Evolution.Guarantees.{IsOpen, Steps-intent, Steps-closed, Steps-used}

-- A call of a public method; `creates` carries what the Policy Engine has issued by then.
pub data Call : Type 0 where
  creates : Issued → CreateCommand → Call
  confirms : ConfirmCommand → Call
  resumes : BoundCommand → Call
  consumes : ConsumeCommand → Call
  rejects : BoundCommand → Call
  cancels : BoundCommand → Call
  expires : String → Call

-- The service before its first call.
abbrev pub empty_world : ℕ → World
empty_world calls = record { records = []; events = []; calls = calls }

nothing_stored : (id : String) (r : PendingActionRecord) → get id [] ≡ some r → ⊥
unfolding get
nothing_stored id r e = ground arith

-- Every stored record is sound.
pub record IsSoundWorld (w : World) : Type 0 where
  pub sound : (id : String) (r : PendingActionRecord) → get id w.records ≡ some r → IsSound r

module _ (env : Env) where
  -- The state after a call, whether it returns or throws.
  unfoldable pub perform : Call → World → World
  perform (creates issued c) w = (create_action env issued c w).1
  perform (confirms c) w = (confirm env c w).1
  perform (resumes c) w = (resume_ready_for_execution env c w).1
  perform (consumes c) w = (consume_execution_authorization env c w).1
  perform (rejects c) w = (reject env c w).1
  perform (cancels c) w = (cancel env c w).1
  perform (expires id) w = (expire env id w).1

  unfoldable pub run : List Call → World → World
  unfolding perform
  run [] w = w
  run (c ∷ cs) w = run cs (perform c w)

  perform-IsEvolution : (c : Call) (w : World) → IsEvolution w.records (perform c w).records
  unfolding perform
  perform-IsEvolution (creates issued c) w = ((create-Tracks env issued c).at w tt).0
  perform-IsEvolution (confirms c) w = ((confirm-Tracks env c).at w tt).0
  perform-IsEvolution (resumes c) w = ((resume-Tracks env c).at w tt).0
  perform-IsEvolution (consumes c) w = ((consume-Tracks env c).at w tt).0
  perform-IsEvolution (rejects c) w = ((reject-Tracks env c).at w tt).0
  perform-IsEvolution (cancels c) w = ((cancel-Tracks env c).at w tt).0
  perform-IsEvolution (expires id) w = ((expire-Tracks env id).at w tt).0

  -- Whatever is called, no record is lost, every record has only made steps of its life, and a
  -- record that is new began as `create` makes it.
  pub run-IsEvolution : (cs : List Call) (w : World) → IsEvolution w.records (run cs w).records
  unfolding run
  run-IsEvolution [] w = IsEvolution-refl w.records
  run-IsEvolution (c ∷ cs) w =
      IsEvolution-trans (perform-IsEvolution c w) (run-IsEvolution cs (perform c w))

  pub run-IsSoundWorld : (cs : List Call) (w : World) → IsSoundWorld w → IsSoundWorld (run cs w)
  run-IsSoundWorld cs w i = record {
    sound = λ id s e.
        let v = run-IsEvolution cs w in
        elim (Option-cases (get id w.records)) [
          | inl missing ↦
              let (r, new, steps) = v.born id s missing e in
              Steps-IsSound steps (IsNew-IsSound r new)
          | inr (r, found) ↦
              let (t, f, steps) = v.grown id r found in
              subst IsSound (get_unique id _ f e) (Steps-IsSound steps (i.sound id r found))
        ];
  }

  -- In any history of calls that starts with an empty repository every stored record is sound: its
  -- history is a path of the state machine that ends in its state, an action that is ready for
  -- execution has an authorization, an authorization stands only on such an action and repeats it
  -- and its confirmation, a confirmed action has no token any more, and only an authorization of
  -- an action that is ready is used.
  pub run-IsSound : (cs : List Call) (calls : ℕ) → IsSoundWorld (run cs (empty_world calls))
  run-IsSound cs calls =
      run-IsSoundWorld cs (empty_world calls)
        (record { sound = λ id r e. absurd (nothing_stored id r e) })

  perform-IsSoundWorld : (c : Call) (w : World) → IsSoundWorld w → IsSoundWorld (perform c w)
  unfolding run
  perform-IsSoundWorld c w i = run-IsSoundWorld (c ∷ []) w i

  -- On a service whose records are sound, once an authorization has been consumed, no later call hands out an authorization for the same
  -- action, whatever is called in between.
  pub consume-run-consume :
      (c d : ConsumeCommand) (cs : List Call) (w : World) (a b : ExecutionAuthorization)
      → IsSoundWorld w
      → d.action_id ≡ c.action_id
      → (consume_execution_authorization env c w).0 ≡ ok a
      → (consume_execution_authorization env d (run cs (perform (consumes c) w))).0 ≢ ok b
  unfolding perform
  consume-run-consume c d cs w a b i same first second =
      let w1 = perform (consumes c) w in
      let (r, stored, at, used) =
        returned (λ x. Used c.action_id) w1.records a first ((consume-Tracks env c).at w tt).1 in
      let (s, later, steps) = (run-IsEvolution cs w1).grown c.action_id r stored in
      let unchanged =
        Steps-used at ((perform-IsSoundWorld (consumes c) w i).sound c.action_id r stored) used
          steps in
      returned (λ x s. ⊥) (consume_execution_authorization env d (run cs w1)).1.records b second
        ((consume-Tracks-Used env d).at (run cs w1) (
          s,
          subst (λ id. get id (run cs w1).records ≡ some s) (sym same) later,
          at,
          ap (λ (x : PendingActionRecord). x.authorization_consumed_at) unchanged ∙ used,
        )).1

  -- Whatever is called, what was submitted for confirmation, with its Context, is what stays stored:
  -- the tool, the arguments, the identities, the fingerprint and the policy decision of an action
  -- never change.
  pub run-intent :
      (cs : List Call) (w : World) (id : String) (r : PendingActionRecord)
      → get id w.records ≡ some r
      → (s : PendingActionRecord) × (get id (run cs w).records ≡ some s)
        × (s.action.intent ≡ r.action.intent)
        × (s.original_context ≡ r.original_context)
  run-intent cs w id r e =
      let (s, f, steps) = (run-IsEvolution cs w).grown id r e in
      let (i, c) = Steps-intent steps in (s, f, i, c)

  -- Whatever is called, an action that is neither awaiting its confirmation nor confirmed keeps its
  -- state, its history and its authorization.
  pub run-closed :
      (cs : List Call) (w : World) (id : String) (r : PendingActionRecord)
      → get id w.records ≡ some r
      → (IsOpen r.action.state → ⊥)
      → (s : PendingActionRecord) × (get id (run cs w).records ≡ some s)
        × (s.action ≡ r.action)
        × (s.authorization ≡ r.authorization)
  run-closed cs w id r e c =
      let (s, f, steps) = (run-IsEvolution cs w).grown id r e in
      let (i, x) = Steps-closed c steps in (s, f, i, x)

  -- Whatever is called on a service whose records are sound, a record whose authorization is used
  -- stays as it is.
  pub run-used :
      (cs : List Call) (w : World) (id : String) (r : PendingActionRecord) (at : ℕ)
      → IsSoundWorld w
      → get id w.records ≡ some r
      → r.authorization_consumed_at ≡ some at
      → get id (run cs w).records ≡ some r
  run-used cs w id r at i e used =
      let (s, f, steps) = (run-IsEvolution cs w).grown id r e in
      f ∙ ap some (Steps-used at (i.sound id r e) used steps)
