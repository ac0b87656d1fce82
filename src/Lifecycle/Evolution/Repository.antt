-- ===== src/Lifecycle/Evolution/Repository.antt =====
-- Each operation of InMemoryPendingActionRepository (packages/action-lifecycle/src/repository.ts)
-- makes at most one step of the life of the record it is called for.
use drive_guard.Prelude.{
  ℕ, String, ◌≡◌, refl, ap, subst, ◌⊎◌, inl, inr, Bool, true, false, Option, none, some,
  Option-cases, Bool-cases, str_eq, eq_iff, arith,
}
use drive_guard.Prelude.Dict.{get, put, get-put, get-put_self, get_unique}
use drive_guard.Exec.{Result, ok, err, pure, raise, require, gets, modify, throw_if, ◌>>=◌}
use drive_guard.Js.{Js}
use drive_guard.Lifecycle.{
  ActionState, ready_for_execution, ExecutionAuthorization, PendingActionRecord, Fault,
  is_confirmed, is_ready,
}
use drive_guard.Lifecycle.Integrity.{assert_record_integrity}
use drive_guard.Lifecycle.Repository.{
  Records, Repo, clone_record, store, require_record, create, find, transition, accept_confirmation,
  authorize, consume_authorization,
}
use drive_guard.Lifecycle.Evolution.{
  Step, settle, accept, Steps, done, followed, IsBoundTo, IsNew, IsEvolution, IsEvolution-refl,
}
use drive_guard.Lifecycle.Evolution
use drive_guard.Lifecycle.Evolution.Tracks.{Known, Leaves}

pub put-IsEvolution :
    (id : String) (old new : PendingActionRecord) (records : Records)
    → get id records ≡ some old
    → Step old new
    → IsEvolution records (put id new records)
put-IsEvolution id old new records found step = record {
  grown = λ j r e. elim (Bool-cases (str_eq id j)) [
    | inl here ↦ (
      new,
      rw (get-put id j new records, here) refl,
      subst (λ o. Steps o new) (same j r e here) (followed done step),
    )
    | inr there ↦ (r, rw (get-put id j new records, there) e, done)
  ];
  born = λ j s e f. elim (Bool-cases (str_eq id j)) [
    | inl here ↦ absurd (ground (arith, eq_iff id j))
    | inr there ↦ absurd (ground (arith, get-put id j new records))
  ];
}
  where
    same :
        (j : String) (r : PendingActionRecord)
        → get j records ≡ some r
        → str_eq id j ≡ true
        → old ≡ r
    same j r e here = ground (arith, eq_iff id j)

create-IsEvolution_lem :
    (id : String) (new : PendingActionRecord) (records : Records)
    → get id records ≡ none
    → IsNew new
    → IsEvolution records (put id new records)
create-IsEvolution_lem id new records free is_new = record {
  grown = λ j r e. elim (Bool-cases (str_eq id j)) [
    | inl here ↦ absurd (ground (arith, eq_iff id j))
    | inr there ↦ (r, rw (get-put id j new records, there) e, done)
  ];
  born = λ j s e f. elim (Bool-cases (str_eq id j)) [
    | inl here ↦ (new, is_new, subst (Steps new) (same j s f here) done)
    | inr there ↦ absurd (ground (arith, get-put id j new records))
  ];
}
  where
    same :
        (j : String) (s : PendingActionRecord)
        → get j (put id new records) ≡ some s
        → str_eq id j ≡ true
        → new ≡ s
    same j s f here = ground (arith, get-put id j new records)

Result-cases :
    (x : Result Fault (Unit {0})) → ((u : Unit {0}) × (x ≡ ok u)) ⊎ ((f : Fault) × (x ≡ err f))
Result-cases (ok u) = inl (u, refl)
Result-cases (err f) = inr (f, refl)

-- `m`, called in the state `s`, makes an evolution and leaves `Q` known if it returns.
pub record Moves {A : Type 0} (s : Records) (m : Repo A) (Q : A → Known) : Type 0 where
  pub at : IsEvolution s (m s).1 × Leaves Q (m s).0 (m s).1

pub Moves-result :
    {A : Type 0} {Q R : A → Known} {s : Records} (m : Repo A)
    → ((a : A) (after : Records) → Q a after → R a after)
    → Moves s m Q
    → Moves s m R
Moves-result {A} {Q} {R} {s} m h k = record { at = (k.at.0, go (m s).0 (m s).1 k.at.1) }
  where
    go : (r : Result Fault A) (after : Records) → Leaves Q r after → Leaves R r after
    go (ok a) after q = h a after q
    go (err e) after q = tt

module _ {A B : Type 0} {Q : B → Known} {s : Records} where
  Moves-gets : (g : Records → A) (f : A → Repo B) → Moves s (f (g s)) Q → Moves s (gets g >>= f) Q
  unfolding gets ◌>>=◌
  Moves-gets g f h = record { at = h.at }

  Moves-require :
      (e : Fault) (o : Option A) (f : A → Repo B)
      → ((a : A) → o ≡ some a → Moves s (f a) Q)
      → Moves s (require e o >>= f) Q
  unfolding require ◌>>=◌ pure raise
  Moves-require e none f h = record { at = (IsEvolution-refl s, tt) }
  Moves-require e (some a) f h = record { at = (h a refl).at }

module _ {B : Type 0} {Q : B → Known} {s : Records} where
  Moves-throw_if :
      (b : Bool) (e : Fault) (f : Unit {0} → Repo B)
      → (b ≡ false → Moves s (f tt) Q)
      → Moves s (throw_if b e >>= f) Q
  unfolding throw_if ◌>>=◌ pure raise
  Moves-throw_if true e f h = record { at = (IsEvolution-refl s, tt) }
  Moves-throw_if false e f h = record { at = (h refl).at }

  Moves-require_record :
      (js : Js) (id : String) (f : PendingActionRecord → Repo B)
      → ((r : PendingActionRecord) → get id s ≡ some r → Moves s (f r) Q)
      → Moves s (require_record js id >>= f) Q
  unfolding require_record ◌>>=◌ gets require pure raise
  Moves-require_record js id f h = elim (Option-cases (get id s)) [
    | inl missing ↦ record { at = rw (missing) (IsEvolution-refl s, tt) }
    | inr (r, found) ↦ record { at = rw (found) (h r found).at }
  ]

module _ (js : Js) where
  pub clone_record-cases :
      (r : PendingActionRecord)
      → ((e : Fault) × ((s : Records) → clone_record js r s ≡ (err e, s)))
        ⊎ ((s : Records) → clone_record js r s ≡ (ok r, s))
  unfolding clone_record
  clone_record-cases r = elim (Result-cases (assert_record_integrity js r)) [
    | inl (u, e) ↦ inr (λ s. rw (e, clone_record) refl)
    | inr (f, e) ↦ inl (f, λ s. rw (e, clone_record) refl)
  ]

  -- Storing either fails and changes nothing, or replaces the record.
  pub store-cases :
      (id : String) (r : PendingActionRecord) (records : Records)
      → ((e : Fault) × (store js id r records ≡ (err e, records)))
        ⊎ (store js id r records ≡ (ok r, put id r records))
  unfolding store ◌>>=◌ modify
  store-cases id r records = elim (clone_record-cases r) [
    | inl (f, e) ↦ inl (f, rw (e records) refl)
    | inr e ↦ inr (rw (e records, e (put id r records)) refl)
  ]

  -- Storing a record that takes a step, and what is known of it then.
  store-Moves :
      {s : Records} (id : String) (old new : PendingActionRecord)
      → get id s ≡ some old
      → Step old new
      → Moves s (store js id new) (λ r after. (get id after ≡ some r) × (r ≡ new))
  store-Moves {s} id old new found step = elim (store-cases id new s) [
    | inl (f, e) ↦ record { at = rw (e) (IsEvolution-refl s, tt) }
    | inr e ↦ record {
      at = rw (e) (put-IsEvolution id old new s found step, (get-put_self id new s, refl));
    }
  ]

  pub transition-Moves :
      (s : Records) (id : String) (next : ActionState) (at : ℕ)
      → is_confirmed next ≡ false
      → is_ready next ≡ false
      → Moves s (transition js id next at) (λ r after. get id after ≡ some r)
  unfolding transition
  transition-Moves s id next at p q = Moves-require_record js id _ (λ r found.
      Moves-require _ _ _ (λ a moved.
        Moves-result _ (λ r after k. k.0)
          (store-Moves id r _ found (settle next at a p q moved refl))))

  pub accept_confirmation-Moves :
      (s : Records) (id confirmation_id : String) (at : ℕ)
      → Moves s
          (accept_confirmation js id confirmation_id at)
          (λ r after. (get id after ≡ some r) × (r.confirmation_id ≡ some confirmation_id))
  unfolding accept_confirmation
  accept_confirmation-Moves s id confirmation_id at = Moves-require_record js id _ (λ r found.
      Moves-require _ _ _ (λ a moved.
        Moves-result _ (λ r after k. (k.0, ap (λ x. x.confirmation_id) k.1))
          (store-Moves id r _ found (accept confirmation_id at a moved refl))))

  pub authorize-Moves :
      (s : Records) (id : String) (old : PendingActionRecord) (a : ExecutionAuthorization) (at : ℕ)
      → get id s ≡ some old
      → IsBoundTo a old
      → Moves s (authorize js id a at) (λ r after. get id after ≡ some r)
  unfolding authorize
  authorize-Moves s id old a at known bound = Moves-require_record js id _ (λ r found.
      Moves-throw_if _ _ _ (λ unissued. Moves-require _ _ _ (λ action moved.
        Moves-result _ (λ r after k. k.0)
          (store-Moves id r _ found (
            Evolution.authorize a at action (ground arith) moved
              (subst (IsBoundTo a) (get_unique id s known found) bound) refl)))))

  pub consume_authorization-Moves :
      (s : Records) (id : String) (old : PendingActionRecord) (a : ExecutionAuthorization) (at : ℕ)
      → get id s ≡ some old
      → old.action.state ≡ ready_for_execution
      → old.authorization ≡ some a
      → Moves s
          (consume_authorization js id at)
          (λ r after. (get id after ≡ some r) × (r.authorization_consumed_at ≡ some at))
  unfolding consume_authorization
  consume_authorization-Moves s id old a at known ready issued =
      Moves-require_record js id _ (λ r found. Moves-throw_if _ _ _ (λ unused.
        Moves-result _ (λ r after k. (k.0, ap (λ x. x.authorization_consumed_at) k.1))
          (store-Moves id r _ found (
            Evolution.consume a at
              (subst (λ (x : PendingActionRecord). x.action.state ≡ ready_for_execution)
                (get_unique id s known found) ready)
              (subst (λ (x : PendingActionRecord). x.authorization ≡ some a)
                (get_unique id s known found) issued)
              (ground arith) refl))))

  pub find-Moves :
      (s : Records) (id : String)
      → Moves s
          (find js id)
          (λ o after. (r : PendingActionRecord) → o ≡ some r → get id after ≡ some r)
  unfolding find gets ◌>>=◌ pure
  find-Moves s id = elim (Option-cases (get id s)) [
    | inl missing ↦ record { at = rw (missing) (IsEvolution-refl s, λ r e. absurd (ground arith)) }
    | inr (r, found) ↦ elim (clone_record-cases r) [
      | inl (f, e) ↦ record { at = rw (found, e s) (IsEvolution-refl s, tt) }
      | inr e ↦ record { at = rw (found, e s) (IsEvolution-refl s, λ q h. rw (found) h) }
    ]
  ]

  -- What is found is what was stored before.
  pub find-Moves_at :
      (s : Records) (id : String)
      → Moves s (find js id) (λ o after. (r : PendingActionRecord) → o ≡ some r → get id s ≡ some r)
  unfolding find gets ◌>>=◌ pure
  find-Moves_at s id = elim (Option-cases (get id s)) [
    | inl missing ↦ record { at = rw (missing) (IsEvolution-refl s, λ r e. absurd (ground arith)) }
    | inr (r, found) ↦ elim (clone_record-cases r) [
      | inl (f, e) ↦ record { at = rw (found, e s) (IsEvolution-refl s, tt) }
      | inr e ↦ record { at = rw (found, e s) (IsEvolution-refl s, λ q h. h) }
    ]
  ]

  pub create-Moves :
      (s : Records) (r : PendingActionRecord) → IsNew r → Moves s (create js r) (λ u after. Unit)
  unfolding create gets throw_if ◌>>=◌ pure raise modify
  create-Moves s r is_new = elim (Option-cases (get r.action.action_id s)) [
    | inr (old, taken) ↦ record { at = rw (taken) (IsEvolution-refl s, tt) }
    | inl free ↦ elim (clone_record-cases r) [
      | inl (f, e) ↦ record { at = rw (free, e s) (IsEvolution-refl s, tt) }
      | inr e ↦ record {
        at = rw (free, e s) (create-IsEvolution_lem r.action.action_id r s free is_new, tt);
      }
    ]
  ]
