-- ===== src/Executor/Idempotency.antt =====
-- packages/executor/src/idempotency.ts: IdempotencyManager. A promise is a number; `settled` holds
-- the promises that were resolved, with their results.
pub mod Owners
use drive_guard.Prelude.{
  ℕ, suc, String, Bool, true, false, ◌&&◌, Option, none, some, is_some, List, [], ◌∷◌, ◌==◌, str_eq,
  if◌then◌else◌,
}
use drive_guard.Prelude.Dict.{Dict, get, put, remove}

-- IdempotencyEntry
pub record Entry : Type 0 where
  pub fingerprint : String
  pub request_binding : String
  pub promise : ℕ

pub record Idempotency (A : Type 0) : Type 0 where
  pub entries : Dict Entry
  pub settled : List (ℕ × A)
  pub next : ℕ

-- IdempotencyAcquisition
pub data Acquisition : Type 0 where
  owner duplicate : ℕ → Acquisition
  conflict : Acquisition

abbrev pub same_request : Entry → String → String → Bool
same_request e fingerprint binding =
    str_eq e.fingerprint fingerprint && str_eq e.request_binding binding

abbrev is_current : Option Entry → String → String → Bool
is_current none fingerprint binding = false
is_current (some e) fingerprint binding = same_request e fingerprint binding

module _ {A : Type 0} where
  abbrev acquire_found :
      Option Entry → String → String → String → Idempotency A → Acquisition × Idempotency A
  acquire_found none key fingerprint binding s = (
    owner s.next,
    record s {
      entries =
          put key
            (record { fingerprint = fingerprint; request_binding = binding; promise = s.next })
            s.entries;
      next = suc s.next;
    },
  )
  acquire_found (some e) key fingerprint binding s =
      (if same_request e fingerprint binding then duplicate e.promise else conflict, s)

  -- acquire
  unfoldable pub acquire : String → String → String → Idempotency A → Acquisition × Idempotency A
  acquire key fingerprint binding s = acquire_found (get key s.entries) key fingerprint binding s

  -- What a promise was resolved with.
  unfoldable pub result_of : ℕ → List (ℕ × A) → Option A
  result_of promise [] = none
  result_of promise ((p, a) ∷ settled) = if p == promise then some a else result_of promise settled

  -- The `complete` of the owner of a promise: only its first call counts.
  unfoldable pub complete : ℕ → A → Idempotency A → Idempotency A
  unfolding result_of
  complete promise a s =
      if is_some (result_of promise s.settled)
      then s
      else record s { settled = (promise, a) ∷ s.settled }

  -- release
  unfoldable pub release : String → String → String → Idempotency A → Bool × Idempotency A
  release key fingerprint binding s =
      if is_current (get key s.entries) fingerprint binding
      then (true, record s { entries = remove key s.entries })
      else (false, s)
