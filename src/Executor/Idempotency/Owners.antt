-- ===== src/Executor/Idempotency/Owners.antt =====
-- IdempotencyManager (packages/executor/src/idempotency.ts) in any history of calls: who owns a key.
use drive_guard.Prelude.{
  ℕ, ◌≡◌, refl, ◌∙◌, inl, inr, String, false, ◌&&◌, Bool-cases, Option-cases, none, some, is_some,
  List, [], ◌∷◌, All, ap, arith, if◌then◌else◌, str_eq, eq_iff,
}
use drive_guard.Prelude.Dict.{Dict, get, put, get-put, get-put_self, get-remove}
use drive_guard.Executor.Idempotency.{
  Entry, Idempotency, owner, duplicate, conflict, same_request, acquire, result_of, complete,
  is_current, release,
}

-- A call of acquire, of the `complete` of an owner, or of release.
pub data Call (A : Type 0) : Type 0 where
  acquires releases : String → String → String → Call A
  completes : ℕ → A → Call A

put_other :
    (key k : String) (d e : Entry) (m : Dict Entry)
    → get k m ≡ none
    → get key m ≡ some e
    → get key (put k d m) ≡ some e
put_other key k d e m n h = ground (arith, n, h, get-put k key d m, eq_iff k key)

abbrev entry_of : String → String → ℕ → Entry
entry_of fingerprint binding promise = record {
  fingerprint = fingerprint;
  request_binding = binding;
  promise = promise;
}

module _ {A : Type 0} where
  abbrev pub perform : Call A → Idempotency A → Idempotency A
  perform (acquires key fingerprint binding) s = (acquire key fingerprint binding s).1
  perform (releases key fingerprint binding) s = (release key fingerprint binding s).1
  perform (completes promise a) s = complete promise a s

  pub run : List (Call A) → Idempotency A → Idempotency A
  run [] s = s
  run (c ∷ cs) s = run cs (perform c s)

  -- The call is no release of the key by a request with this fingerprint and binding.
  abbrev pub IsKept : String → String → String → Call A → Type 0
  IsKept key fingerprint binding (acquires k f b) = Unit
  IsKept key fingerprint binding (releases k f b) =
      (str_eq k key && str_eq f fingerprint && str_eq b binding) ≡ false
  IsKept key fingerprint binding (completes promise a) = Unit

  -- What is answered to a request for a key that an entry holds.
  acquire-found :
      (key fingerprint binding : String) (e : Entry) (s : Idempotency A)
      → get key s.entries ≡ some e
      → acquire key fingerprint binding s
        ≡ (if same_request e fingerprint binding then duplicate e.promise else conflict, s)
  unfolding acquire
  acquire-found key fingerprint binding e s h = rw h refl

  acquire-entry :
      (key k f b : String) (e : Entry) (s : Idempotency A)
      → get key s.entries ≡ some e
      → get key (acquire k f b s).1.entries ≡ some e
  unfolding acquire
  acquire-entry key k f b e s h = elim (Option-cases (get k s.entries)) [
    | inl n ↦ rw n (put_other key k _ e s.entries n h)
    | inr (d, m) ↦ rw m h
  ]

  release-entry :
      (key k f b : String) (e : Entry) (s : Idempotency A)
      → get key s.entries ≡ some e
      → (str_eq k key && str_eq f e.fingerprint && str_eq b e.request_binding) ≡ false
      → get key (release k f b s).1.entries ≡ some e
  unfolding release
  release-entry key k f b e s h differs = elim (Option-cases (get k s.entries)) [
    | inl n ↦ rw n h
    | inr (d, m) ↦ ground (
      arith,
      m,
      h,
      differs,
      get-remove k key s.entries,
      eq_iff k key,
      eq_iff f e.fingerprint,
      eq_iff b e.request_binding,
      eq_iff d.fingerprint f,
      eq_iff d.request_binding b,
    )
  ]

  complete-entry :
      (key : String) (promise : ℕ) (a : A) (s : Idempotency A)
      → get key (complete promise a s).entries ≡ get key s.entries
  unfolding complete
  complete-entry key promise a s = elim (Bool-cases (is_some (result_of promise s.settled))) [
    | inl t ↦ rw t refl
    | inr f ↦ rw f refl
  ]

  perform-entry :
      (key : String) (e : Entry) (c : Call A) (s : Idempotency A)
      → get key s.entries ≡ some e
      → IsKept key e.fingerprint e.request_binding c
      → get key (perform c s).entries ≡ some e
  perform-entry key e (acquires k f b) s h keep = acquire-entry key k f b e s h
  perform-entry key e (releases k f b) s h keep = release-entry key k f b e s h keep
  perform-entry key e (completes promise a) s h keep = complete-entry key promise a s ∙ h

  run-entry :
      (key : String) (e : Entry) (cs : List (Call A)) (s : Idempotency A)
      → get key s.entries ≡ some e
      → All (IsKept key e.fingerprint e.request_binding) cs
      → get key (run cs s).entries ≡ some e
  unfolding run
  run-entry key e [] s h keep = h
  run-entry key e (c ∷ cs) s h keep =
      run-entry key e cs (perform c s) (perform-entry key e c s h keep.0) keep.1

  acquire-owner :
      (key fingerprint binding : String) (promise : ℕ) (s : Idempotency A)
      → (acquire key fingerprint binding s).0 ≡ owner promise
      → get key (acquire key fingerprint binding s).1.entries
        ≡ some (entry_of fingerprint binding promise)
  unfolding acquire
  acquire-owner key fingerprint binding promise s h = elim (Option-cases (get key s.entries)) [
    | inl n ↦ rw n (
        get-put_self key _ s.entries
        ∙ ap (λ p. some (entry_of fingerprint binding p)) (next_is (rw n at h)))
    | inr (d, m) ↦ absurd (ground (arith, m, h))
  ]
    where
      next_is : owner s.next ≡ owner promise → s.next ≡ promise
      next_is e = ground arith

  -- Once a request owns a key, every later request for it is told so, until the owner's request is
  -- released, whatever else is acquired, completed and released: a request with the same fingerprint
  -- and binding is a duplicate of the owner, any other a conflict.
  pub owner-run-acquire :
      (key fingerprint binding f b : String) (promise : ℕ) (cs : List (Call A)) (s : Idempotency A)
      → (acquire key fingerprint binding s).0 ≡ owner promise
      → All (IsKept key fingerprint binding) cs
      → (acquire key f b (run cs (acquire key fingerprint binding s).1)).0
        ≡ (if str_eq fingerprint f && str_eq binding b then duplicate promise else conflict)
  owner-run-acquire key fingerprint binding f b promise cs s h keep =
      ap (λ r. r.0)
        (acquire-found key f b (entry_of fingerprint binding promise)
          (run cs (acquire key fingerprint binding s).1)
          (run-entry key (entry_of fingerprint binding promise) cs
            (acquire key fingerprint binding s).1
            (acquire-owner key fingerprint binding promise s h) keep))

  complete-result :
      (promise p : ℕ) (a b : A) (s : Idempotency A)
      → result_of promise s.settled ≡ some a
      → result_of promise (complete p b s).settled ≡ some a
  unfolding complete result_of
  complete-result promise p a b s h = elim (Option-cases (result_of p s.settled)) [
    | inl n ↦ rw n (ground (arith, n, h))
    | inr (c, m) ↦ rw m h
  ]

  acquire-settled : (k f b : String) (s : Idempotency A) → (acquire k f b s).1.settled ≡ s.settled
  unfolding acquire
  acquire-settled k f b s = elim (Option-cases (get k s.entries)) [
    | inl n ↦ rw n refl
    | inr (d, m) ↦ rw m refl
  ]

  release-settled : (k f b : String) (s : Idempotency A) → (release k f b s).1.settled ≡ s.settled
  unfolding release
  release-settled k f b s = elim (Bool-cases (is_current (get k s.entries) f b)) [
    | inl t ↦ rw t refl
    | inr n ↦ rw n refl
  ]

  perform-result :
      (promise : ℕ) (a : A) (c : Call A) (s : Idempotency A)
      → result_of promise s.settled ≡ some a
      → result_of promise (perform c s).settled ≡ some a
  perform-result promise a (acquires k f b) s h = rw (acquire-settled k f b s) h
  perform-result promise a (releases k f b) s h = rw (release-settled k f b s) h
  perform-result promise a (completes p b) s h = complete-result promise p a b s h

  run-result :
      (promise : ℕ) (a : A) (cs : List (Call A)) (s : Idempotency A)
      → result_of promise s.settled ≡ some a
      → result_of promise (run cs s).settled ≡ some a
  unfolding run
  run-result promise a [] s h = h
  run-result promise a (c ∷ cs) s h =
      run-result promise a cs (perform c s) (perform-result promise a c s h)

  settled_now :
      (promise : ℕ) (a : A) (s : Idempotency A)
      → result_of promise s.settled ≡ none
      → result_of promise (complete promise a s).settled ≡ some a
  unfolding complete result_of
  settled_now promise a s n = rw n (ground arith)

  -- What an owner completes with is what its promise resolves to for ever, whatever is acquired,
  -- completed and released later, if the promise was not resolved before.
  pub complete-run-result :
      (promise : ℕ) (a : A) (cs : List (Call A)) (s : Idempotency A)
      → result_of promise s.settled ≡ none
      → result_of promise (run cs (complete promise a s)).settled ≡ some a
  complete-run-result promise a cs s h =
      run-result promise a cs (complete promise a s) (settled_now promise a s h)
