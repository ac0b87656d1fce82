-- ===== src/Executor/Circuit/Probes.antt =====
-- What CircuitBreaker (packages/executor/src/circuit-breaker.ts) lets through.
use drive_guard.Prelude.{
  ℕ, ◌+◌, ◌≤◌, ◌<◌, String, ◌≡◌, ◌≢◌, refl, ◌↔◌, ◌⊎◌, inl, inr, Bool, true, false, List, [], ◌∷◌,
  All, Bool-cases, subst, sym, eq_refl, str_eq, eq_iff, if◌then◌else◌, arith,
}
use drive_guard.Prelude.Dict.{get, put, get-put}
use drive_guard.Executor.Circuit.{
  closed, opened, half_open, CircuitEntry, refused, probing, Circuits, new_entry, acquire_entry,
  success_entry, fail_entry, entry, acquire, succeeded, failed,
}

-- An entry in which state, count and probe agree.
pub record IsSoundEntry (threshold : ℕ) (e : CircuitEntry) : Type 0 where
  pub below : e.state ≡ closed → e.failures < threshold
  pub reached : e.state ≢ closed → threshold ≤ e.failures
  pub probed : (e.probe_active ≡ true) ↔ (e.state ≡ half_open)

acquire-IsSoundEntry :
    (threshold cooldown_ms now : ℕ) (e : CircuitEntry)
    → IsSoundEntry threshold e
    → IsSoundEntry threshold (acquire_entry cooldown_ms now e e.state).1
acquire-IsSoundEntry threshold cooldown_ms now e i = record {
  below = λ h. ground (arith, i.below);
  reached = λ h. ground (arith, i.reached);
  probed = ground (arith, i.probed);
}

success-IsSoundEntry :
    (threshold : ℕ) (e : CircuitEntry) → 1 ≤ threshold → IsSoundEntry threshold (success_entry e)
success-IsSoundEntry threshold e t = record {
  below = λ h. t;
  reached = λ h. absurd (h refl);
  probed = ground arith;
}

fail-IsSoundEntry :
    (threshold now : ℕ) (e : CircuitEntry)
    → IsSoundEntry threshold e
    → IsSoundEntry threshold (fail_entry threshold now e)
fail-IsSoundEntry threshold now e i = record {
  below = λ h. ground (arith, i.below);
  reached = λ h. ground (arith, i.reached);
  probed = ground (arith, i.probed);
}

entry-put :
    (key k : String) (f : CircuitEntry) (circuits : Circuits)
    → entry k (put key f circuits) ≡ (if str_eq key k then f else entry k circuits)
unfolding entry
entry-put key k f circuits = rw (get-put key k f circuits) (ground arith)

-- A call of the breaker, with the time at which it is made.
pub data Call : Type 0 where
  acquires : ℕ → String → Call
  succeeds : String → Call
  fails : ℕ → String → Call

record IsProbingEntry (e : CircuitEntry) : Type 0 where
  half : e.state ≡ half_open
  active : e.probe_active ≡ true

keeps_probe :
    (cooldown_ms now : ℕ) (e : CircuitEntry)
    → IsProbingEntry e
    → IsProbingEntry (acquire_entry cooldown_ms now e e.state).1
keeps_probe cooldown_ms now e p = record {
  half = ground (arith, p.half, p.active);
  active = ground (arith, p.half, p.active);
}

refuses_probe :
    (cooldown_ms now : ℕ) (e : CircuitEntry)
    → IsProbingEntry e
    → (acquire_entry cooldown_ms now e e.state).0 ≡ refused
refuses_probe cooldown_ms now e p = ground (arith, p.half, p.active)

starts_probe :
    (cooldown_ms now : ℕ) (e : CircuitEntry)
    → (acquire_entry cooldown_ms now e e.state).0 ≡ probing
    → IsProbingEntry (acquire_entry cooldown_ms now e e.state).1
starts_probe cooldown_ms now e h = record { half = ground arith; active = ground arith }

module _ (threshold cooldown_ms : ℕ) where
  unfoldable pub perform : Call → Circuits → Circuits
  perform (acquires now key) circuits = (acquire cooldown_ms now key circuits).1
  perform (succeeds key) circuits = (succeeded key circuits).1
  perform (fails now key) circuits = (failed threshold now key circuits).1

  unfoldable pub run : List Call → Circuits → Circuits
  unfolding perform
  run [] circuits = circuits
  run (c ∷ cs) circuits = run cs (perform c circuits)

  pub record IsSoundBreaker (circuits : Circuits) : Type 0 where
    pub sound : (key : String) → IsSoundEntry threshold (entry key circuits)

  put-IsSoundBreaker :
      (key : String) (f : CircuitEntry) (circuits : Circuits)
      → IsSoundBreaker circuits
      → IsSoundEntry threshold f
      → IsSoundBreaker (put key f circuits)
  put-IsSoundBreaker key f circuits i h = record {
    sound = λ k. rw (entry-put key k f circuits) (either (str_eq key k) h (i.sound k));
  }
    where
      either :
          (b : Bool) {e : CircuitEntry}
          → IsSoundEntry threshold f
          → IsSoundEntry threshold e
          → IsSoundEntry threshold (if b then f else e)
      either true x y = x
      either false x y = y

  perform-IsSoundBreaker :
      (c : Call) (circuits : Circuits)
      → 1 ≤ threshold
      → IsSoundBreaker circuits
      → IsSoundBreaker (perform c circuits)
  unfolding perform acquire succeeded failed
  perform-IsSoundBreaker (acquires now key) circuits t i =
      put-IsSoundBreaker key _ circuits i
        (acquire-IsSoundEntry threshold cooldown_ms now (entry key circuits) (i.sound key))
  perform-IsSoundBreaker (succeeds key) circuits t i =
      put-IsSoundBreaker key _ circuits i (success-IsSoundEntry threshold (entry key circuits) t)
  perform-IsSoundBreaker (fails now key) circuits t i =
      put-IsSoundBreaker key _ circuits i
        (fail-IsSoundEntry threshold now (entry key circuits) (i.sound key))

  run_sound :
      (cs : List Call) (circuits : Circuits)
      → 1 ≤ threshold
      → IsSoundBreaker circuits
      → IsSoundBreaker (run cs circuits)
  unfolding run
  run_sound [] circuits t i = i
  run_sound (c ∷ cs) circuits t i =
      run_sound cs (perform c circuits) t (perform-IsSoundBreaker c circuits t i)

  -- In any history of calls of a breaker with a positive threshold, a circuit is closed only while
  -- it has counted fewer failures than the threshold, has counted at least that many otherwise, and has a
  -- probe under way exactly while it is half open.
  pub run-IsSoundBreaker : (cs : List Call) → 1 ≤ threshold → IsSoundBreaker (run cs [])
  run-IsSoundBreaker cs t =
      run_sound cs [] t (record { sound = λ key. unfold entry get in initial })
    where
      initial : IsSoundEntry threshold new_entry
      initial = record { below = λ h. t; reached = λ h. absurd (h refl); probed = ground arith }

  -- A sound circuit lets a call through exactly when it is closed, or open for at least its
  -- cooldown; while it is half open, or cooling down, it lets none through.
  pub acquire_iff :
      (now : ℕ) (key : String) (circuits : Circuits)
      → IsSoundBreaker circuits
      → ((acquire cooldown_ms now key circuits).0 ≢ refused) ↔ (
          ((entry key circuits).state ≡ closed)
          ⊎ (((entry key circuits).state ≡ opened)
              × ((entry key circuits).opened_at + cooldown_ms ≤ now)))
  unfolding acquire
  acquire_iff now key circuits i = ground (arith, (i.sound key).probed)

  -- A call that reports no outcome for the key.
  abbrev pub IsSilent : String → Call → Type 0
  IsSilent key (acquires now k) = Unit
  IsSilent key (succeeds k) = str_eq k key ≡ false
  IsSilent key (fails now k) = str_eq k key ≡ false

  abbrev IsProbing : String → Circuits → Type 0
  IsProbing key circuits = IsProbingEntry (entry key circuits)

  put-IsProbing :
      (key k : String) (f : CircuitEntry) (circuits : Circuits)
      → (k ≡ key → IsProbingEntry f)
      → IsProbing key circuits
      → IsProbing key (put k f circuits)
  put-IsProbing key k f circuits h p = elim (Bool-cases (str_eq k key)) [
    | inl here ↦ rw (entry-put k key f circuits, here) (h ((eq_iff k key).0 here))
    | inr there ↦ rw (entry-put k key f circuits, there) p
  ]

  other : (key k : String) {f : CircuitEntry} → str_eq k key ≡ false → k ≡ key → IsProbingEntry f
  other key k q e = absurd (ground (arith, eq_iff k key))

  perform-IsProbing :
      (key : String) (c : Call) (circuits : Circuits)
      → IsSilent key c
      → IsProbing key circuits
      → IsProbing key (perform c circuits)
  unfolding perform acquire succeeded failed
  perform-IsProbing key (acquires now k) circuits q p =
      put-IsProbing key k _ circuits
        (λ e.
          keeps_probe cooldown_ms now (entry k circuits)
            (subst (λ x. IsProbing x circuits) (sym e) p))
        p
  perform-IsProbing key (succeeds k) circuits q p = put-IsProbing key k _ circuits (other key k q) p
  perform-IsProbing key (fails now k) circuits q p =
      put-IsProbing key k _ circuits (other key k q) p

  run-IsProbing :
      (key : String) (cs : List Call) (circuits : Circuits)
      → All (IsSilent key) cs
      → IsProbing key circuits
      → IsProbing key (run cs circuits)
  unfolding run
  run-IsProbing key [] circuits q p = p
  run-IsProbing key (c ∷ cs) circuits q p =
      run-IsProbing key cs (perform c circuits) q.1 (perform-IsProbing key c circuits q.0 p)

  -- Once a half-open circuit has let its probe through, it refuses every further call until an
  -- outcome is reported for its key, whatever happens to other keys.
  pub acquire-run-acquire :
      (key : String) (now later : ℕ) (cs : List Call) (circuits : Circuits)
      → (acquire cooldown_ms now key circuits).0 ≡ probing
      → All (IsSilent key) cs
      → (acquire cooldown_ms later key (run cs (perform (acquires now key) circuits))).0 ≡ refused
  unfolding perform acquire
  acquire-run-acquire key now later cs circuits h q =
      refuses (run cs (perform (acquires now key) circuits))
        (run-IsProbing key cs (perform (acquires now key) circuits) q probes)
    where
      refuses :
          (circuits : Circuits)
          → IsProbing key circuits
          → (acquire cooldown_ms later key circuits).0 ≡ refused
      refuses circuits p = refuses_probe cooldown_ms later (entry key circuits) p

      probes : IsProbing key (perform (acquires now key) circuits)
      probes =
          rw
            (
              entry-put key key
                  (acquire_entry cooldown_ms now (entry key circuits) (entry key circuits).state).1
                  circuits,
              eq_refl,
            )
            (starts_probe cooldown_ms now (entry key circuits) h)
