-- ===== src/Executor/Circuit.antt =====
-- packages/executor/src/circuit-breaker.ts: CircuitBreaker. The entry of a key that was never used
-- is made when it is read; the clock is an argument.
pub mod Probes
use drive_guard.Prelude.{
  ℕ, suc, ◌+◌, String, Bool, true, false, Option, none, some, leb, ltb, if◌then◌else◌,
}
use drive_guard.Prelude.Dict.{Dict, get, put}

pub data CircuitState : Type 0 where
  closed opened half_open : CircuitState

pub record CircuitEntry : Type 0 where
  pub state : CircuitState
  pub failures : ℕ
  pub opened_at : ℕ
  pub probe_active : Bool

-- CircuitPermit, with whether it is a probe
pub data CircuitPermit : Type 0 where
  refused allowed probing : CircuitPermit

-- previous and current
abbrev pub Change : Type 0
Change = CircuitState × CircuitState

abbrev pub Circuits : Type 0
Circuits = Dict CircuitEntry

abbrev pub new_entry : CircuitEntry
new_entry = record { state = closed; failures = 0; opened_at = 0; probe_active = false }

abbrev entry_or_new : Option CircuitEntry → CircuitEntry
entry_or_new none = new_entry
entry_or_new (some e) = e

-- #entry
unfoldable pub entry : String → Circuits → CircuitEntry
entry key circuits = entry_or_new (get key circuits)

abbrev probe : CircuitEntry → CircuitPermit × CircuitEntry
probe e =
    if e.probe_active
    then (refused, e)
    else (probing, record e { state = half_open; probe_active = true })

abbrev pub acquire_entry : ℕ → ℕ → CircuitEntry → CircuitState → CircuitPermit × CircuitEntry
acquire_entry cooldown_ms now e opened =
    if ltb now (e.opened_at + cooldown_ms)
    then (refused, e)
    else probe (record e { state = half_open; probe_active = false })
acquire_entry cooldown_ms now e half_open = probe e
acquire_entry cooldown_ms now e closed = (allowed, e)

-- acquire
unfoldable pub acquire : ℕ → ℕ → String → Circuits → CircuitPermit × Circuits
unfolding entry
acquire cooldown_ms now key circuits =
    let e = entry key circuits in
    let (permit, f) = acquire_entry cooldown_ms now e e.state in (permit, put key f circuits)

abbrev pub success_entry : CircuitEntry → CircuitEntry
success_entry e = record e { state = closed; failures = 0; probe_active = false }

-- succeeded
unfoldable pub succeeded : String → Circuits → Change × Circuits
unfolding entry
succeeded key circuits =
    let e = entry key circuits in ((e.state, closed), put key (success_entry e) circuits)

abbrev is_half_open : CircuitState → Bool
is_half_open half_open = true
is_half_open _ = false

abbrev pub fail_entry : ℕ → ℕ → CircuitEntry → CircuitEntry
fail_entry threshold now e =
    if is_half_open e.state
    then record e { state = opened; opened_at = now; probe_active = false }
    else if leb threshold (suc e.failures)
    then record e {
      state = opened;
      failures = suc e.failures;
      opened_at = now;
      probe_active = false;
    }
    else record e { failures = suc e.failures; probe_active = false }

-- failed
unfoldable pub failed : ℕ → ℕ → String → Circuits → Change × Circuits
unfolding entry
failed threshold now key circuits =
    let e = entry key circuits in
    let f = fail_entry threshold now e in ((e.state, f.state), put key f circuits)
