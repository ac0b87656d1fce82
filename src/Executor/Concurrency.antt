-- ===== src/Executor/Concurrency.antt =====
-- packages/executor/src/concurrency.ts: ExecutionConcurrencyController. Each call of acquire has a
-- number, which stands for its promise, its waiter with the timer, and its permit. `held` are the
-- permits that were given and not released, `answers` the promises that were resolved; both stand
-- for what the closures of the code hold. The observer is left out.
pub mod Claims
pub mod Bounds
pub mod Draining
use drive_guard.Prelude.{
  ℕ, zero, suc, ◌+◌, ◌-◌, String, Bool, true, false, not, ◌&&◌, Option, none, some, List, [], ◌∷◌,
  ◌++◌, length, ltb, leb, ◌==◌, str_eq, if◌then◌else◌,
}
use drive_guard.Prelude.Sets.{includes, keep}

-- ExecutionConcurrencyControllerOptions
pub record Limits : Type 0 where
  pub max_read_concurrency : ℕ
  pub max_write_concurrency : ℕ
  pub max_queue : ℕ

-- Who asks: a Waiter, and the closure of a permit.
pub record Claim : Type 0 where
  pub number : ℕ
  pub side_effect : Bool
  pub vehicle_id : String

-- ExecutionAdmission
pub data Admission : Type 0 where
  admitted queue_full queue_timeout : Admission

pub record Controller : Type 0 where
  pub read_active : ℕ
  pub write_active : ℕ
  pub active_vehicles : List String
  pub queue : List Claim
  pub rejected : ℕ
  pub held : List Claim
  pub answers : List (ℕ × Admission)
  pub next : ℕ

abbrev pub new_controller : Controller
new_controller = record {
  read_active = 0;
  write_active = 0;
  active_vehicles = [];
  queue = [];
  rejected = 0;
  held = [];
  answers = [];
  next = 0;
}

-- set.delete
unfoldable pub without : String → List String → List String
unfolding keep
without v xs = keep (λ x. not (str_eq x v)) xs

abbrev pub answer : ℕ → Admission → Controller → Controller
answer number admission s = record s { answers = (number, admission) ∷ s.answers }

-- set.add, of a value that is not there
abbrev pub occupied : Claim → Controller → Controller
occupied c s =
    if c.side_effect
    then record s {
      write_active = s.write_active + 1;
      active_vehicles = c.vehicle_id ∷ s.active_vehicles;
      held = c ∷ s.held;
    }
    else record s { read_active = s.read_active + 1; held = c ∷ s.held }

-- #start
unfoldable pub start : Claim → Controller → Controller
start c s = answer c.number admitted (occupied c s)

abbrev pub passed_over : Claim → Option (Claim × List Claim) → Option (Claim × List Claim)
passed_over c none = none
passed_over c (some (d, rest)) = some (d, c ∷ rest)

abbrev pub is_empty : List Claim → Bool
is_empty [] = true
is_empty (c ∷ cs) = false

-- The first claim that passes a test, and the list without it: findIndex and splice.
unfoldable pub first : (Claim → Bool) → List Claim → Option (Claim × List Claim)
first p [] = none
first p (c ∷ cs) = let later = passed_over c (first p cs) in if p c then some (c, cs) else later

-- The claim of a number, and the list without it.
unfoldable pub take_out : ℕ → List Claim → Option (Claim × List Claim)
unfolding first
take_out number cs = first (λ c. c.number == number) cs

abbrev pub vacated : Claim → List Claim → Controller → Controller
vacated c rest s =
    if c.side_effect
    then record s {
      write_active = s.write_active - 1;
      active_vehicles = without c.vehicle_id s.active_vehicles;
      held = rest;
    }
    else record s { read_active = s.read_active - 1; held = rest }

module _ (limits : Limits) where
  -- #canStart
  unfoldable pub can_start : Controller → Bool → String → Bool
  can_start s side_effect vehicle_id =
      if side_effect
      then ltb s.write_active limits.max_write_concurrency
        && not (includes s.active_vehicles vehicle_id)
      else ltb s.read_active limits.max_read_concurrency

  abbrev pub can_start_claim : Controller → Claim → Bool
  can_start_claim s c = can_start s c.side_effect c.vehicle_id

  -- The first waiter that can start, and the queue without it.
  unfoldable pub pick : Controller → Option (Claim × List Claim)
  unfolding can_start first
  pick s = first (can_start_claim s) s.queue

  abbrev pub resume :
      (Controller → Controller) → Option (Claim × List Claim) → Controller → Controller
  resume go none s = s
  resume go (some (c, rest)) s = go (start c (record s { queue = rest }))

  -- The loop of #drain, each round of which takes a waiter out of the queue.
  unfoldable pub drain_loop : ℕ → Controller → Controller
  unfolding pick start
  drain_loop zero s = s
  drain_loop (suc fuel) s = resume (drain_loop fuel) (pick s) s

  -- #drain
  unfoldable pub drain : Controller → Controller
  unfolding drain_loop
  drain s = drain_loop (length s.queue) s

  -- acquire
  unfoldable pub acquire : Bool → String → Controller → Controller
  unfolding can_start start drain
  acquire side_effect vehicle_id s =
      let c : Claim = record {
        number = s.next;
        side_effect = side_effect;
        vehicle_id = vehicle_id;
      } in
      let t = record s { next = suc s.next } in
      if is_empty s.queue && can_start s side_effect vehicle_id
      then start c t
      else if leb limits.max_queue (length s.queue)
      then answer s.next queue_full (record t { rejected = s.rejected + 1 })
      else drain (record t { queue = s.queue ++ c ∷ [] })

  abbrev pub timed_out : ℕ → Option (Claim × List Claim) → Controller → Controller
  timed_out number none s = s
  timed_out number (some (c, rest)) s =
      drain (answer number queue_timeout (record s { queue = rest; rejected = s.rejected + 1 }))

  -- The timer of a waiter.
  unfoldable pub time_out : ℕ → Controller → Controller
  unfolding take_out drain
  time_out number s = timed_out number (take_out number s.queue) s

  abbrev pub released : Option (Claim × List Claim) → Controller → Controller
  released none s = s
  released (some (c, rest)) s = drain (vacated c rest s)

  -- The `release` of a permit: only its first call counts.
  unfoldable pub release : ℕ → Controller → Controller
  unfolding take_out without drain
  release number s = released (take_out number s.held) s
