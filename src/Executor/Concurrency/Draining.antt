-- ===== src/Executor/Concurrency/Draining.antt =====
-- ExecutionConcurrencyController (packages/executor/src/concurrency.ts) in any history of calls: it
-- keeps to its limits, and lets nobody wait who could start.
use drive_guard.Prelude.{
  ℕ, zero, suc, ◌≤◌, ◌≡◌, refl, String, Bool, true, false, ◌&&◌, Bool-cases, inl, inr, &&-true,
  Option, none, some, List, [], ◌∷◌, length, All, ap, arith, leb,
}
use drive_guard.Prelude.Sets.{is_unique}
use drive_guard.Executor.Concurrency.{
  Limits, Claim, Controller, new_controller, can_start, can_start_claim, start, pick, resume,
  drain_loop, drain, acquire, take_out, timed_out, time_out, released, release, is_empty,
}
use drive_guard.Executor.Concurrency.Claims.{Found, first-Found, Splits-length}
use drive_guard.Executor.Concurrency.Bounds.{
  IsSoundController, acquire-IsSoundController, time_out-IsSoundController,
  release-IsSoundController,
}

-- A call of acquire, the timer of a waiter, and a call of release.
pub data Call : Type 0 where
  acquires : Bool → String → Call
  times_out releases : ℕ → Call

module _ (limits : Limits) where
  abbrev pub perform : Call → Controller → Controller
  perform (acquires side_effect vehicle_id) s = acquire limits side_effect vehicle_id s
  perform (times_out number) s = time_out limits number s
  perform (releases number) s = release limits number s

  pub run : List Call → Controller → Controller
  run [] s = s
  run (c ∷ cs) s = run cs (perform c s)

  -- No waiter could start.
  abbrev pub IsDrained : Controller → Type 0
  IsDrained s = All (λ c. can_start_claim limits s c ≡ false) s.queue

  resume-IsDrained :
      (go : Controller → Controller) (fuel : ℕ) (s : Controller) (o : Option (Claim × List Claim))
      → ((t : Controller) → length t.queue ≤ fuel → IsDrained (go t))
      → length s.queue ≤ suc fuel
      → Found (can_start_claim limits s) s.queue o
      → IsDrained (resume limits go o s)
  unfolding start
  resume-IsDrained go fuel s none h l f = f
  resume-IsDrained go fuel s (some (c, rest)) h l f =
      h (start c (record s { queue = rest })) (started c rest (omega (arith, Splits-length f.0)))
    where
      started :
          (c : Claim) (rest : List Claim)
          → length rest ≤ fuel
          → length (start c (record s { queue = rest })).queue ≤ fuel
      started c rest e = ground (arith, e)

  nothing_waits :
      (s : Controller) (queue : List Claim)
      → length queue ≤ 0
      → All (λ c. can_start_claim limits s c ≡ false) queue
  nothing_waits s [] h = tt
  nothing_waits s (c ∷ cs) h = absurd (omega arith)

  drain_loop-IsDrained :
      (fuel : ℕ) (s : Controller) → length s.queue ≤ fuel → IsDrained (drain_loop limits fuel s)
  unfolding drain_loop pick
  drain_loop-IsDrained zero s l = nothing_waits s s.queue l
  drain_loop-IsDrained (suc fuel) s l =
      resume-IsDrained (drain_loop limits fuel) fuel s (pick limits s) (drain_loop-IsDrained fuel) l
        (first-Found (can_start_claim limits s) s.queue)

  drain-IsDrained : (s : Controller) → IsDrained (drain limits s)
  unfolding drain
  drain-IsDrained s = drain_loop-IsDrained (length s.queue) s (omega arith)

  empty_waits : (s t : Controller) → is_empty s.queue ≡ true → t.queue ≡ s.queue → IsDrained t
  empty_waits s t e q = nothing_waits t t.queue (no_length t.queue (rw (ap is_empty q) e))
    where
      no_length : (queue : List Claim) → is_empty queue ≡ true → length queue ≤ 0
      no_length [] h = omega arith
      no_length (c ∷ cs) h = absurd (ground arith)

  started-queue : (c : Claim) (s : Controller) → (start c s).queue ≡ s.queue
  unfolding start
  started-queue c s = ground arith

  acquire-IsDrained :
      (side_effect : Bool) (vehicle_id : String) (s : Controller)
      → IsDrained s
      → IsDrained (acquire limits side_effect vehicle_id s)
  unfolding acquire can_start
  acquire-IsDrained side_effect vehicle_id s i =
      elim (Bool-cases (is_empty s.queue && can_start limits s side_effect vehicle_id)) [
        | inl t ↦ rw t (
            empty_waits s
              (start
                (record { number = s.next; side_effect = side_effect; vehicle_id = vehicle_id })
                (record s { next = suc s.next }))
              (&&-true _ _ t).0 (started-queue _ _))
        | inr f ↦ rw f (elim (Bool-cases (leb limits.max_queue (length s.queue))) [
          | inl full ↦ rw full i
          | inr room ↦ rw room (drain-IsDrained _)
        ])
      ]

  time_out-IsDrained :
      (number : ℕ) (s : Controller) → IsDrained s → IsDrained (time_out limits number s)
  unfolding time_out
  time_out-IsDrained number s i = go (take_out number s.queue)
    where
      go : (o : Option (Claim × List Claim)) → IsDrained (timed_out limits number o s)
      go none = i
      go (some (c, rest)) = drain-IsDrained _

  release-IsDrained :
      (number : ℕ) (s : Controller) → IsDrained s → IsDrained (release limits number s)
  unfolding release
  release-IsDrained number s i = go (take_out number s.held)
    where
      go : (o : Option (Claim × List Claim)) → IsDrained (released limits o s)
      go none = i
      go (some (c, rest)) = drain-IsDrained _

  perform-IsDrained : (c : Call) (s : Controller) → IsDrained s → IsDrained (perform c s)
  perform-IsDrained (acquires side_effect vehicle_id) s i =
      acquire-IsDrained side_effect vehicle_id s i
  perform-IsDrained (times_out number) s i = time_out-IsDrained number s i
  perform-IsDrained (releases number) s i = release-IsDrained number s i

  perform-IsSoundController :
      (c : Call) (s : Controller)
      → IsSoundController limits s
      → IsSoundController limits (perform c s)
  perform-IsSoundController (acquires side_effect vehicle_id) s i =
      acquire-IsSoundController limits side_effect vehicle_id s i
  perform-IsSoundController (times_out number) s i = time_out-IsSoundController limits number s i
  perform-IsSoundController (releases number) s i = release-IsSoundController limits number s i

  runs-IsSoundController :
      (cs : List Call) (s : Controller)
      → IsSoundController limits s
      → IsSoundController limits (run cs s)
  unfolding run
  runs-IsSoundController [] s i = i
  runs-IsSoundController (c ∷ cs) s i =
      runs-IsSoundController cs (perform c s) (perform-IsSoundController c s i)

  runs-IsDrained : (cs : List Call) (s : Controller) → IsDrained s → IsDrained (run cs s)
  unfolding run
  runs-IsDrained [] s i = i
  runs-IsDrained (c ∷ cs) s i = runs-IsDrained cs (perform c s) (perform-IsDrained c s i)

  -- In every history of a new controller, of calls of acquire, timers and calls of release, also
  -- repeated ones: its counters are the permits that are held, no two side effects are held for one
  -- vehicle, and the limits on reads, side effects and waiters are kept.
  pub run-IsSoundController :
      (calls : List Call) → IsSoundController limits (run calls new_controller)
  unfolding is_unique
  run-IsSoundController calls = runs-IsSoundController calls new_controller (record {
    reads = refl;
    writes = refl;
    vehicles = refl;
    distinct = refl;
    read_bound = omega arith;
    write_bound = omega arith;
    queue_bound = omega arith;
  })

  -- In every history of a new controller nobody waits who could start: whenever a call has been
  -- served, each waiter is a read while all reads are taken, or a side effect while all side effects
  -- are taken or its vehicle is busy.
  pub run-IsDrained : (calls : List Call) → IsDrained (run calls new_controller)
  run-IsDrained calls = runs-IsDrained calls new_controller tt
