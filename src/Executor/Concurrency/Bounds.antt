-- ===== src/Executor/Concurrency/Bounds.antt =====
-- ExecutionConcurrencyController (packages/executor/src/concurrency.ts) keeps to its limits.
use drive_guard.Prelude.{
  ℕ, zero, suc, ◌-◌, ◌≤◌, ◌≡◌, inl, inr, String, Bool, true, false, ◌&&◌, Bool-cases, Option, none,
  some, List, [], ◌∷◌, ◌++◌, length, length-append, ap, subst, &&-true, arith, ◌==◌, leb,
}
use drive_guard.Prelude.Sets.{includes, is_unique}
use drive_guard.Executor.Concurrency.{
  Limits, Claim, Admission, Controller, without, can_start, can_start_claim, start, pick, resume,
  drain_loop, drain, acquire, take_out, timed_out, time_out, vacated, released, release, is_empty,
}
use drive_guard.Executor.Concurrency.Claims.{
  vehicles_of, reads_in, Splits, Found, first-Found, Splits-length, reads-Splits, length-vehicles,
  vehicles-read, without-vehicles, unique-without,
}

module _ (limits : Limits) where
  -- The counters are those of the permits that are held, side effects are held for different
  -- vehicles, and the limits are kept.
  pub record IsSoundController (s : Controller) : Type 0 where
    pub reads : s.read_active ≡ reads_in s.held
    pub writes : s.write_active ≡ length s.active_vehicles
    pub vehicles : s.active_vehicles ≡ vehicles_of s.held
    pub distinct : is_unique s.active_vehicles ≡ true
    pub read_bound : s.read_active ≤ limits.max_read_concurrency
    pub write_bound : s.write_active ≤ limits.max_write_concurrency
    pub queue_bound : length s.queue ≤ limits.max_queue

  start-IsSoundController :
      (c : Claim) (s : Controller)
      → can_start_claim limits s c ≡ true
      → IsSoundController s
      → IsSoundController (start c s)
  unfolding start can_start is_unique includes
  start-IsSoundController c s t i = elim (Bool-cases c.side_effect) [
    | inl w ↦ record {
      reads = ground (arith, w, i.reads);
      writes = ground (arith, w, i.writes);
      vehicles = ground (arith, w, i.vehicles);
      distinct = ground (arith, w, t, i.distinct);
      read_bound = ground (arith, w, i.read_bound);
      write_bound = ground (arith, w, t, i.write_bound);
      queue_bound = ground (arith, w, i.queue_bound);
    }
    | inr r ↦ record {
      reads = ground (arith, r, i.reads);
      writes = ground (arith, r, i.writes);
      vehicles = ground (arith, r, i.vehicles);
      distinct = ground (arith, r, i.distinct);
      read_bound = ground (arith, r, t, i.read_bound);
      write_bound = ground (arith, r, i.write_bound);
      queue_bound = ground (arith, r, i.queue_bound);
    }
  ]

  requeued-IsSoundController :
      (s : Controller) (queue : List Claim)
      → length queue ≤ limits.max_queue
      → IsSoundController s
      → IsSoundController (record s { queue = queue })
  requeued-IsSoundController s queue l i = record {
    reads = i.reads;
    writes = i.writes;
    vehicles = i.vehicles;
    distinct = i.distinct;
    read_bound = i.read_bound;
    write_bound = i.write_bound;
    queue_bound = l;
  }

  resume-IsSoundController :
      (go : Controller → Controller) (s : Controller) (o : Option (Claim × List Claim))
      → ((t : Controller) → IsSoundController t → IsSoundController (go t))
      → Found (can_start_claim limits s) s.queue o
      → IsSoundController s
      → IsSoundController (resume limits go o s)
  unfolding can_start
  resume-IsSoundController go s none h f i = i
  resume-IsSoundController go s (some (c, rest)) h f i = h (start c (record s { queue = rest })) (
      start-IsSoundController c (record s { queue = rest }) f.1
        (requeued-IsSoundController s rest (omega (arith, Splits-length f.0, i.queue_bound)) i))

  drain_loop-IsSoundController :
      (fuel : ℕ) (s : Controller)
      → IsSoundController s
      → IsSoundController (drain_loop limits fuel s)
  unfolding drain_loop pick
  drain_loop-IsSoundController zero s i = i
  drain_loop-IsSoundController (suc fuel) s i =
      resume-IsSoundController (drain_loop limits fuel) s (pick limits s)
        (drain_loop-IsSoundController fuel) (first-Found (can_start_claim limits s) s.queue) i

  drain-IsSoundController :
      (s : Controller) → IsSoundController s → IsSoundController (drain limits s)
  unfolding drain
  drain-IsSoundController s = drain_loop-IsSoundController (length s.queue) s

  vacated-IsSoundController :
      (c : Claim) (rest : List Claim) (s : Controller)
      → Splits c s.held rest
      → IsSoundController s
      → IsSoundController (vacated c rest s)
  vacated-IsSoundController c rest s h i = elim (Bool-cases c.side_effect) [
    | inl w ↦
        let v : without c.vehicle_id s.active_vehicles ≡ vehicles_of rest =
          rw i.vehicles
            (without-vehicles h w (subst (λ vs. is_unique vs ≡ true) i.vehicles i.distinct)) in
        record {
          reads = ground (arith, w, i.reads, reads-Splits h);
          writes = rw w (rw v (omega (arith, freed w)));
          vehicles = ground (arith, w, v);
          distinct = ground (arith, w, unique-without c.vehicle_id s.active_vehicles i.distinct);
          read_bound = ground (arith, w, i.read_bound);
          write_bound = ground (arith, w, i.write_bound);
          queue_bound = ground (arith, w, i.queue_bound);
        }
    | inr r ↦ record {
      reads = ground (arith, r, i.reads, reads-Splits h);
      writes = ground (arith, r, i.writes);
      vehicles = ground (arith, r, i.vehicles, vehicles-read h r);
      distinct = ground (arith, r, i.distinct);
      read_bound = ground (arith, r, i.read_bound);
      write_bound = ground (arith, r, i.write_bound);
      queue_bound = ground (arith, r, i.queue_bound);
    }
  ]
    where
      freed : c.side_effect ≡ true → s.write_active - 1 ≡ length (vehicles_of rest)
      freed w = ground (arith, w, i.writes, ap length i.vehicles, length-vehicles h)

  answered-IsSoundController :
      (s : Controller) (queue : List Claim) (rejected next : ℕ) (answers : List (ℕ × Admission))
      → length queue ≤ limits.max_queue
      → IsSoundController s
      → IsSoundController
          (record s { queue = queue; rejected = rejected; next = next; answers = answers })
  answered-IsSoundController s queue rejected next answers l i = record {
    reads = i.reads;
    writes = i.writes;
    vehicles = i.vehicles;
    distinct = i.distinct;
    read_bound = i.read_bound;
    write_bound = i.write_bound;
    queue_bound = l;
  }

  released-IsSoundController :
      (p : Claim → Bool) (s : Controller) (o : Option (Claim × List Claim))
      → Found p s.held o
      → IsSoundController s
      → IsSoundController (released limits o s)
  released-IsSoundController p s none f i = i
  released-IsSoundController p s (some (c, rest)) f i =
      drain-IsSoundController (vacated c rest s) (vacated-IsSoundController c rest s f.0 i)

  pub release-IsSoundController :
      (number : ℕ) (s : Controller)
      → IsSoundController s
      → IsSoundController (release limits number s)
  unfolding release take_out
  release-IsSoundController number s i =
      released-IsSoundController (λ c. c.number == number) s (take_out number s.held)
        (first-Found (λ c. c.number == number) s.held) i

  timed_out-IsSoundController :
      (number : ℕ) (p : Claim → Bool) (s : Controller) (o : Option (Claim × List Claim))
      → Found p s.queue o
      → IsSoundController s
      → IsSoundController (timed_out limits number o s)
  timed_out-IsSoundController number p s none f i = i
  timed_out-IsSoundController number p s (some (c, rest)) f i =
      drain-IsSoundController _ (
        answered-IsSoundController s rest _ _ _ (omega (arith, Splits-length f.0, i.queue_bound)) i)

  pub time_out-IsSoundController :
      (number : ℕ) (s : Controller)
      → IsSoundController s
      → IsSoundController (time_out limits number s)
  unfolding time_out take_out
  time_out-IsSoundController number s i =
      timed_out-IsSoundController number (λ c. c.number == number) s (take_out number s.queue)
        (first-Found (λ c. c.number == number) s.queue) i

  room_for :
      (queue : List Claim) (c : Claim)
      → leb limits.max_queue (length queue) ≡ false
      → length (queue ++ c ∷ []) ≤ limits.max_queue
  room_for queue c h = rw (length-append queue (c ∷ [])) (ground arith)

  pub acquire-IsSoundController :
      (side_effect : Bool) (vehicle_id : String) (s : Controller)
      → IsSoundController s
      → IsSoundController (acquire limits side_effect vehicle_id s)
  unfolding acquire can_start
  acquire-IsSoundController side_effect vehicle_id s i =
      elim (Bool-cases (is_empty s.queue && can_start limits s side_effect vehicle_id)) [
        | inl t ↦ rw t (
            start-IsSoundController _ _ (&&-true _ _ t).1 (
              answered-IsSoundController s s.queue s.rejected (suc s.next) s.answers i.queue_bound
                i))
        | inr f ↦ rw f (elim (Bool-cases (leb limits.max_queue (length s.queue))) [
          | inl full ↦ rw full (answered-IsSoundController s s.queue _ _ _ i.queue_bound i)
          | inr room ↦ rw room (
              drain-IsSoundController _
                (answered-IsSoundController s _ s.rejected _ s.answers (room_for s.queue _ room) i))
        ])
      ]
