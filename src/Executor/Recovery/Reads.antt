-- ===== src/Executor/Recovery/Reads.antt =====
-- The loop of executeRead (packages/executor/src/recovery.ts).
use drive_guard.Prelude.{
  ℕ, zero, suc, ◌+◌, ◌≤◌, ◌<◌, ◌≡◌, refl, ◌↔◌, ◌⊎◌, inl, inr, Bool, true, false, List, [], ◌∷◌,
  length, subst, sym, ap, ◌∙◌, Bool-cases, arith,
}
use native.Mathlib.Decide.{ℕ_discrete}
use drive_guard.Exec.{Result, ok, err}
use drive_guard.Executor.{Thrown, FailureType, definite_failure}
use drive_guard.Executor.Recovery.{
  RecoveryReceipt, decide, is_retry, is_transient_read, recovery_failure_type, read_input,
  exhausted, delay_after, read_loop, execute_read,
}

module _ {A : Type 0} (max_attempts : ℕ) (delays : List ℕ) (operation : ℕ → Result Thrown A) where
  -- The call `n` failed in a way that a repetition may mend.
  pub record FailsTransiently (n : ℕ) : Type 0 where
    pub error : Thrown
    pub fails : operation n ≡ err error
    pub transient : is_transient_read (recovery_failure_type error) ≡ true

  -- The call `n` is the first one, from `start` on, that succeeds.
  pub record IsFirstSuccess (start n : ℕ) (a : A) : Type 0 where
    pub from : start ≤ n
    pub bounded : n ≤ max_attempts
    pub success : operation n ≡ ok a
    pub before : (k : ℕ) → start ≤ k → k < n → FailsTransiently k

  abbrev retries : Thrown → ℕ → Bool
  retries e attempt =
      is_retry
        (decide (read_input max_attempts delays operation (recovery_failure_type e) attempt)).action

  retries_iff :
      (e : Thrown) (attempt : ℕ)
      → (retries e attempt ≡ true)
        ↔ ((is_transient_read (recovery_failure_type e) ≡ true) × (attempt < max_attempts))
  unfolding decide
  retries_iff e attempt = ground arith

  abbrev loop : ℕ → ℕ → FailureType → ℕ → List ℕ → Result RecoveryReceipt A × ℕ × List ℕ
  loop = read_loop max_attempts delays operation

  loop_ok :
      (left attempt : ℕ) (last : FailureType) (calls : ℕ) (slept : List ℕ) (a : A)
      → operation attempt ≡ ok a
      → loop (suc left) attempt last calls slept ≡ (ok a, suc calls, slept)
  unfolding read_loop
  loop_ok left attempt last calls slept a e = rw (e, read_loop) refl

  loop_again :
      (left attempt : ℕ) (last : FailureType) (calls : ℕ) (slept : List ℕ) (x : Thrown)
      → operation attempt ≡ err x
      → retries x attempt ≡ true
      → loop (suc left) attempt last calls slept
        ≡ loop left
            (suc attempt)
            (recovery_failure_type x)
            (suc calls)
            (delay_after delays attempt ∷ slept)
  unfolding read_loop
  loop_again left attempt last calls slept x e r = rw (e, r, read_loop) refl

  loop_stop :
      (left attempt : ℕ) (last : FailureType) (calls : ℕ) (slept : List ℕ) (x : Thrown)
      → operation attempt ≡ err x
      → retries x attempt ≡ false
      → loop (suc left) attempt last calls slept
        ≡ (err (exhausted (recovery_failure_type x) attempt), suc calls, slept)
  unfolding read_loop
  loop_stop left attempt last calls slept x e r = rw (e, r, read_loop) refl

  Result-cases : (r : Result Thrown A) → ((a : A) × (r ≡ ok a)) ⊎ ((x : Thrown) × (r ≡ err x))
  Result-cases (ok a) = inl (a, refl)
  Result-cases (err x) = inr (x, refl)

  first_here : (n : ℕ) (a : A) → n ≤ max_attempts → operation n ≡ ok a → IsFirstSuccess n n a
  first_here n a l e = record {
    from = omega arith;
    bounded = l;
    success = e;
    before = λ k p q. absurd (omega arith);
  }

  first_later :
      (start n : ℕ) (a : A)
      → FailsTransiently start
      → IsFirstSuccess (suc start) n a
      → IsFirstSuccess start n a
  first_later start n a f s = record {
    from = omega (arith, s.from);
    bounded = s.bounded;
    success = s.success;
    before = λ k p q. elim (ℕ_discrete start k) [
      | yes e ↦ subst FailsTransiently e f
      | no ne ↦ s.before k (omega arith) q
    ];
  }

  ok_same : {a b : A} → ◌≡◌ {A = Result RecoveryReceipt A} (ok a) (ok b) → a ≡ b
  ok_same e = ground arith

  not_ok : {r : RecoveryReceipt} {a : A} → ◌≡◌ {A = Result RecoveryReceipt A} (err r) (ok a) → ⊥
  not_ok e = ground arith

  loop-IsFirstSuccess :
      (left attempt : ℕ) (last : FailureType) (calls : ℕ) (slept : List ℕ) (a : A)
      → attempt + left ≡ suc max_attempts
      → (loop left attempt last calls slept).0 ≡ ok a
      → (n : ℕ) × IsFirstSuccess attempt n a
  loop-IsFirstSuccess zero attempt last calls slept a e h =
      absurd (unfold read_loop in ground arith)
  loop-IsFirstSuccess (suc left) attempt last calls slept a e h =
      elim (Result-cases (operation attempt)) [
        | inl (b, o) ↦ (
          attempt,
          first_here attempt a (omega arith)
              (o ∙ ap ok (ok_same (rw (loop_ok left attempt last calls slept b o) at h))),
        )
        | inr (x, o) ↦ elim (Bool-cases (retries x attempt)) [
          | inl r ↦
              let (n, s) =
                loop-IsFirstSuccess left (suc attempt) (recovery_failure_type x) (suc calls)
                  (delay_after delays attempt ∷ slept) a (omega arith)
                  (rw (loop_again left attempt last calls slept x o r) at h) in
              (
                n,
                first_later attempt n a
                    (record { error = x; fails = o; transient = ((retries_iff x attempt).0 r).0 })
                    s,
              )
          | inr r ↦ absurd (not_ok (rw (loop_stop left attempt last calls slept x o r) at h))
        ]
      ]

  IsFirstSuccess-loop :
      (left attempt n : ℕ) (last : FailureType) (calls : ℕ) (slept : List ℕ) (a : A)
      → attempt + left ≡ suc max_attempts
      → IsFirstSuccess attempt n a
      → (loop left attempt last calls slept).0 ≡ ok a
  IsFirstSuccess-loop zero attempt n last calls slept a e s =
      absurd (omega (arith, s.from, s.bounded))
  IsFirstSuccess-loop (suc left) attempt n last calls slept a e s = elim (ℕ_discrete attempt n) [
    | yes here ↦
        rw
          (loop_ok left attempt last calls slept a
            (subst (λ k. operation k ≡ ok a) (sym here) s.success))
          refl
    | no later ↦
        let f = s.before attempt (omega arith) (omega (arith, s.from)) in
        rw
          (loop_again left attempt last calls slept f.error f.fails
            ((retries_iff f.error attempt).1 (f.transient, omega (arith, s.from, s.bounded))))
          (IsFirstSuccess-loop left (suc attempt) n (recovery_failure_type f.error) (suc calls)
            (delay_after delays attempt ∷ slept) a (omega arith)
            (record {
              from = omega (arith, s.from);
              bounded = s.bounded;
              success = s.success;
              before = λ k p q. s.before k (omega arith) q;
            }))
  ]

  -- `executeRead` returns a value exactly when some call of the operation, within the allowed number
  -- of attempts, returns it and every call before it failed transiently.
  pub execute_read_iff :
      (a : A)
      → ((execute_read max_attempts delays operation).0 ≡ ok a) ↔ ((n : ℕ) × IsFirstSuccess 1 n a)
  unfolding execute_read
  execute_read_iff a = (
    loop-IsFirstSuccess max_attempts 1 definite_failure 0 [] a (omega arith),
    λ (n, s). IsFirstSuccess-loop max_attempts 1 n definite_failure 0 [] a (omega arith) s,
  )

  -- What a result says of the calls and the sleeps: a value is that of the last call, and a receipt
  -- counts them.
  pub Accounts : Result RecoveryReceipt A → ℕ → List ℕ → Type 0
  Accounts (ok a) calls slept = operation calls ≡ ok a
  Accounts (err x) calls slept = (x.attempt_count ≡ calls) × (x.retry_count ≡ length slept)

  -- A run of `executeRead` that has ended.
  pub record IsAccounted (run : Result RecoveryReceipt A × ℕ × List ℕ) : Type 0 where
    pub bounded : run.1 ≤ max_attempts
    pub slept : run.1 ≡ length run.2 + 1
    pub accounts : Accounts run.0 run.1 run.2

  loop-IsAccounted :
      (left attempt : ℕ) (last : FailureType) (calls : ℕ) (slept : List ℕ)
      → attempt + left ≡ suc max_attempts
      → attempt ≤ max_attempts
      → calls + 1 ≡ attempt
      → length slept ≡ calls
      → IsAccounted (loop left attempt last calls slept)
  unfolding Accounts
  loop-IsAccounted zero attempt last calls slept e m c l = absurd (omega arith)
  loop-IsAccounted (suc left) attempt last calls slept e m c l =
      let now : suc calls ≡ attempt = omega arith in
      elim (Result-cases (operation attempt)) [
        | inl (b, o) ↦
            rw (loop_ok left attempt last calls slept b o) (record {
              bounded = omega arith;
              slept = omega arith;
              accounts = ap operation now ∙ o;
            })
        | inr (x, o) ↦ elim (Bool-cases (retries x attempt)) [
          | inl r ↦ rw (loop_again left attempt last calls slept x o r) (
              loop-IsAccounted left (suc attempt) (recovery_failure_type x) (suc calls)
                (delay_after delays attempt ∷ slept) (omega arith)
                (omega (arith, ((retries_iff x attempt).0 r).1)) (omega arith) (omega arith))
          | inr r ↦ rw (loop_stop left attempt last calls slept x o r) (record {
            bounded = omega arith;
            slept = omega arith;
            accounts = (omega arith, omega arith);
          })
        ]
      ]

  -- `executeRead`, where it is allowed an attempt, calls the operation no more often than it is
  -- allowed, and once more than it sleeps; a value that it returns is that of its last call, and the
  -- receipt that it throws counts the calls and the repetitions.
  pub execute_read-IsAccounted :
      1 ≤ max_attempts → IsAccounted (execute_read max_attempts delays operation)
  unfolding execute_read
  execute_read-IsAccounted h =
      loop-IsAccounted max_attempts 1 definite_failure 0 [] (omega arith) h (omega arith)
        (omega arith)
