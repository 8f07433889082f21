-- ===== src/Transport/Outage.antt =====
-- The breaker over a history of calls.
use qcg_task.Prelude.{
  ℕ, suc, ◌≤◌, ◌≡◌, refl, ap, ◌⊎◌, inl, inr, ◌||◌, List, [], ◌∷◌, ltb, leb, arith, Bool-cases,
}
use qcg_task.Prelude.Int.{ℤ, ◌-ℤ◌, ltb_ℤ}
use qcg_task.Transport.Breaker.{
  CircuitBreaker, BreakerState, is_closed, is_open, half_open, new_breaker, record_failure,
  record_success, check, check_in, Call, failure_at, success, check_at, after_call, after_calls,
}

-- The failures since the last success, with `n` before the history.
abbrev pub recent_failures : ℕ → List Call → ℕ
recent_failures n [] = n
recent_failures n (failure_at t ∷ calls) = recent_failures (suc n) calls
recent_failures n (success ∷ calls) = recent_failures 0 calls
recent_failures n (check_at t ∷ calls) = recent_failures n calls

-- The breaker has counted `n` failures, and is closed below the threshold.
abbrev Tracks : ℕ → ℤ → ℕ → CircuitBreaker → Type 0
Tracks threshold timeout n b =
    (b.failure_threshold ≡ threshold)
    × (b.recovery_timeout ≡ timeout)
    × (b.failures ≡ n)
    × ((b.state ≡ is_closed) ⊎ (threshold ≤ n))

module _ (threshold : ℕ) (timeout : ℤ) where
  record_failure-Tracks :
      (now : ℤ) (n : ℕ) (b : CircuitBreaker)
      → Tracks threshold timeout n b
      → Tracks threshold timeout (suc n) (record_failure now b)
  unfolding record_failure
  record_failure-Tracks now n b (t, o, f, inr over) =
      elim (Bool-cases (leb b.failure_threshold (suc b.failures))) [
        | inl many ↦ rw many (t, o, ap suc f, inr (ground (arith, over)))
        | inr few ↦ rw few (t, o, ap suc f, inr (ground (arith, over)))
      ]
  record_failure-Tracks now n b (t, o, f, inl shut) =
      elim (Bool-cases (leb b.failure_threshold (suc b.failures))) [
        | inl many ↦ rw many (t, o, ap suc f, inr (ground (arith, many, t, f)))
        | inr few ↦ rw few (t, o, ap suc f, inl shut)
      ]

  record_success-Tracks :
      (n : ℕ) (b : CircuitBreaker)
      → Tracks threshold timeout n b
      → Tracks threshold timeout 0 (record_success b)
  unfolding record_success
  record_success-Tracks n b (t, o, f, p) = (t, o, refl, inl refl)

  check_in-Tracks :
      (state : BreakerState) (now : ℤ) (n : ℕ) (b : CircuitBreaker)
      → b.state ≡ state
      → Tracks threshold timeout n b
      → Tracks threshold timeout n (check_in state now b).1
  check_in-Tracks is_closed now n b e tracks = tracks
  check_in-Tracks half_open now n b e tracks = tracks
  check_in-Tracks is_open now n b e (t, o, f, inl shut) = absurd (cc (e, shut))
  check_in-Tracks is_open now n b e (t, o, f, inr many) =
      elim (Bool-cases (ltb_ℤ b.recovery_timeout (now -ℤ b.last_failure_time))) [
        | inl late ↦ rw late (t, o, f, inr many)
        | inr soon ↦ rw soon (t, o, f, inr many)
      ]

  check-Tracks :
      (now : ℤ) (n : ℕ) (b : CircuitBreaker)
      → Tracks threshold timeout n b
      → Tracks threshold timeout n (check now b).1
  unfolding check
  check-Tracks now n b tracks = check_in-Tracks b.state now n b refl tracks

  after_calls-Tracks :
      (calls : List Call) (n : ℕ) (b : CircuitBreaker)
      → Tracks threshold timeout n b
      → Tracks threshold timeout (recent_failures n calls) (after_calls calls b)
  unfolding after_calls after_call
  after_calls-Tracks [] n b tracks = tracks
  after_calls-Tracks (failure_at now ∷ calls) n b tracks =
      after_calls-Tracks calls (suc n) (record_failure now b) (record_failure-Tracks now n b tracks)
  after_calls-Tracks (success ∷ calls) n b tracks =
      after_calls-Tracks calls 0 (record_success b) (record_success-Tracks n b tracks)
  after_calls-Tracks (check_at now ∷ calls) n b tracks =
      after_calls-Tracks calls n (check now b).1 (check-Tracks now n b tracks)

  -- the check after a failure
  check-record_failure :
      (then now : ℤ) (n : ℕ) (b : CircuitBreaker)
      → Tracks threshold timeout n b
      → (check now (record_failure then b)).0
        ≡ (ltb (suc n) threshold || ltb_ℤ timeout (now -ℤ then))
  unfolding check record_failure
  check-record_failure then now n b (t, o, f, inl shut) =
      elim (Bool-cases (leb b.failure_threshold (suc b.failures))) [
        | inl many ↦ rw (many, o) (ground (arith, many, t, f))
        | inr few ↦ rw (few, shut) (ground (arith, few, t, f))
      ]
  check-record_failure then now n b (t, o, f, inr over) =
      elim (Bool-cases (leb b.failure_threshold (suc b.failures))) [
        | inl many ↦ rw (many, o) (ground (arith, over))
        | inr few ↦ absurd (ground (arith, few, over, t, f))
      ]

  -- After any history of calls and a further failure, a check passes exactly if the failures since
  -- the last success are fewer than the threshold, or more than the timeout has gone by since that
  -- last failure.
  pub check_after_failure :
      (calls : List Call) (then now : ℤ)
      → (check now (record_failure then (after_calls calls (new_breaker threshold timeout)))).0
        ≡ (ltb (suc (recent_failures 0 calls)) threshold || ltb_ℤ timeout (now -ℤ then))
  check_after_failure calls then now =
      check-record_failure then now (recent_failures 0 calls)
        (after_calls calls (new_breaker threshold timeout))
        (after_calls-Tracks calls 0 (new_breaker threshold timeout) (refl, refl, refl, inl refl))
