-- ===== src/Transport/Breaker.antt =====
-- CircuitBreaker: one record, and the time as an argument of the calls that read the clock. The lock
-- makes each call one step.
use qcg_task.Prelude.{ℕ, suc, Bool, true, false, List, [], ◌∷◌, if◌then◌else◌, leb}
use qcg_task.Prelude.Int.{ℤ, pos, ◌-ℤ◌, ltb_ℤ}

pub data BreakerState : Type 0 where
  is_closed : BreakerState
  is_open : BreakerState
  half_open : BreakerState

pub record CircuitBreaker : Type 0 where
  pub failure_threshold : ℕ
  pub recovery_timeout : ℤ
  pub failures : ℕ
  pub last_failure_time : ℤ
  pub state : BreakerState

abbrev pub new_breaker : ℕ → ℤ → CircuitBreaker
new_breaker failure_threshold recovery_timeout = record {
  failure_threshold = failure_threshold;
  recovery_timeout = recovery_timeout;
  failures = 0;
  last_failure_time = pos 0;
  state = is_closed;
}

unfoldable pub record_failure : ℤ → CircuitBreaker → CircuitBreaker
record_failure now b =
    let failed = record b { failures = suc b.failures; last_failure_time = now } in
    if leb b.failure_threshold (suc b.failures) then record failed { state = is_open } else failed

unfoldable pub record_success : CircuitBreaker → CircuitBreaker
record_success b = record b { failures = 0; state = is_closed }

-- The first component is `false` where CircuitBreakerOpenException is raised.
abbrev pub check_open : ℤ → CircuitBreaker → Bool × CircuitBreaker
check_open now b =
    if ltb_ℤ b.recovery_timeout (now -ℤ b.last_failure_time)
    then (true, record b { state = half_open })
    else (false, b)

abbrev pub check_in : BreakerState → ℤ → CircuitBreaker → Bool × CircuitBreaker
check_in is_open now b = check_open now b
check_in is_closed now b = (true, b)
check_in half_open now b = (true, b)

unfoldable pub check : ℤ → CircuitBreaker → Bool × CircuitBreaker
check now b = check_in b.state now b

-- A call of one of the three methods.
pub data Call : Type 0 where
  failure_at : ℤ → Call
  success : Call
  check_at : ℤ → Call

unfoldable pub after_call : Call → CircuitBreaker → CircuitBreaker
after_call (failure_at now) b = record_failure now b
after_call success b = record_success b
after_call (check_at now) b = (check now b).1

unfoldable pub after_calls : List Call → CircuitBreaker → CircuitBreaker
after_calls [] b = b
after_calls (call ∷ calls) b = after_calls calls (after_call call b)
