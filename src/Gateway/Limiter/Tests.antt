-- ===== src/Gateway/Limiter/Tests.antt =====
-- A limiter of two calls a minute, with a clock of one unit a second.
use qcg_task.Prelude.{ℕ, ◌+◌, ◌-◌, ◌*◌, ◌≤◌, ◌≡◌, refl, List, [], ◌∷◌, arith}
use qcg_task.Gateway.Limiter.Defs.{RateLimiter, new_limiter, allow, allow_all}
use qcg_task.Gateway.Limiter.Bounds.{allow_all-bound}

abbrev times : List ℕ
times = 10 ∷ 11 ∷ 12 ∷ 40 ∷ 41 ∷ []

three_allowed : (allow_all times (new_limiter 2 1 10)).0 ≡ 3
unfolding allow_all allow
three_allowed = refl

allow_all-bound_example :
    (allow_all times (new_limiter 2 1 10)).0 * (60 * 1) ≤ 2 * (60 * 1) + (41 - 10) * 2
allow_all-bound_example =
    allow_all-bound 2 1 10 times
      (omega arith, (omega arith, (omega arith, (omega arith, (omega arith, tt)))))

abbrev drained : RateLimiter
drained = record { per_minute = 2; second = 1; tokens = 0; last = 12 }
