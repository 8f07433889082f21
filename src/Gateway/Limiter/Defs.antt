-- ===== src/Gateway/Limiter/Defs.antt =====
-- The monotonic clock counts in units of which there are `second` in a second, and tokens are counted
-- in parts of which a whole token has 60 * second: each unit of time refills `per_minute` parts.
use qcg_task.Prelude.{ℕ, suc, ◌+◌, ◌-◌, ◌*◌, Bool, true, false, List, [], ◌∷◌, if◌then◌else◌, leb}

pub record RateLimiter : Type 0 where
  pub per_minute : ℕ
  pub second : ℕ
  pub tokens : ℕ
  pub last : ℕ

abbrev pub whole_token : RateLimiter → ℕ
whole_token l = 60 * l.second

-- `_RateLimiter(per_minute)` at the clock reading `now`
abbrev pub new_limiter : ℕ → ℕ → ℕ → RateLimiter
new_limiter per_minute second now = record {
  per_minute = per_minute;
  second = second;
  tokens = per_minute * (60 * second);
  last = now;
}

abbrev pub smaller : ℕ → ℕ → ℕ
smaller a b = if leb a b then a else b

abbrev pub refilled : ℕ → RateLimiter → ℕ
refilled now l = smaller (l.per_minute * whole_token l) (l.tokens + (now - l.last) * l.per_minute)

-- `allow`, at the clock reading `now`
unfoldable pub allow : ℕ → RateLimiter → Bool × RateLimiter
allow now l =
    if leb (whole_token l) (refilled now l)
    then (true, record l { tokens = refilled now l - whole_token l; last = now })
    else (false, record l { tokens = refilled now l; last = now })

abbrev pub counted : Bool → ℕ → ℕ
counted true n = suc n
counted false n = n

-- The number of calls that are allowed, for calls at the given readings of the clock, and the limiter
-- after them.
unfoldable pub allow_all : List ℕ → RateLimiter → ℕ × RateLimiter
unfolding allow
allow_all [] l = (0, l)
allow_all (now ∷ times) l =
    let (allowed, l') = allow now l in let (n, l'') = allow_all times l' in (counted allowed n, l'')
