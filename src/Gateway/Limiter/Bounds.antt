-- ===== src/Gateway/Limiter/Bounds.antt =====
-- How many calls the limiter lets through.
use qcg_task.Prelude.{
  ℕ, zero, suc, ◌+◌, ◌-◌, ◌*◌, ◌≤◌, ◌≡◌, true, List, [], ◌∷◌, arith, leb, Bool-cases, inl, inr,
}
use qcg_task.Gateway.Limiter.Defs.{
  RateLimiter, whole_token, new_limiter, refilled, allow, allow_all,
}

-- The clock does not go back: each reading is at least the one before.
abbrev pub IsMonotone : ℕ → List ℕ → Type 0
IsMonotone t [] = Unit
IsMonotone t (now ∷ times) = (t ≤ now) × IsMonotone now times

abbrev pub end_of : ℕ → List ℕ → ℕ
end_of t [] = t
end_of t (now ∷ times) = end_of now times

elapsed_parts : (now last rate : ℕ) → last ≤ now → (now - last) * rate + last * rate ≡ now * rate
elapsed_parts now last rate m = grind arith

end_of-last : (t : ℕ) (times : List ℕ) → IsMonotone t times → t ≤ end_of t times
end_of-last t [] m = omega arith
end_of-last t (now ∷ times) (m, ms) = omega (arith, end_of-last now times ms)

refilled_bound :
    (now : ℕ) (l : RateLimiter)
    → l.last ≤ now
    → refilled now l + l.last * l.per_minute ≤ l.tokens + now * l.per_minute
refilled_bound now l m = ground (arith, elapsed_parts now l.last l.per_minute m)

allow_all_cost :
    (times : List ℕ) (l : RateLimiter)
    → IsMonotone l.last times
    → (allow_all times l).0 * whole_token l + l.last * l.per_minute
      ≤ l.tokens + end_of l.last times * l.per_minute
unfolding allow_all allow
allow_all_cost [] l m = omega arith
allow_all_cost (now ∷ times) l (m, ms) = elim (Bool-cases (leb (whole_token l) (refilled now l))) [
  | inl enough ↦ rw enough (
      grind (
        arith,
        refilled_bound now l m,
        allow_all_cost times (record l { tokens = refilled now l - whole_token l; last = now }) ms,
      ))
  | inr short ↦ rw short (
      grind (
        arith,
        refilled_bound now l m,
        allow_all_cost times (record l { tokens = refilled now l; last = now }) ms,
      ))
]

-- While the clock does not go back, the tokens of the calls that are allowed, counted in parts, are
-- at most those of a full bucket and those refilled since the limiter was made.
pub allow_all-bound :
    (per_minute second start : ℕ) (times : List ℕ)
    → IsMonotone start times
    → (allow_all times (new_limiter per_minute second start)).0 * (60 * second)
      ≤ per_minute * (60 * second) + (end_of start times - start) * per_minute
allow_all-bound per_minute second start times m = grind (
  arith,
  allow_all_cost times (new_limiter per_minute second start) m,
  elapsed_parts (end_of start times) start per_minute (end_of-last start times m),
)

le-mul : (k w : ℕ) → 1 ≤ k → w ≤ k * w
le-mul zero w p = omega arith
le-mul (suc k) w p = omega arith

-- With a positive rate, a call is allowed when the time since the last one refills a whole token,
-- whatever came before.
pub waiting_allows :
    (now : ℕ) (l : RateLimiter)
    → 1 ≤ l.per_minute
    → whole_token l ≤ (now - l.last) * l.per_minute
    → (allow now l).0 ≡ true
unfolding allow
waiting_allows now l some_rate waited =
    ground (arith, le-mul l.per_minute (whole_token l) some_rate)
