-- ===== src/Problem/Num.antt =====
-- The coefficients, taken as exact signed numbers: the difference of two native numbers. Two of them
-- are the same number when the differences are.
use qcg_task.Prelude.{ℕ, ◌+◌, ◌*◌, ◌≡◌, Bool, true, false, arith, equal_ℕ}

pub record Num : Type 0 where
  pub plus : ℕ
  pub minus : ℕ

abbrev pub num : ℕ → Num
num n = record { plus = n; minus = 0 }

infix 50 ◌≈◌
abbrev pub ◌≈◌ : Num → Num → Type 0
a ≈ b = a.plus + b.minus ≡ b.plus + a.minus

infixl 65 ◌⊕◌
abbrev pub ◌⊕◌ : Num → Num → Num
a ⊕ b = record { plus = a.plus + b.plus; minus = a.minus + b.minus }

infixl 70 ◌⊗◌
abbrev pub ◌⊗◌ : Num → Num → Num
a ⊗ b = record {
  plus = a.plus * b.plus + a.minus * b.minus;
  minus = a.plus * b.minus + a.minus * b.plus;
}

abbrev pub negated : Num → Num
negated a = record { plus = a.minus; minus = a.plus }

-- `coeff == 0`
abbrev pub is_zero : Num → Bool
is_zero a = equal_ℕ a.plus a.minus

-- `c * x` for a binary `x`
abbrev pub times : Num → Bool → Num
times c true = c
times c false = num 0

-- The square of a sum.
pub square_sum :
    (w a b s : Num)
    → w ⊗ (a ⊕ s ⊕ negated b) ⊗ (a ⊕ s ⊕ negated b)
      ≈ w ⊗ (a ⊗ a ⊕ negated (num 2 ⊗ b ⊗ a))
        ⊕ w ⊗ num 2 ⊗ a ⊗ s
        ⊕ w ⊗ (s ⊕ negated b) ⊗ (s ⊕ negated b)
square_sum w a b s = omega arith
