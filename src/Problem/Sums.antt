-- ===== src/Problem/Sums.antt =====
-- Sums that are built up step by step.
use qcg_task.Prelude.{arith}
use qcg_task.Problem.Num.{Num, num, ◌≈◌, ◌⊕◌, ◌⊗◌}

-- Two steps that each add something.
pub chain : (r s t a b c : Num) → s ≈ t ⊕ a → a ≈ b → r ≈ s ⊕ c → r ≈ t ⊕ (b ⊕ c)
chain r s t a b c here same later = omega arith

pub add_up : (r s t a c d : Num) → s ≈ t ⊕ a → r ≈ s ⊕ c → a ⊕ c ≈ d → r ≈ t ⊕ d
add_up r s t a c d here later sum = omega arith

pub chain_one : (r t a b : Num) → r ≈ t ⊕ a → a ≈ b → r ≈ t ⊕ b
chain_one r t a b here same = omega arith

pub regroup :
    (l r ls rs bb sq sq' : Num)
    → ls ⊕ rs ⊕ bb ≈ sq
    → sq' ≈ l ⊕ r ⊕ sq
    → l ⊕ ls ⊕ (r ⊕ rs) ⊕ bb ≈ sq'
regroup l r ls rs bb sq sq' later step = omega arith

pub three_parts :
    (r s e o k l p sq : Num) → s ≈ e ⊕ (o ⊕ k) ⊕ l → r ≈ s ⊕ p → l ⊕ p ⊕ k ≈ sq → r ≈ e ⊕ o ⊕ sq
three_parts r s e o k l p sq linear pairs square = omega arith

pub total :
    (v4 v3 v2 v1 v0 l q m c p : Num)
    → v0 ≈ num 0
    → v1 ≈ v0 ⊕ l ⊗ m
    → v2 ≈ v1 ⊕ q ⊗ m
    → v3 ≈ v2 ⊕ c
    → v4 ≈ v3 ⊕ p
    → v4 ≈ (l ⊕ q) ⊗ m ⊕ c ⊕ p
total v4 v3 v2 v1 v0 l q m c p e0 e1 e2 e3 e4 = omega arith
