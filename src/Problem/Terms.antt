-- ===== src/Problem/Terms.antt =====
-- The energy of an assignment, and what one term adds to it.
use qcg_task.Prelude.{
  String, ◌≡◌, refl, Bool, true, false, ◌&&◌, [], ◌∷◌, eq_iff, arith, Bool-cases, inl, inr,
}
use qcg_task.Problem.Num.{Num, num, ◌≈◌, ◌⊕◌, is_zero, times}
use qcg_task.Problem.Compiler.{PairDict, same_pair, add_pair, sorted_pair}
use qcg_task.Problem.Translator.{Translator, add_qubo_term}

-- x^T Q x for the assignment of a bit to each name
unfoldable pub energy : (String → Bool) → PairDict → Num
energy x [] = num 0
energy x (((v1, v2), c) ∷ q) = times c (x v1 && x v2) ⊕ energy x q

abbrev pub value : (String → Bool) → Translator → Num
value x t = energy x t.qubo_matrix ⊕ t.offset

-- what a product of two bits is worth under a coefficient
abbrev pub bits : (String → Bool) → String → String → Bool
bits x v1 v2 = x v1 && x v2

same_pair-bits :
    (x : String → Bool) (u1 u2 v1 v2 : String)
    → same_pair (u1, u2) (v1, v2) ≡ true
    → bits x u1 u2 ≡ bits x v1 v2
same_pair-bits x u1 u2 v1 v2 e =
    let left : u1 ≡ v1 = (eq_iff u1 v1).0 (ground arith) in
    let right : u2 ≡ v2 = (eq_iff u2 v2).0 (ground arith) in rw (left, right) refl

times-⊕ : (c d : Num) (b : Bool) → times (c ⊕ d) b ≈ times c b ⊕ times d b
times-⊕ c d true = refl
times-⊕ c d false = refl

energy-add_pair :
    (x : String → Bool) (v1 v2 : String) (c : Num) (q : PairDict)
    → energy x (add_pair (v1, v2) c q) ≈ energy x q ⊕ times c (bits x v1 v2)
unfolding energy add_pair
energy-add_pair x v1 v2 c [] = omega arith
energy-add_pair x v1 v2 c (((u1, u2), d) ∷ q) = elim (Bool-cases (same_pair (u1, u2) (v1, v2))) [
  | inl same ↦
      let there : bits x u1 u2 ≡ bits x v1 v2 = same_pair-bits x u1 u2 v1 v2 same in
      let split : times (d ⊕ c) (bits x v1 v2) ≈ times d (bits x v1 v2) ⊕ times c (bits x v1 v2) =
        times-⊕ d c (bits x v1 v2) in
      rw (same, there) (omega arith)
  | inr other ↦
      let later : energy x (add_pair (v1, v2) c q) ≈ energy x q ⊕ times c (bits x v1 v2) =
        energy-add_pair x v1 v2 c q in
      rw other (omega arith)
]

&&-swap : (a b : Bool) → (a && b) ≡ (b && a)
&&-swap true true = refl
&&-swap true false = refl
&&-swap false true = refl
&&-swap false false = refl

-- The order of the names does not matter.
sorted_pair-bits :
    (x : String → Bool) (v1 v2 : String)
    → bits x (sorted_pair v1 v2).0 (sorted_pair v1 v2).1 ≡ bits x v1 v2
sorted_pair-bits x v1 v2 = ground (arith, &&-swap (x v1) (x v2))

times-zero : (c : Num) (b : Bool) → is_zero c ≡ true → times c b ≈ num 0
times-zero c true z = ground (arith, z)
times-zero c false z = refl

pub value-add_qubo_term :
    (x : String → Bool) (v1 v2 : String) (c : Num) (t : Translator)
    → value x (add_qubo_term v1 v2 c t) ≈ value x t ⊕ times c (bits x v1 v2)
unfolding add_qubo_term
value-add_qubo_term x v1 v2 c t = elim (Bool-cases (is_zero c)) [
  | inl none_added ↦
      let gone : times c (bits x v1 v2) ≈ num 0 = times-zero c (bits x v1 v2) none_added in
      rw none_added (omega arith)
  | inr new ↦
      let (u1, u2) = sorted_pair v1 v2 in
      let same : bits x u1 u2 ≡ bits x v1 v2 = sorted_pair-bits x v1 v2 in
      let added : energy x (add_pair (u1, u2) c t.qubo_matrix)
          ≈ energy x t.qubo_matrix ⊕ times c (bits x v1 v2) =
        rw⁻¹ same (energy-add_pair x u1 u2 c t.qubo_matrix) in
      rw new (omega arith)
]
