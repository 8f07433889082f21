-- ===== src/Problem/Total.antt =====
-- The energy of the translated matrix and the value of the problem.
use qcg_task.Prelude.{
  String, ◌≡◌, refl, Bool, true, List, [], ◌∷◌, ◌==◌, arith, Bool-cases, inl, inr, ok,
}
use qcg_task.Problem.Num.{Num, ◌≈◌, ◌⊕◌, ◌⊗◌, times}
use qcg_task.Problem.Compiler.{PenaltyKey, single, pair, tuple, PenaltyFunction, CompiledProblem}
use qcg_task.Problem.Translator.{
  Translator, new_translator, add_qubo_term, multiplier, map_linear, map_quadratic, map_constraints,
  map_penalty_term, map_penalty, map_penalties, all_binary, translate,
}
use qcg_task.Problem.Terms.{energy, value, bits, value-add_qubo_term}
use qcg_task.Problem.Sums.{add_up, chain_one, total}
use qcg_task.Problem.Energy.{
  linear_value, objective_value, constraints_value, penalty_term_value, penalty_value,
  penalties_value, bits-self, value-map_linear, value-map_quadratic, value-map_constraints,
}

module _ (x : String → Bool) where
  value-map_penalty_term :
      (k : PenaltyKey) (c : Num) (t : Translator)
      → value x (map_penalty_term k c t) ≈ value x t ⊕ penalty_term_value x k c
  value-map_penalty_term (single v) c t = elim (Bool-cases (v == "offset")) [
    | inl offset ↦ rw offset (omega arith)
    | inr name ↦ rw name (
        chain_one (value x (add_qubo_term v v c t)) (value x t) (times c (bits x v v))
          (times c (x v)) (value-add_qubo_term x v v c t) (bits-self x v c))
  ]
  value-map_penalty_term (pair v1 v2) c t = value-add_qubo_term x v1 v2 c t
  value-map_penalty_term (tuple names) c t = omega arith

  value-map_penalty :
      (weight : Num) (terms : List (PenaltyKey × Num)) (t : Translator)
      → value x (map_penalty weight terms t) ≈ value x t ⊕ penalty_value x weight terms
  unfolding map_penalty
  value-map_penalty weight [] t = omega arith
  value-map_penalty weight ((k, c) ∷ rest) t =
      let t' = map_penalty_term k (c ⊗ weight) t in
      let here : Num = penalty_term_value x k (c ⊗ weight) in
      add_up (value x (map_penalty weight rest t')) (value x t') (value x t) here
        (penalty_value x weight rest) (here ⊕ penalty_value x weight rest)
        (value-map_penalty_term k (c ⊗ weight) t) (value-map_penalty weight rest t') refl

  value-map_penalties :
      (ps : List PenaltyFunction) (t : Translator)
      → value x (map_penalties ps t) ≈ value x t ⊕ penalties_value x ps
  unfolding map_penalties
  value-map_penalties [] t = omega arith
  value-map_penalties (p ∷ rest) t =
      let t' = map_penalty p.weight p.terms t in
      let here : Num = penalty_value x p.weight p.terms in
      add_up (value x (map_penalties rest t')) (value x t') (value x t) here
        (penalties_value x rest) (here ⊕ penalties_value x rest)
        (value-map_penalty p.weight p.terms t) (value-map_penalties rest t') refl

  -- A problem whose variables are all binary is translated, and for every assignment the energy of the
  -- matrix and the offset are together the objective, negated for a maximum, the weighted square of
  -- the residual of each equation, and the penalties. Inequalities add nothing.
  pub translate-energy :
      (w : Num) (p : CompiledProblem)
      → all_binary p.variables ≡ true
      → (t : Translator) × (translate w p new_translator ≡ ok t)
        × (energy x t.qubo_matrix ⊕ t.offset
            ≈ objective_value x p.objective
              ⊕ constraints_value x w p.constraints
              ⊕ penalties_value x p.penalties)
  unfolding translate energy
  translate-energy w p binary =
      let m = multiplier p.objective.sense in
      let t1 = map_linear m p.objective.linear_terms new_translator in
      let t2 = map_quadratic m p.objective.quadratic_terms t1 in
      let t3 = map_constraints w p.constraints t2 in
      let t4 = map_penalties p.penalties t3 in
      (
        t4,
        rw binary refl,
        total (value x t4) (value x t3) (value x t2) (value x t1) (value x new_translator)
            (linear_value x p.objective.linear_terms) (energy x p.objective.quadratic_terms) m
            (constraints_value x w p.constraints) (penalties_value x p.penalties) refl
            (value-map_linear x m p.objective.linear_terms new_translator)
            (value-map_quadratic x m p.objective.quadratic_terms t1)
            (value-map_constraints x w p.constraints t2) (value-map_penalties p.penalties t3),
      )
