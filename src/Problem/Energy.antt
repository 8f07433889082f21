-- ===== src/Problem/Energy.antt =====
-- The value of a problem, and what its objective and its constraints add to the matrix.
use qcg_task.Prelude.{
  String, refl, Bool, true, false, not, ◌&&◌, List, [], ◌∷◌, ◌==◌, arith, Bool-cases, inl, inr,
  if◌then◌else◌,
}
use qcg_task.Prelude.Dict.{Dict}
use qcg_task.Problem.Num.{Num, num, ◌≈◌, ◌⊕◌, ◌⊗◌, negated, times, square_sum}
use qcg_task.Problem.Compiler.{
  PairDict, Constraint, PenaltyKey, single, pair, tuple, PenaltyFunction, Objective,
}
use qcg_task.Problem.Translator.{
  Translator, add_qubo_term, add_offset, multiplier, map_linear, map_quadratic, constraint_linear,
  constraint_row, constraint_pairs, map_constraint, map_constraints,
}
use qcg_task.Problem.Sums.{chain, add_up, regroup, three_parts}
use qcg_task.Problem.Terms.{energy, value, bits, value-add_qubo_term}

module _ (x : String → Bool) where
  abbrev pub linear_value : Dict Num → Num
  linear_value [] = num 0
  linear_value ((v, a) ∷ d) = times a (x v) ⊕ linear_value d

  -- m * (linear terms + quadratic terms)
  abbrev pub objective_value : Objective → Num
  objective_value o =
      (linear_value o.linear_terms ⊕ energy x o.quadratic_terms) ⊗ multiplier o.sense

  -- how far the left side is from the right side
  abbrev pub residual : Dict Num → Num → Num
  residual terms rhs = linear_value terms ⊕ negated rhs

  -- w * residual ** 2 for an equation, and nothing for an inequality
  abbrev pub constraint_value : Num → Constraint → Num
  constraint_value w c =
      if not (c.sense == "==")
      then num 0
      else w ⊗ residual c.linear_terms c.rhs ⊗ residual c.linear_terms c.rhs

  abbrev pub constraints_value : Num → Dict Constraint → Num
  constraints_value w [] = num 0
  constraints_value w ((k, c) ∷ d) = constraint_value w c ⊕ constraints_value w d

  abbrev pub penalty_term_value : PenaltyKey → Num → Num
  penalty_term_value (single v) coeff = if not (v == "offset") then times coeff (x v) else coeff
  penalty_term_value (pair v1 v2) coeff = times coeff (x v1 && x v2)
  penalty_term_value (tuple _) coeff = num 0

  abbrev pub penalty_value : Num → List (PenaltyKey × Num) → Num
  penalty_value weight [] = num 0
  penalty_value weight ((k, coeff) ∷ rest) =
      penalty_term_value k (coeff ⊗ weight) ⊕ penalty_value weight rest

  abbrev pub penalties_value : List PenaltyFunction → Num
  penalties_value [] = num 0
  penalties_value (p ∷ rest) = penalty_value p.weight p.terms ⊕ penalties_value rest

  pub bits-self : (v : String) (c : Num) → times c (bits x v v) ≈ times c (x v)
  bits-self v c = elim (Bool-cases (x v)) [ inl on ↦ rw on refl | inr off ↦ rw off refl ]

  times-⊗ : (c m : Num) (b : Bool) → times (c ⊗ m) b ≈ times c b ⊗ m
  times-⊗ c m true = refl
  times-⊗ c m false = omega arith

  pub value-map_linear :
      (m : Num) (d : Dict Num) (t : Translator)
      → value x (map_linear m d t) ≈ value x t ⊕ linear_value d ⊗ m
  unfolding map_linear
  value-map_linear m [] t = omega arith
  value-map_linear m ((v, c) ∷ d) t =
      let t' = add_qubo_term v v (c ⊗ m) t in
      let here : value x t' ≈ value x t ⊕ times (c ⊗ m) (bits x v v) =
        value-add_qubo_term x v v (c ⊗ m) t in
      let self : times (c ⊗ m) (bits x v v) ≈ times (c ⊗ m) (x v) = bits-self v (c ⊗ m) in
      let scaled : times (c ⊗ m) (x v) ≈ times c (x v) ⊗ m = times-⊗ c m (x v) in
      let later : value x (map_linear m d t') ≈ value x t' ⊕ linear_value d ⊗ m =
        value-map_linear m d t' in
      omega arith

  pub value-map_quadratic :
      (m : Num) (d : PairDict) (t : Translator)
      → value x (map_quadratic m d t) ≈ value x t ⊕ energy x d ⊗ m
  unfolding map_quadratic energy
  value-map_quadratic m [] t = omega arith
  value-map_quadratic m (((v1, v2), c) ∷ d) t =
      let t' = add_qubo_term v1 v2 (c ⊗ m) t in
      let here : value x t' ≈ value x t ⊕ times (c ⊗ m) (bits x v1 v2) =
        value-add_qubo_term x v1 v2 (c ⊗ m) t in
      let scaled : times (c ⊗ m) (bits x v1 v2) ≈ times c (bits x v1 v2) ⊗ m =
        times-⊗ c m (bits x v1 v2) in
      let later : value x (map_quadratic m d t') ≈ value x t' ⊕ energy x d ⊗ m =
        value-map_quadratic m d t' in
      omega arith

  -- what `constraint_linear` and `constraint_pairs` add
  abbrev linear_part : Num → Num → Dict Num → Num
  linear_part w b [] = num 0
  linear_part w b ((v, a) ∷ d) =
      times (w ⊗ (a ⊗ a ⊕ negated (num 2 ⊗ b ⊗ a))) (x v) ⊕ linear_part w b d

  abbrev pairs_part : Num → Dict Num → Num
  pairs_part w [] = num 0
  pairs_part w ((v, a) ∷ d) = times (w ⊗ num 2 ⊗ a ⊗ linear_value d) (x v) ⊕ pairs_part w d

  value-constraint_linear :
      (w b : Num) (d : Dict Num) (t : Translator)
      → value x (constraint_linear w b d t) ≈ value x t ⊕ linear_part w b d
  unfolding constraint_linear
  value-constraint_linear w b [] t = omega arith
  value-constraint_linear w b ((v, a) ∷ d) t =
      let c : Num = w ⊗ (a ⊗ a ⊕ negated (num 2 ⊗ b ⊗ a)) in
      let t' = add_qubo_term v v c t in
      let here : value x t' ≈ value x t ⊕ times c (bits x v v) = value-add_qubo_term x v v c t in
      let self : times c (bits x v v) ≈ times c (x v) = bits-self v c in
      let later : value x (constraint_linear w b d t') ≈ value x t' ⊕ linear_part w b d =
        value-constraint_linear w b d t' in
      chain (value x (constraint_linear w b d t')) (value x t') (value x t) (times c (bits x v v))
        (times c (x v)) (linear_part w b d) here self later

  row_split :
      (k c l : Num) (b b' : Bool)
      → times (k ⊗ c) (b && b') ⊕ times (k ⊗ l) b ≈ times (k ⊗ (times c b' ⊕ l)) b
  row_split k c l true true = omega arith
  row_split k c l true false = omega arith
  row_split k c l false b' = refl

  value-constraint_row :
      (w : Num) (v : String) (a : Num) (d : Dict Num) (t : Translator)
      → value x (constraint_row w v a d t)
        ≈ value x t ⊕ times (w ⊗ num 2 ⊗ a ⊗ linear_value d) (x v)
  unfolding constraint_row
  value-constraint_row w v a [] t = elim (Bool-cases (x v)) [
    | inl on ↦ rw on (omega arith)
    | inr off ↦ rw off (omega arith)
  ]
  value-constraint_row w v a ((u, c) ∷ d) t =
      let k : Num = w ⊗ num 2 ⊗ a in
      let t' = add_qubo_term v u (k ⊗ c) t in
      add_up (value x (constraint_row w v a d t')) (value x t') (value x t)
        (times (k ⊗ c) (bits x v u)) (times (k ⊗ linear_value d) (x v))
        (times (k ⊗ linear_value ((u, c) ∷ d)) (x v)) (value-add_qubo_term x v u (k ⊗ c) t)
        (value-constraint_row w v a d t') (row_split k c (linear_value d) (x v) (x u))

  value-constraint_pairs :
      (w : Num) (d : Dict Num) (t : Translator)
      → value x (constraint_pairs w d t) ≈ value x t ⊕ pairs_part w d
  unfolding constraint_pairs
  value-constraint_pairs w [] t = omega arith
  value-constraint_pairs w ((v, a) ∷ d) t =
      let t' = constraint_row w v a d t in
      let row : Num = times (w ⊗ num 2 ⊗ a ⊗ linear_value d) (x v) in
      add_up (value x (constraint_pairs w d t')) (value x t') (value x t) row (pairs_part w d)
        (row ⊕ pairs_part w d) (value-constraint_row w v a d t) (value-constraint_pairs w d t') refl

  square_step :
      (w a b s : Num) (on : Bool)
      → w ⊗ (times a on ⊕ s ⊕ negated b) ⊗ (times a on ⊕ s ⊕ negated b)
        ≈ times (w ⊗ (a ⊗ a ⊕ negated (num 2 ⊗ b ⊗ a))) on
          ⊕ times (w ⊗ num 2 ⊗ a ⊗ s) on
          ⊕ w ⊗ (s ⊕ negated b) ⊗ (s ⊕ negated b)
  square_step w a b s true = square_sum w a b s
  square_step w a b s false = omega arith

  -- The expansion of the square of a constraint.
  parts-square :
      (w b : Num) (d : Dict Num)
      → linear_part w b d ⊕ pairs_part w d ⊕ w ⊗ (b ⊗ b) ≈ w ⊗ residual d b ⊗ residual d b
  parts-square w b [] = omega arith
  parts-square w b ((v, a) ∷ d) =
      let s : Num = linear_value d in
      let lin : Num = times (w ⊗ (a ⊗ a ⊕ negated (num 2 ⊗ b ⊗ a))) (x v) in
      let row : Num = times (w ⊗ num 2 ⊗ a ⊗ s) (x v) in
      regroup lin row (linear_part w b d) (pairs_part w d) (w ⊗ (b ⊗ b))
        (w ⊗ residual d b ⊗ residual d b) (w ⊗ residual ((v, a) ∷ d) b ⊗ residual ((v, a) ∷ d) b)
        (parts-square w b d) (square_step w a b s (x v))

  value-map_constraint :
      (w : Num) (c : Constraint) (t : Translator)
      → value x (map_constraint w c t) ≈ value x t ⊕ constraint_value w c
  unfolding map_constraint
  value-map_constraint w c t = elim (Bool-cases (c.sense == "==")) [
    | inl equation ↦
        let start : Translator = add_offset (w ⊗ (c.rhs ⊗ c.rhs)) t in
        let lin = constraint_linear w c.rhs c.linear_terms start in
        rw equation (
          three_parts (value x (constraint_pairs w c.linear_terms lin)) (value x lin)
            (energy x t.qubo_matrix) t.offset (w ⊗ (c.rhs ⊗ c.rhs))
            (linear_part w c.rhs c.linear_terms) (pairs_part w c.linear_terms)
            (w ⊗ residual c.linear_terms c.rhs ⊗ residual c.linear_terms c.rhs)
            (value-constraint_linear w c.rhs c.linear_terms start)
            (value-constraint_pairs w c.linear_terms lin) (parts-square w c.rhs c.linear_terms))
    | inr inequality ↦ rw inequality (omega arith)
  ]

  pub value-map_constraints :
      (w : Num) (d : Dict Constraint) (t : Translator)
      → value x (map_constraints w d t) ≈ value x t ⊕ constraints_value w d
  unfolding map_constraints
  value-map_constraints w [] t = omega arith
  value-map_constraints w ((k, c) ∷ d) t =
      let t' = map_constraint w c t in
      add_up (value x (map_constraints w d t')) (value x t') (value x t) (constraint_value w c)
        (constraints_value w d) (constraint_value w c ⊕ constraints_value w d)
        (value-map_constraint w c t) (value-map_constraints w d t') refl
