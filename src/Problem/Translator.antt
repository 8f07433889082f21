-- ===== src/Problem/Translator.antt =====
-- qubo_translation.py: QUBOTranslator. The loops over the indices i < j of a constraint's names are
-- loops over the tails of its items.
use qcg_task.Prelude.{
  String, Bool, true, false, not, List, [], ◌∷◌, ◌==◌, if◌then◌else◌, Result, ok, err,
}
use qcg_task.Prelude.Dict.{Dict}
use qcg_task.Problem.Num.{Num, num, ◌⊕◌, ◌⊗◌, negated, is_zero}
use qcg_task.Problem.Compiler.{
  PairDict, add_pair, sorted_pair, Variable, Constraint, PenaltyKey, single, pair, tuple,
  PenaltyFunction, CompiledProblem,
}

pub record Translator : Type 0 where
  pub qubo_matrix : PairDict
  pub offset : Num

abbrev pub new_translator : Translator
new_translator = record { qubo_matrix = []; offset = num 0 }

unfoldable pub add_qubo_term : String → String → Num → Translator → Translator
add_qubo_term v1 v2 coeff t =
    if is_zero coeff
    then t
    else record t { qubo_matrix = add_pair (sorted_pair v1 v2) coeff t.qubo_matrix }

abbrev pub add_offset : Num → Translator → Translator
add_offset c t = record t { offset = t.offset ⊕ c }

abbrev pub multiplier : String → Num
multiplier sense = if sense == "minimize" then num 1 else negated (num 1)

unfoldable pub map_linear : Num → Dict Num → Translator → Translator
map_linear m [] t = t
map_linear m ((v, coeff) ∷ rest) t = map_linear m rest (add_qubo_term v v (coeff ⊗ m) t)

unfoldable pub map_quadratic : Num → PairDict → Translator → Translator
map_quadratic m [] t = t
map_quadratic m (((v1, v2), coeff) ∷ rest) t =
    map_quadratic m rest (add_qubo_term v1 v2 (coeff ⊗ m) t)

-- weight * (a_i ** 2 - 2 * b * a_i)
unfoldable pub constraint_linear : Num → Num → Dict Num → Translator → Translator
constraint_linear w b [] t = t
constraint_linear w b ((v, a) ∷ rest) t =
    constraint_linear w b rest (add_qubo_term v v (w ⊗ (a ⊗ a ⊕ negated (num 2 ⊗ b ⊗ a))) t)

-- weight * 2 * a_i * a_j, for the names after one
unfoldable pub constraint_row : Num → String → Num → Dict Num → Translator → Translator
constraint_row w v a [] t = t
constraint_row w v a ((u, c) ∷ rest) t =
    constraint_row w v a rest (add_qubo_term v u (w ⊗ num 2 ⊗ a ⊗ c) t)

unfoldable pub constraint_pairs : Num → Dict Num → Translator → Translator
constraint_pairs w [] t = t
constraint_pairs w ((v, a) ∷ rest) t = constraint_pairs w rest (constraint_row w v a rest t)

unfoldable pub map_constraint : Num → Constraint → Translator → Translator
map_constraint w c t =
    if not (c.sense == "==")
    then t
    else constraint_pairs w c.linear_terms
        (constraint_linear w c.rhs c.linear_terms (add_offset (w ⊗ (c.rhs ⊗ c.rhs)) t))

unfoldable pub map_constraints : Num → Dict Constraint → Translator → Translator
map_constraints w [] t = t
map_constraints w ((k, c) ∷ rest) t = map_constraints w rest (map_constraint w c t)

abbrev pub map_penalty_term : PenaltyKey → Num → Translator → Translator
map_penalty_term (single v) coeff t =
    if not (v == "offset") then add_qubo_term v v coeff t else add_offset coeff t
map_penalty_term (pair v1 v2) coeff t = add_qubo_term v1 v2 coeff t
map_penalty_term (tuple _) coeff t = t

unfoldable pub map_penalty : Num → List (PenaltyKey × Num) → Translator → Translator
map_penalty weight [] t = t
map_penalty weight ((k, coeff) ∷ rest) t =
    map_penalty weight rest (map_penalty_term k (coeff ⊗ weight) t)

unfoldable pub map_penalties : List PenaltyFunction → Translator → Translator
map_penalties [] t = t
map_penalties (p ∷ rest) t = map_penalties rest (map_penalty p.weight p.terms t)

unfoldable pub all_binary : Dict Variable → Bool
all_binary [] = true
all_binary ((k, v) ∷ rest) = if not (v.var_type == "binary") then false else all_binary rest

-- `err` is the ValueError of a variable that is not binary.
unfoldable pub translate : Num → CompiledProblem → Translator → Result (Unit {0}) Translator
translate w p t =
    if all_binary p.variables
    then ok (
        map_penalties p.penalties (
          map_constraints w p.constraints (
            map_quadratic (multiplier p.objective.sense) p.objective.quadratic_terms
              (map_linear (multiplier p.objective.sense) p.objective.linear_terms t))))
    else err tt
