-- ===== src/Problem/Tests.antt =====
-- The smallest of a + 2b with 3ab and the equation a + b = 1.
use qcg_task.Prelude.{String, ◌≡◌, refl, Bool, [], ◌∷◌, ◌==◌, ok, Result}
use qcg_task.Prelude.Dict.{insert, contains, lookup}
use qcg_task.Problem.Num.{num, ◌≈◌, ◌⊕◌}
use qcg_task.Problem.Compiler.{
  CompiledProblem, new_problem, add_variable, add_constraint, set_objective, add_term, add_pair,
  add_penalty, single,
}
use qcg_task.Problem.Translator.{Translator, all_binary, translate, new_translator}
use qcg_task.Problem.Terms.{energy}
use qcg_task.Problem.Energy.{objective_value, constraints_value, penalties_value}
use qcg_task.Problem.Total.{translate-energy}

abbrev with_objective : CompiledProblem
with_objective = add_penalty "p" (num 4) ((single "offset", num 2) ∷ []) (
    set_objective (("a", num 1) ∷ ("b", num 2) ∷ []) ((("b", "a"), num 3) ∷ []) "minimize"
      (add_variable "b" "binary" (add_variable "a" "binary" (new_problem "small"))))

abbrev or_same : Result String CompiledProblem → CompiledProblem
or_same (ok p) = p
or_same _ = with_objective

abbrev problem : CompiledProblem
problem =
    or_same (add_constraint "one" (("a", num 1) ∷ ("b", num 1) ∷ []) "==" (num 1) with_objective)

abbrev only_b : String → Bool
only_b v = v == "b"

-- 2 for b, 8 for the penalty, and nothing for the equation, which holds
value_of_b :
    (objective_value only_b problem.objective
      ⊕ constraints_value only_b (num 10) problem.constraints
      ⊕ penalties_value only_b problem.penalties)
    ≈ num 10
unfolding energy add_constraint contains lookup set_objective add_variable add_penalty insert
    add_term add_pair
value_of_b = refl

translate-energy_example :
    (t : Translator) × (translate (num 10) problem new_translator ≡ ok t)
    × (energy only_b t.qubo_matrix ⊕ t.offset
        ≈ objective_value only_b problem.objective
          ⊕ constraints_value only_b (num 10) problem.constraints
          ⊕ penalties_value only_b problem.penalties)
unfolding add_constraint contains lookup set_objective add_variable add_penalty insert add_term
    add_pair all_binary
translate-energy_example = translate-energy only_b (num 10) problem refl
