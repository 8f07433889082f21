-- ===== src/Problem/Compiler.antt =====
-- quantum_problem_compiler.py: the problem and the methods of ProblemCompiler that build it.
use Prim.Native.String.{compare as compare_text}
use Prim.Native.Nat.{Ordering}
use qcg_task.Prelude.{String, Bool, List, [], ◌∷◌, ◌++◌, ◌==◌, ◌&&◌, if◌then◌else◌, Result, ok, err}
use qcg_task.Prelude.Dict.{Dict, insert, contains}
use qcg_task.Problem.Num.{Num, num, ◌⊕◌}

-- a dictionary whose keys are pairs of names
abbrev pub PairDict : Type 0
PairDict = List ((String × String) × Num)

abbrev pub same_pair : String × String → String × String → Bool
same_pair (a, b) (c, d) = (a == c) && (b == d)

-- `d[k] += c` for a key that is there, and `d[k] = c` for a new one
unfoldable pub add_term : String → Num → Dict Num → Dict Num
add_term k c [] = (k, c) ∷ []
add_term k c ((j, n) ∷ d) = if j == k then (j, n ⊕ c) ∷ d else (j, n) ∷ add_term k c d

unfoldable pub add_pair : String × String → Num → PairDict → PairDict
add_pair k c [] = (k, c) ∷ []
add_pair k c ((j, n) ∷ d) = if same_pair j k then (j, n ⊕ c) ∷ d else (j, n) ∷ add_pair k c d

-- `tuple(sorted([v1, v2]))`
abbrev pub sorted_pair : String → String → String × String
sorted_pair v1 v2 = elim (compare_text v1 v2) [ Ordering.gt ↦ (v2, v1) | _ ↦ (v1, v2) ]

pub record Variable : Type 0 where
  pub name : String
  pub var_type : String
  pub lower_bound : Num
  pub upper_bound : Num

pub record Objective : Type 0 where
  pub sense : String
  pub linear_terms : Dict Num
  pub quadratic_terms : PairDict

pub record Constraint : Type 0 where
  pub name : String
  pub sense : String
  pub rhs : Num
  pub linear_terms : Dict Num

-- a key of a penalty's terms; a tuple that is no pair is skipped by the translation
pub data PenaltyKey : Type 0 where
  single : String → PenaltyKey
  pair : String → String → PenaltyKey
  tuple : List String → PenaltyKey

pub record PenaltyFunction : Type 0 where
  pub name : String
  pub weight : Num
  pub terms : List (PenaltyKey × Num)

pub record CompiledProblem : Type 0 where
  pub name : String
  pub variables : Dict Variable
  pub constraints : Dict Constraint
  pub objective : Objective
  pub penalties : List PenaltyFunction

abbrev pub new_problem : String → CompiledProblem
new_problem name = record {
  name = name;
  variables = [];
  constraints = [];
  objective = record { sense = "minimize"; linear_terms = []; quadratic_terms = [] };
  penalties = [];
}

unfoldable pub add_variable : String → String → CompiledProblem → CompiledProblem
add_variable name var_type p = record p {
  variables =
      insert name
        (record { name = name; var_type = var_type; lower_bound = num 0; upper_bound = num 1 })
        p.variables;
}

-- The terms of a constraint; `err` is the ValueError of a name that is no variable.
unfoldable pub constraint_terms : Dict Variable → Dict Num → Dict Num → Result String (Dict Num)
unfolding contains
constraint_terms variables [] terms = ok terms
constraint_terms variables ((k, c) ∷ rest) terms =
    if contains k variables then constraint_terms variables rest (add_term k c terms) else err k

unfoldable pub add_constraint :
    String → Dict Num → String → Num → CompiledProblem → Result String CompiledProblem
unfolding constraint_terms
add_constraint name terms sense rhs p = elim (constraint_terms p.variables terms []) [
  | err k ↦ err k
  | ok linear ↦ ok (record p {
    constraints =
        insert name (record { name = name; sense = sense; rhs = rhs; linear_terms = linear })
          p.constraints;
  })
]

unfoldable pub add_terms : Dict Num → Dict Num → Dict Num
add_terms [] terms = terms
add_terms ((k, c) ∷ rest) terms = add_terms rest (add_term k c terms)

unfoldable pub add_pairs : PairDict → PairDict → PairDict
add_pairs [] terms = terms
add_pairs (((v1, v2), c) ∷ rest) terms = add_pairs rest (add_pair (sorted_pair v1 v2) c terms)

-- The terms are added to those that the objective has.
unfoldable pub set_objective : Dict Num → PairDict → String → CompiledProblem → CompiledProblem
unfolding add_terms add_pairs
set_objective linear quadratic sense p = record p {
  objective = record {
    sense = sense;
    linear_terms = add_terms linear p.objective.linear_terms;
    quadratic_terms = add_pairs quadratic p.objective.quadratic_terms;
  };
}

unfoldable pub add_penalty :
    String → Num → List (PenaltyKey × Num) → CompiledProblem → CompiledProblem
add_penalty name weight terms p = record p {
  penalties = p.penalties ++ record { name = name; weight = weight; terms = terms } ∷ [];
}
