-- ===== src/Audit/Tests.antt =====
-- Trees over five leaves, with a parent function that shows its children.
use Prim.Native.String.{◌++◌ as join}
use qcg_task.Prelude.{String, ◌≡◌, refl, true, some, List, [], ◌∷◌}
use qcg_task.Audit.Merkle.{
  Side, left, right, padded, parents, levels_from, item, path_from, build_merkle_tree, merkle_proof,
  verify_merkle_proof, root_hash,
}
use qcg_task.Audit.Inclusion.{proof-verifies}

abbrev pair : String → String → String
pair a b = join "(" (join a (join b ")"))

abbrev leaves : List String
leaves = "a" ∷ "b" ∷ "c" ∷ "d" ∷ "e" ∷ []

proof_of_the_last :
    merkle_proof
      ((("a" ∷ "b" ∷ "c" ∷ "d" ∷ "e" ∷ "e" ∷ []))
        ∷ ("(ab)" ∷ "(cd)" ∷ "(ee)" ∷ "(ee)" ∷ [])
        ∷ ("((ab)(cd))" ∷ "((ee)(ee))" ∷ [])
        ∷ ("root" ∷ [])
        ∷ [])
      4
    ≡ some (("e", right) ∷ ("(ee)", right) ∷ ("((ab)(cd))", left) ∷ [])
unfolding merkle_proof path_from item padded
proof_of_the_last = refl

tree_of_five :
    build_merkle_tree pair leaves
    ≡ some (
        ("a" ∷ "b" ∷ "c" ∷ "d" ∷ "e" ∷ "e" ∷ [])
        ∷ ("(ab)" ∷ "(cd)" ∷ "(ee)" ∷ "(ee)" ∷ [])
        ∷ ("((ab)(cd))" ∷ "((ee)(ee))" ∷ [])
        ∷ ("(((ab)(cd))((ee)(ee)))" ∷ [])
        ∷ [])
unfolding build_merkle_tree levels_from padded parents
tree_of_five = refl

proof-verifies_example :
    (tree : List (List String)) × (steps : List (String × Side)) × (build_merkle_tree pair leaves
      ≡ some tree)
    × (merkle_proof tree 2 ≡ some steps)
    × (verify_merkle_proof pair "c" steps (root_hash tree) ≡ true)
unfolding item
proof-verifies_example = proof-verifies pair leaves 2 "c" refl
