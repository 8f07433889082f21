-- ===== src/Audit/Merkle.antt =====
-- `_build_merkle_tree`, `_merkle_proof` and `_verify_merkle_proof`, over the parent function of two
-- hashes. `none` is an IndexError, or a loop that ran out of fuel.
use qcg_task.Prelude.{
  ℕ, zero, suc, ◌+◌, ◌-◌, ◌/◌, ◌%◌, String, Bool, Option, none, some, List, [], ◌∷◌, ◌==◌,
  if◌then◌else◌, length, equal_ℕ, ltb,
}

infixl 5 ◌>>=◌
abbrev pub ◌>>=◌ {ℓ κ} : {A : Type ℓ} {B : Type κ} → Option A → (A → Option B) → Option B
none >>= f = none
some a >>= f = f a

-- `xs[i]`
unfoldable pub item : ℕ → List String → Option String
item i [] = none
item zero (x ∷ xs) = some x
item (suc i) (x ∷ xs) = item i xs

-- `if len(level) % 2 == 1: level.append(level[-1])`
unfoldable pub padded : List String → List String
padded [] = []
padded (x ∷ []) = x ∷ x ∷ []
padded (x ∷ y ∷ rest) = x ∷ y ∷ padded rest

-- A step of a proof: the sibling, and on which side it stands.
pub data Side : Type 0 where
  left : Side
  right : Side

-- one step upward, from the hash that has been reached
abbrev pub climb : (String → String → String) → String → String × Side → String
climb parent current (sibling, right) = parent current sibling
climb parent current (sibling, left) = parent sibling current

module _ (parent : String → String → String) where
  -- the parents of a padded level
  unfoldable pub parents : List String → List String
  parents [] = []
  parents (x ∷ []) = []
  parents (x ∷ y ∷ rest) = parent x y ∷ parents rest

  -- `while len(working) > 1`: a level is padded in place before the next one is built
  unfoldable pub levels_from : ℕ → List String → Option (List (List String))
  unfolding padded parents
  levels_from fuel [] = some ([] ∷ [])
  levels_from fuel (x ∷ []) = some ((x ∷ []) ∷ [])
  levels_from zero (x ∷ y ∷ rest) = none
  levels_from (suc fuel) (x ∷ y ∷ rest) = do
    above ← levels_from fuel (parents (padded (x ∷ y ∷ rest)))
    some (padded (x ∷ y ∷ rest) ∷ above)

  -- `_verify_merkle_proof`
  unfoldable pub fold_proof : String → List (String × Side) → String
  fold_proof current [] = current
  fold_proof current (step ∷ steps) = fold_proof (climb parent current step) steps

  unfoldable pub build_merkle_tree : List String → Option (List (List String))
  unfolding levels_from
  build_merkle_tree [] = some []
  build_merkle_tree (x ∷ xs) = levels_from (length (x ∷ xs)) (x ∷ xs)

  unfoldable pub verify_merkle_proof : String → List (String × Side) → String → Bool
  unfolding fold_proof
  verify_merkle_proof leaf_hash steps expected_root = fold_proof leaf_hash steps == expected_root

-- the sibling's index and side
abbrev pub sibling_of : ℕ → ℕ × Side
sibling_of idx = if equal_ℕ (idx % 2) 0 then (idx + 1, right) else (idx - 1, left)

-- the loop over all levels but the root's
unfoldable pub path_from : List (List String) → ℕ → Option (List (String × Side))
unfolding item padded
path_from [] idx = some []
path_from (level ∷ []) idx = some []
path_from (level ∷ next ∷ rest) idx = do
  sibling ← item (sibling_of idx).0 (padded level)
  steps ← path_from (next ∷ rest) (idx / 2)
  some ((sibling, (sibling_of idx).1) ∷ steps)

-- `_merkle_proof`, for an index that is not negative
unfoldable pub merkle_proof : List (List String) → ℕ → Option (List (String × Side))
unfolding path_from
merkle_proof [] leaf_index = some []
merkle_proof (leaves ∷ rest) leaf_index =
    if ltb leaf_index (length leaves) then path_from (leaves ∷ rest) leaf_index else some []

-- `root_hash`: the one element of the last level
unfoldable pub root_hash : List (List String) → String
root_hash [] = ""
root_hash (level ∷ []) = elim level [ [] ↦ "" | x ∷ xs ↦ x ]
root_hash (level ∷ next ∷ rest) = root_hash (next ∷ rest)
