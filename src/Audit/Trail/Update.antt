-- ===== src/Audit/Trail/Update.antt =====
-- The steps of `MerkleAuditTrail._rebuild_tree`. `none` is an IndexError.
use qcg_task.Prelude.{
  ℕ, zero, suc, ◌+◌, ◌-◌, ◌/◌, ◌%◌, String, ◌&&◌, Option, none, some, List, [], ◌∷◌, ◌++◌,
  if◌then◌else◌, length, equal_ℕ, ltb,
}
use qcg_task.Audit.Merkle.{◌>>=◌, padded}

-- `level.pop()`
unfoldable pub pop_last : List String → List String
pop_last [] = []
pop_last (x ∷ []) = []
pop_last (x ∷ y ∷ rest) = x ∷ pop_last (y ∷ rest)

-- Takes the padding off every level, `count` being the number of nodes that are the level's own.
unfoldable pub unpad : ℕ → List (List String) → List (List String)
unfolding pop_last
unpad count [] = []
unpad count (level ∷ rest) =
    (if equal_ℕ (count % 2) 1 && ltb count (length level) then pop_last level else level)
    ∷ unpad ((count + 1) / 2) rest

-- `level[i] = node` where there is such a place, `level.append(node)` otherwise
unfoldable pub put_node : ℕ → String → List String → List String
put_node i node [] = node ∷ []
put_node zero node (x ∷ xs) = node ∷ xs
put_node (suc i) node (x ∷ xs) = x ∷ put_node i node xs

module _ (parent : String → String → String) where
  -- `_merkle_parent(level[-2], level[-1])`
  unfoldable pub last_parent : List String → Option String
  last_parent [] = none
  last_parent (x ∷ []) = none
  last_parent (x ∷ y ∷ []) = some (parent x y)
  last_parent (x ∷ y ∷ z ∷ rest) = last_parent (y ∷ z ∷ rest)

  -- The path to the root: each level is padded, and its last parent is put into the next one.
  unfoldable pub update_path : List String → List (List String) → Option (List (List String))
  unfolding padded last_parent put_node
  update_path level [] = some (level ∷ [])
  update_path level (next ∷ rest) = do
    node ← last_parent (padded level)
    above ← update_path (put_node (length (padded level) / 2 - 1) node next) rest
    some (padded level ∷ above)

  -- `while len(top_level) > 1`: the level that a round adds has one node, so that there is at most
  -- one round.
  unfoldable pub add_root : List (List String) → Option (List (List String))
  unfolding padded last_parent
  add_root [] = none
  add_root (top ∷ []) =
      if ltb 1 (length top)
      then (last_parent (padded top) >>= λ node. some (padded top ∷ (node ∷ []) ∷ []))
      else some (top ∷ [])
  add_root (level ∷ next ∷ rest) = do above ← add_root (next ∷ rest); some (level ∷ above)

  -- What becomes of the levels without padding when a leaf is appended.
  unfoldable pub grow : String → List (List String) → Option (List (List String))
  unfolding update_path add_root
  grow leaf [] = none
  grow leaf (level ∷ rest) = do updated ← update_path (level ++ leaf ∷ []) rest; add_root updated

  -- `_rebuild_tree`, for a new leaf after `old_count` older ones
  unfoldable pub rebuild_tree : ℕ → String → List (List String) → Option (List (List String))
  unfolding unpad grow
  rebuild_tree old_count leaf [] = some ((leaf ∷ []) ∷ [])
  rebuild_tree old_count leaf (level ∷ rest) = grow leaf (unpad old_count (level ∷ rest))
