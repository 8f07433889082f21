-- ===== src/Audit/Trail/Defs.antt =====
-- The entries of the trail and its methods. Time stamps are left out. `none` is an IndexError, or a
-- build that ran out of fuel.
use Prim.Native.String.{◌++◌ as join}
use qcg_task.Prelude.{
  ℕ, zero, suc, String, Bool, true, false, not, ◌||◌, Option, none, some, List, [], ◌∷◌, ◌++◌, ◌==◌,
  map, if◌then◌else◌, length, equal_ℕ, ltb,
}
use qcg_task.Prelude.Json.{Json, Hashing, text, count, obj, field, done, json_hash}
use qcg_task.Audit.Merkle.{◌>>=◌, build_merkle_tree, merkle_proof, verify_merkle_proof, root_hash}
use qcg_task.Audit.Trail.Update.{rebuild_tree}

pub record AuditEntry : Type 0 where
  pub sequence : ℕ
  pub event_type : String
  pub event_hash : String
  pub node_id : String
  pub event_data : Json

pub record AuditTrail : Type 0 where
  pub entries : List AuditEntry
  pub tree : List (List String)

-- The arguments of `append`.
pub record Event : Type 0 where
  pub event_type : String
  pub event_data : Json
  pub node_id : String

abbrev pub empty_trail : AuditTrail
empty_trail = record { entries = []; tree = [] }

-- `self._entries[i]`
unfoldable pub entry_at : ℕ → List AuditEntry → Option AuditEntry
entry_at i [] = none
entry_at zero (e ∷ es) = some e
entry_at (suc i) (e ∷ es) = entry_at i es

pub data IntegrityError : Type 0 where
  gap : ℕ → ℕ → IntegrityError
  duplicate_numbers : IntegrityError
  root_mismatch : String → String → IntegrityError

-- the check of the numbers, from the index `i` on
unfoldable pub gaps_from : ℕ → List AuditEntry → List IntegrityError
gaps_from i [] = []
gaps_from i (e ∷ es) =
    let later = gaps_from (suc i) es in
    if equal_ℕ e.sequence i then later else gap i e.sequence ∷ later

unfoldable pub numbered : ℕ → List AuditEntry → Bool
numbered s [] = false
numbered s (e ∷ es) = equal_ℕ e.sequence s || numbered s es

-- `len(seqs) != len(set(seqs))`
unfoldable pub has_duplicates : List AuditEntry → Bool
unfolding numbered
has_duplicates [] = false
has_duplicates (e ∷ es) = numbered e.sequence es || has_duplicates es

-- the test of the root of the tree that is built anew; an empty one is skipped
abbrev pub root_errors : List (List String) → String → List IntegrityError
root_errors [] stored = []
root_errors (level ∷ rest) stored =
    if root_hash (level ∷ rest) == stored
    then []
    else root_mismatch stored (root_hash (level ∷ rest)) ∷ []

module _ (h : Hashing) where
  abbrev pub merkle_parent : String → String → String
  merkle_parent left right = h.sha256 (join left right)

  unfoldable pub leaf_hash : AuditEntry → String
  leaf_hash e = json_hash h (
      obj (
        field "sequence" (count e.sequence) (
          field "event_type" (text e.event_type)
            (field "event_hash" (text e.event_hash) (field "node_id" (text e.node_id) done)))))

  abbrev pub new_entry : AuditTrail → Event → AuditEntry
  new_entry t v = record {
    sequence = length t.entries;
    event_type = v.event_type;
    event_hash = json_hash h v.event_data;
    node_id = v.node_id;
    event_data = v.event_data;
  }

  unfoldable pub append : AuditTrail → Event → Option (AuditTrail × AuditEntry)
  unfolding leaf_hash rebuild_tree
  append t v = do
    levels ← rebuild_tree merkle_parent (length t.entries) (leaf_hash (new_entry t v)) t.tree
    some (record { entries = t.entries ++ new_entry t v ∷ []; tree = levels }, new_entry t v)

  -- the calls of `append`, one after the other
  unfoldable pub append_all : AuditTrail → List Event → Option AuditTrail
  unfolding append
  append_all t [] = some t
  append_all t (v ∷ vs) = do next ← append t v; append_all next.0 vs

  -- the answer for the entry that is stored under the number
  abbrev pub check_stored : AuditTrail → AuditEntry → AuditEntry → Option Bool
  check_stored t e stored = if not (leaf_hash stored == leaf_hash e) then some false else (do
    steps ← merkle_proof t.tree e.sequence
    some (verify_merkle_proof merkle_parent (leaf_hash e) steps (root_hash t.tree)))

  unfoldable pub verify_inclusion : AuditTrail → AuditEntry → Option Bool
  verify_inclusion t e =
      if ltb e.sequence (length t.entries)
      then (entry_at e.sequence t.entries >>= check_stored t e)
      else some false

  -- The errors that the checks find in the entries and the levels.
  unfoldable pub errors_of : List AuditEntry → List (List String) → Option (List IntegrityError)
  errors_of entries tree = do
    rebuilt ← build_merkle_tree merkle_parent (map leaf_hash entries)
    some (
        gaps_from 0 entries
        ++ (if has_duplicates entries then duplicate_numbers ∷ [] else [])
        ++ root_errors rebuilt (root_hash tree))

  -- A trail without entries passes at once, any other one when there are no errors.
  unfoldable pub verify_integrity : AuditTrail → Option (Bool × List IntegrityError)
  unfolding errors_of
  verify_integrity t = elim t.entries [
    | [] ↦ some (true, [])
    | _ ∷ _ ↦ do
      errors ← errors_of t.entries t.tree
      some (elim errors [ [] ↦ true | _ ∷ _ ↦ false ], errors)
  ]
