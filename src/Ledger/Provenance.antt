-- ===== src/Ledger/Provenance.antt =====
-- provenance_api.py: checks, history, graph and certificates over the evidence ledger. The loops that
-- look for a record by its identifier or its hash take the first one.
pub mod Graph
use qcg_task.Prelude.{
  ℕ, zero, suc, ◌+◌, String, Bool, true, false, not, Option, none, some, List, [], ◌∷◌, ◌==◌,
  member, if◌then◌else◌,
}
use qcg_task.Prelude.Json.{Json, Hashing, text, count, obj, field, done, json_hash}
use qcg_task.Ledger.Defs.{ExecutionRecord, EvidenceLedger, hash_pair, genesis, get_merkle_root}

-- The dictionary that the execution hash should be made of.
abbrev pub base_dict : ExecutionRecord → Json
base_dict r = obj (
    field "execution_id" (text r.execution_id) (
      field "trace_id" (text r.trace_id) (
        field "replay_reference" (text r.replay_reference) (
          field "execution_sequence" (count r.execution_sequence) (
            field "producer_identity" (text r.producer_identity) (
              field "runtime_identity" (text r.runtime_identity) (
                field "governance_identity" (text r.governance_identity) (
                  field "execution_status" (text r.execution_status) (
                    field "runtime_hash" (text r.runtime_hash)
                      (field "schema_version" (text r.schema_version) done))))))))))

unfoldable pub verify_provenance : ExecutionRecord → List String → Bool
verify_provenance r trusted_identities =
    if not (member r.producer_identity trusted_identities)
    then false
    else if not (member r.runtime_identity trusted_identities)
    then false
    else if not (member r.governance_identity trusted_identities)
    then false
    else true

unfoldable pub verify_runtime : ExecutionRecord → String → Bool
verify_runtime r expected_runtime_hash = r.runtime_hash == expected_runtime_hash

unfoldable pub records_of_trace : String → List ExecutionRecord → List ExecutionRecord
records_of_trace trace_id [] = []
records_of_trace trace_id (r ∷ rs) =
    let rest = records_of_trace trace_id rs in if r.trace_id == trace_id then r ∷ rest else rest

unfoldable pub execution_history : EvidenceLedger → String → List ExecutionRecord
unfolding records_of_trace
execution_history l trace_id = records_of_trace trace_id l.records

-- the identifier of the first record with this execution hash
unfoldable pub find_parent : String → List ExecutionRecord → String
find_parent previous [] = "GENESIS"
find_parent previous (p ∷ ps) =
    if p.execution_hash == previous then p.execution_id else find_parent previous ps

unfoldable pub edges_from : List ExecutionRecord → List ExecutionRecord → List (String × String)
unfolding find_parent
edges_from all [] = []
edges_from all (r ∷ rs) =
    (find_parent r.previous_execution_hash all, r.execution_id) ∷ edges_from all rs

unfoldable pub execution_graph : EvidenceLedger → List (String × String)
unfolding edges_from
execution_graph l = edges_from l.records l.records

-- `hashes[0]` and `hashes[1:]`
abbrev pub first_hash : List String → Option String
first_hash [] = none
first_hash (e ∷ es) = some e

abbrev pub later_hashes : List String → List String
later_hashes [] = []
later_hashes (e ∷ es) = es

-- the place that was found; `none` is the IndexError of a hash that is missing there
abbrev pub at_position : ℕ → Option String → Option (Option (ℕ × String))
at_position i none = none
at_position i (some head) = some (some (i, head))

-- The index of the first record with the identifier, and the head before it, which is read when the
-- record is found: the hashes are those of the records from there on, and `none` is an IndexError.
unfoldable pub find_position :
    String → Option String → ℕ → List ExecutionRecord → List String → Option (Option (ℕ × String))
find_position id head i [] hashes = some none
find_position id head i (r ∷ rs) hashes =
    let later = find_position id (first_hash hashes) (suc i) rs (later_hashes hashes) in
    if r.execution_id == id then at_position i head else later

pub record ExecutionCertificate : Type 0 where
  pub execution_record : ExecutionRecord
  pub chain_hash : String
  pub merkle_root : Option String
  pub ledger_sequence : ℕ

module _ (h : Hashing) where
  unfoldable pub verify_execution : ExecutionRecord → Bool
  verify_execution r = r.execution_hash == json_hash h (base_dict r)

  -- `none` is an IndexError
  unfoldable pub verify_lineage : ExecutionRecord → EvidenceLedger → Option Bool
  unfolding find_position
  verify_lineage r l =
      elim (find_position r.execution_id (some (genesis h)) 0 l.records l.evidence_hashes) [
        | none ↦ none
        | some none ↦ some false
        | some (some (i, expected_prev)) ↦ some (r.previous_execution_hash == expected_prev)
      ]

  -- `none` is the ValueError of a record that is not found, or an IndexError
  unfoldable pub execution_certificate :
      ExecutionRecord → EvidenceLedger → Option ExecutionCertificate
  unfolding find_position get_merkle_root
  execution_certificate r l =
      elim (find_position r.execution_id (some (genesis h)) 0 l.records l.evidence_hashes) [
        | none ↦ none
        | some none ↦ none
        | some (some (index, prev_head)) ↦ some (record {
          execution_record = r;
          chain_hash = hash_pair h prev_head r.execution_hash;
          merkle_root = get_merkle_root h l;
          ledger_sequence = index + 1;
        })
      ]
