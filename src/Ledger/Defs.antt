-- ===== src/Ledger/Defs.antt =====
-- The state and the methods of `EvidenceLedger`.
use Prim.Native.String.{◌++◌ as join}
use qcg_task.Prelude.{
  ℕ, zero, suc, String, Bool, false, not, ◌&&◌, Option, none, some, List, [], ◌∷◌, ◌++◌, ◌==◌,
  if◌then◌else◌, length, Result, ok, err,
}
use qcg_task.Prelude.Json.{Hashing}

pub record ExecutionRecord : Type 0 where
  pub execution_id : String
  pub trace_id : String
  pub replay_reference : String
  pub execution_sequence : ℕ
  pub producer_identity : String
  pub runtime_identity : String
  pub governance_identity : String
  pub execution_status : String
  pub runtime_hash : String
  pub execution_hash : String
  pub previous_execution_hash : String
  pub execution_root_hash : String
  pub schema_version : String

pub record EvidenceLedger : Type 0 where
  pub records : List ExecutionRecord
  pub evidence_hashes : List String
  pub current_head : String

-- The time stamp of a snapshot is left out. The root is `none` only if the loop below ran out of
-- fuel.
pub record LedgerSnapshot : Type 0 where
  pub sequence_length : ℕ
  pub merkle_root : Option String
  pub latest_evidence_hash : String

-- the ValueError of `append`
pub data LedgerError : Type 0 where
  invalid_previous_hash : String → String → LedgerError

-- one round of the loop: a last node without a partner is paired with itself
unfoldable pub next_level : (String → String → String) → List String → List String
next_level pair [] = []
next_level pair (x ∷ []) = pair x x ∷ []
next_level pair (x ∷ y ∷ rest) = pair x y ∷ next_level pair rest

-- `while len(current_level) > 1`, on a level that is not empty
unfoldable pub root_of : (String → String → String) → ℕ → List String → Option String
unfolding next_level
root_of pair fuel [] = none
root_of pair fuel (x ∷ []) = some x
root_of pair zero (x ∷ y ∷ rest) = none
root_of pair (suc fuel) (x ∷ y ∷ rest) = root_of pair fuel (next_level pair (x ∷ y ∷ rest))

-- `record.previous_execution_hash and record.previous_execution_hash != head`
abbrev pub breaks_from : String → ExecutionRecord → Bool
breaks_from head r =
    not (r.previous_execution_hash == "") && not (r.previous_execution_hash == head)

-- The ledger after a call: a refused record leaves it as it is.
abbrev pub or_keep :
    EvidenceLedger → Result LedgerError (LedgerSnapshot × EvidenceLedger) → EvidenceLedger
or_keep l (ok (s, l')) = l'
or_keep l (err e) = l

module _ (h : Hashing) where
  abbrev pub hash_pair : String → String → String
  hash_pair left right = h.sha256 (join left right)

  abbrev pub genesis : String
  genesis = h.sha256 "GENESIS"

  abbrev pub empty_ledger : EvidenceLedger
  empty_ledger = record { records = []; evidence_hashes = []; current_head = genesis }

  unfoldable pub get_merkle_root : EvidenceLedger → Option String
  get_merkle_root l = elim l.evidence_hashes [
    | [] ↦ some (h.sha256 "EMPTY_LEDGER")
    | x ∷ xs ↦ root_of hash_pair (length (x ∷ xs)) (x ∷ xs)
  ]

  unfoldable pub get_snapshot : EvidenceLedger → LedgerSnapshot
  unfolding get_merkle_root
  get_snapshot l = record {
    sequence_length = length l.records;
    merkle_root = get_merkle_root l;
    latest_evidence_hash = l.current_head;
  }

  abbrev pub extend_chain : ExecutionRecord → EvidenceLedger → EvidenceLedger
  extend_chain r l =
      let new_chain_hash = hash_pair l.current_head r.execution_hash in
      record {
        records = l.records ++ r ∷ [];
        evidence_hashes = l.evidence_hashes ++ new_chain_hash ∷ [];
        current_head = new_chain_hash;
      }

  unfoldable pub append :
      ExecutionRecord → EvidenceLedger → Result LedgerError (LedgerSnapshot × EvidenceLedger)
  unfolding get_snapshot
  append r l =
      if breaks_from l.current_head r
      then err (invalid_previous_hash l.current_head r.previous_execution_hash)
      else ok (get_snapshot (extend_chain r l), extend_chain r l)

  -- the loop of `verify_chain`; `none` is the IndexError of a record without a hash
  unfoldable pub walk : String → String → List ExecutionRecord → List String → Option Bool
  walk last head [] hashes = some (head == last)
  walk last head (r ∷ rs) [] = if breaks_from head r then some false else none
  walk last head (r ∷ rs) (e ∷ es) =
      let rest = walk last (hash_pair head r.execution_hash) rs es in
      if breaks_from head r
      then some false
      else if not (e == hash_pair head r.execution_hash)
      then some false
      else rest

  unfoldable pub verify_chain : EvidenceLedger → Option Bool
  unfolding walk
  verify_chain l = walk l.current_head genesis l.records l.evidence_hashes

  -- Appends one record after another.
  unfoldable pub append_all : List ExecutionRecord → EvidenceLedger → EvidenceLedger
  append_all [] l = l
  append_all (r ∷ rs) l = append_all rs (or_keep l (append r l))
