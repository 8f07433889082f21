-- ===== src/Ledger/Provenance/Graph.antt =====
-- provenance_api.py: `execution_graph` over a ledger that verifies.
use mathlib.Core.Path.{subst}
use qcg_task.Prelude.{
  String, ◌≡◌, refl, sym, true, false, some, List, [], ◌∷◌, ◌==◌, eq_iff, arith, All, member,
}
use qcg_task.Prelude.Json.{Hashing}
use qcg_task.Ledger.Defs.{ExecutionRecord, EvidenceLedger, hash_pair, genesis, walk, verify_chain}
use qcg_task.Ledger.Provenance.{find_parent, edges_from, execution_graph}

-- The execution hash of a record is none of the texts.
abbrev pub IsNone : List String → ExecutionRecord → Type 0
IsNone heads p = All (λ head. (p.execution_hash == head) ≡ false) heads

-- every record with no parent but the start
abbrev pub all_from_genesis : List ExecutionRecord → List (String × String)
all_from_genesis [] = []
all_from_genesis (r ∷ rs) = ("GENESIS", r.execution_id) ∷ all_from_genesis rs

-- The record names a hash before it, and this is one of the texts.
abbrev pub Names : List String → ExecutionRecord → Type 0
Names heads r = member r.previous_execution_hash heads ≡ true

IsNone-member :
    (heads : List String) (p : ExecutionRecord) (x : String)
    → IsNone heads p
    → member x heads ≡ true
    → (p.execution_hash == x) ≡ false
IsNone-member [] p x apart m = absurd (ground arith)
IsNone-member (head ∷ heads) p x apart m =
    ground (arith, eq_iff x head, apart.0, IsNone-member heads p x apart.1)

find_parent-genesis :
    (heads : List String) (x : String) (ps : List ExecutionRecord)
    → All (IsNone heads) ps
    → member x heads ≡ true
    → find_parent x ps ≡ "GENESIS"
unfolding find_parent
find_parent-genesis heads x [] apart m = refl
find_parent-genesis heads x (p ∷ ps) apart m =
    rw (IsNone-member heads p x apart.0 m) (find_parent-genesis heads x ps apart.1 m)

edges_from-genesis :
    (heads : List String) (all rs : List ExecutionRecord)
    → All (IsNone heads) all
    → All (Names heads) rs
    → edges_from all rs ≡ all_from_genesis rs
unfolding edges_from
edges_from-genesis heads all [] apart names = refl
edges_from-genesis heads all (r ∷ rs) apart names =
    rw
      (
        find_parent-genesis heads r.previous_execution_hash all apart names.0,
        edges_from-genesis heads all rs apart names.1,
      )
      refl

-- A longer list of texts.
Names-cons :
    (x : String) (heads : List String) (rs : List ExecutionRecord)
    → All (Names heads) rs
    → All (Names (x ∷ heads)) rs
Names-cons x heads [] names = tt
Names-cons x heads (r ∷ rs) names = (ground (arith, names.0), Names-cons x heads rs names.1)

module _ (h : Hashing) where
  -- In a walk that succeeds each record names one of the heads.
  walk-Names :
      (last head : String) (rs : List ExecutionRecord) (es : List String)
      → walk h last head rs es ≡ some true
      → All (λ (r : ExecutionRecord). (r.previous_execution_hash == "") ≡ false) rs
      → All (Names (head ∷ es)) rs
  unfolding walk
  walk-Names last head [] es w named = tt
  walk-Names last head (r ∷ rs) [] w named = absurd (ground arith)
  walk-Names last head (r ∷ rs) (e ∷ es) w named =
      let next = hash_pair h head r.execution_hash in
      let same : e ≡ next = (eq_iff e next).0 (ground arith) in
      let later : All (Names (next ∷ es)) rs = walk-Names last next rs es (ground arith) named.1 in
      (
        ground (arith, named.0),
        Names-cons head (e ∷ es) rs (subst (λ x. All (Names (x ∷ es)) rs) (sym same) later),
      )

  -- Over a ledger that verifies and whose records all name the hash before them, the graph has no
  -- parent but GENESIS if no record's execution hash is a head of the chain. The heads are hashes of
  -- pairs, so that only a collision makes them meet.
  pub execution_graph_without_parents :
      (l : EvidenceLedger)
      → verify_chain h l ≡ some true
      → All (λ (r : ExecutionRecord). (r.previous_execution_hash == "") ≡ false) l.records
      → All (IsNone (genesis h ∷ l.evidence_hashes)) l.records
      → execution_graph l ≡ all_from_genesis l.records
  unfolding verify_chain execution_graph
  execution_graph_without_parents l verified named apart =
      edges_from-genesis (genesis h ∷ l.evidence_hashes) l.records l.records apart
        (walk-Names l.current_head (genesis h) l.records l.evidence_hashes verified named)
