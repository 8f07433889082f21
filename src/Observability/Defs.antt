-- ===== src/Observability/Defs.antt =====
-- TraceEntry and TraceStore. The lock makes each call one step; log lines and the export as spans are
-- left out. A time stamp is an argument of what creates an entry. Each entry that is recorded is an object
-- of its own: `record` writes the number into it.
use qcg_task.Prelude.{
  ℕ, suc, String, Bool, true, false, not, ◌&&◌, ◌||◌, Option, none, some, List, [], ◌∷◌, ◌++◌, ◌==◌,
  if◌then◌else◌, length, ltb, equal_ℕ,
}
use qcg_task.Prelude.Int.{ℤ}
use qcg_task.Prelude.Json.{
  Json, Items, nil, cons, Hashing, text, fraction, arr, obj, field, done, json_hash,
}

pub record TraceEntry : Type 0 where
  pub trace_id : String
  pub trace_type : String
  pub content : Json
  pub sequence : ℕ
  pub entry_hash : String
  pub timestamp : String

pub record TraceStore : Type 0 where
  pub entries : List TraceEntry
  pub sequence_counter : ℕ

abbrev pub new_store : TraceStore
new_store = record { entries = []; sequence_counter = 0 }

abbrev pub max_trace_entries : ℕ
max_trace_entries = 10000

-- The first of too many goes: `deque.append` with a maximal length.
abbrev pub push : ℕ → List TraceEntry → TraceEntry → List TraceEntry
push limit [] e = e ∷ []
push limit (x ∷ xs) e = if ltb (length (x ∷ xs)) limit then (x ∷ xs) ++ e ∷ [] else xs ++ e ∷ []

-- the entry with the number that it is given when it has none
abbrev pub numbered : ℕ → TraceEntry → TraceEntry
numbered n e = if equal_ℕ e.sequence 0 then record e { sequence = n } else e

unfoldable pub record_entry : TraceEntry → TraceStore → TraceStore
record_entry e s = record {
  entries = push max_trace_entries s.entries (numbered (suc s.sequence_counter) e);
  sequence_counter = suc s.sequence_counter;
}

unfoldable pub record_all : List TraceEntry → TraceStore → TraceStore
record_all [] s = s
record_all (e ∷ es) s = record_all es (record_entry e s)

-- `if trace_id: ...`, and the same for the type
abbrev pub wanted : Option String → String → Bool
wanted none actual = true
wanted (some name) actual = name == "" || actual == name

unfoldable pub filter_entries : Option String → Option String → List TraceEntry → List TraceEntry
filter_entries trace_id trace_type [] = []
filter_entries trace_id trace_type (e ∷ es) =
    let rest = filter_entries trace_id trace_type es in
    if wanted trace_id e.trace_id && wanted trace_type e.trace_type then e ∷ rest else rest

unfoldable pub query : Option String → Option String → TraceStore → List TraceEntry
query trace_id trace_type s = filter_entries trace_id trace_type s.entries

unfoldable pub clear : TraceStore → TraceStore
clear s = record s { entries = [] }

-- `type_order.get(e.trace_type, 99)`
abbrev pub type_order : String → ℕ
type_order trace_type =
    if trace_type == "producer_lineage"
    then 0
    else if trace_type == "adapter"
    then 1
    else if trace_type == "governance"
    then 2
    else if trace_type == "execution"
    then 3
    else if trace_type == "contract_lineage"
    then 4
    else 99

-- the order of pairs
abbrev pub pair_before : ℕ → ℕ → ℕ → ℕ → Bool
pair_before a m b n = ltb a b || equal_ℕ a b && ltb m n

-- the order of the keys `(type_order, sequence)`
unfoldable pub comes_before : TraceEntry → TraceEntry → Bool
comes_before a b =
    pair_before (type_order a.trace_type) a.sequence (type_order b.trace_type) b.sequence

-- `sorted`, which is stable
unfoldable pub insert_entry : TraceEntry → List TraceEntry → List TraceEntry
insert_entry e [] = e ∷ []
insert_entry e (x ∷ xs) = if comes_before x e then x ∷ insert_entry e xs else e ∷ x ∷ xs

unfoldable pub sort_entries : List TraceEntry → List TraceEntry
sort_entries [] = []
sort_entries (e ∷ es) = insert_entry e (sort_entries es)

pub record ReplayProof : Type 0 where
  pub trace_id : String
  pub is_valid : Bool
  -- the whole entries, where the source keeps all fields but the trace identifier
  pub chain : List TraceEntry
  -- the entries with a wrong hash; `none` stands for the message that there are no entries
  pub mismatches : List (Option TraceEntry)

module _ (h : Hashing) where
  abbrev pub entry_digest : TraceEntry → String
  entry_digest e = json_hash h (
      obj (
        field "trace_id" (text e.trace_id) (
          field "trace_type" (text e.trace_type)
            (field "data" e.content (field "timestamp" (text e.timestamp) done)))))

  -- `TraceEntry.__post_init__`
  unfoldable pub with_hash : TraceEntry → TraceEntry
  with_hash e = if e.entry_hash == "" then record e { entry_hash = entry_digest e } else e

  abbrev pub new_entry : String → String → Json → String → TraceEntry
  new_entry trace_id trace_type content timestamp = with_hash (record {
    trace_id = trace_id;
    trace_type = trace_type;
    content = content;
    sequence = 0;
    entry_hash = "";
    timestamp = timestamp;
  })

  abbrev pub execution_trace : String → String → String → String → ℤ → String → TraceEntry
  execution_trace trace_id contract_hash ack runtime_hash confidence timestamp =
      new_entry trace_id "execution"
        (obj (
          field "contract_hash" (text contract_hash) (
            field "ack" (text ack) (
              field "runtime_hash" (text runtime_hash)
                (field "confidence" (fraction confidence) done)))))
        timestamp

  abbrev pub adapter_trace : String → String → String → String → String → String → TraceEntry
  adapter_trace trace_id adapter_type producer_type input_hash output_hash timestamp =
      new_entry trace_id "adapter"
        (obj (
          field "adapter_type" (text adapter_type) (
            field "producer_type" (text producer_type) (
              field "input_hash" (text input_hash) (field "output_hash" (text output_hash) done)))))
        timestamp

  abbrev pub producer_lineage : String → String → String → String → String → String → TraceEntry
  producer_lineage trace_id producer_type raw_input_hash adapter_output_hash contract_hash
        timestamp =
      new_entry trace_id "producer_lineage"
        (obj (
          field "producer_type" (text producer_type) (
            field "raw_input_hash" (text raw_input_hash) (
              field "adapter_output_hash" (text adapter_output_hash)
                (field "contract_hash" (text contract_hash) done)))))
        timestamp

  abbrev pub texts_json : List String → Items
  texts_json [] = nil
  texts_json (s ∷ rest) = cons (text s) (texts_json rest)

  abbrev pub contract_lineage :
      String → String → String → List String → String → String → TraceEntry
  contract_lineage trace_id contract_version producer_type decisions final_ack timestamp =
      new_entry trace_id "contract_lineage"
        (obj (
          field "contract_version" (text contract_version) (
            field "producer_type" (text producer_type) (
              field "governance_decisions" (arr (texts_json decisions))
                (field "final_ack" (text final_ack) done)))))
        timestamp

  abbrev pub governance_trace : String → Items → String → TraceEntry
  governance_trace trace_id violations timestamp =
      new_entry trace_id "governance" (obj (field "violations" (arr violations) done)) timestamp

  unfoldable pub mismatches_of : List TraceEntry → List (Option TraceEntry)
  mismatches_of [] = []
  mismatches_of (e ∷ es) =
      let rest = mismatches_of es in
      if not (e.entry_hash == entry_digest e) then some e ∷ rest else rest

  abbrev pub no_mismatch : List (Option TraceEntry) → Bool
  no_mismatch [] = true
  no_mismatch (_ ∷ _) = false

  abbrev pub proof_from : String → List TraceEntry → ReplayProof
  proof_from trace_id [] = record {
    trace_id = trace_id;
    is_valid = false;
    chain = [];
    mismatches = none ∷ [];
  }
  proof_from trace_id (e ∷ es) =
      let chain = sort_entries (e ∷ es) in
      record {
        trace_id = trace_id;
        is_valid = no_mismatch (mismatches_of chain);
        chain = chain;
        mismatches = mismatches_of chain;
      }

  unfoldable pub reconstruct_replay : String → TraceStore → ReplayProof
  unfolding query filter_entries
  reconstruct_replay trace_id s = proof_from trace_id (query (some trace_id) none s)
