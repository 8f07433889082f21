-- ===== src/Replay/Authority/Defs.antt =====
-- The state and the methods of `CanonicalReplayAuthority`. Wall-clock stamps of the records, which
-- enter no decision and no hash, are left out, and so is the ledger, which no method reads.
use Prim.Native.String.{◌++◌ as join}
use qcg_task.Prelude.{
  ℕ, zero, suc, equal_ℕ, ◌-◌, ◌/◌, ◌%◌, String, Bool, true, false, Option, none, some, List, [],
  ◌∷◌, ◌==◌, if◌then◌else◌, ltb, length,
}
use qcg_task.Prelude.Int.{ℤ, pos, ◌-ℤ◌}
use qcg_task.Prelude.Dict.{Dict, lookup, insert, values}
use qcg_task.Prelude.Json.{Json, Hashing, json_hash, text, count, obj, field, done}
use qcg_task.Replay.Registry
use qcg_task.Replay.Registry.{
  ReplayRegistry, RegistryDecision, Status, valid, duplicate, stale, future, Call, sequence_count,
  entry_count,
}

abbrev pub schema_version : String
schema_version = "1.0.0"

abbrev pub origin : String
origin = "CanonicalReplayAuthority"

abbrev pub status_text : Status → String
status_text valid = "VALID"
status_text duplicate = "DUPLICATE"
status_text stale = "STALE"
status_text future = "FUTURE"

pub record ReplayLineageRecord : Type 0 where
  pub replay_id : String
  pub message_id : String
  pub sequence_number : ℕ
  pub decision : Status
  pub origin_component : String
  pub schema : String
  pub trace_reference : String
  -- the number before this one, if there is one; the source keeps its decimal text
  pub parent_reference : Option ℕ
  pub verification_hash : String

pub record ReplayVerdict : Type 0 where
  pub message_id : String
  pub sequence_number : ℕ
  pub status : Status
  pub lineage_record : ReplayLineageRecord

pub record Authority : Type 0 where
  pub registry : ReplayRegistry
  pub lineage_log : Dict ReplayLineageRecord
  pub all_verdicts : Dict ReplayVerdict

-- `CanonicalReplayAuthority(registry)`
abbrev pub new_authority : ReplayRegistry → Authority
new_authority r = record { registry = r; lineage_log = []; all_verdicts = [] }

unfoldable pub is_valid : ReplayVerdict → Bool
is_valid v = elim v.status [ valid ↦ true | _ ↦ false ]

abbrev pub parent_of : ℕ → Option ℕ
parent_of seq = if ltb 1 seq then some (seq - 1) else none

-- `str(n)`; a number has at most `n` digits beyond the first, so that the fuel is enough
abbrev pub digit : ℕ → String
digit n =
    if equal_ℕ n 0
    then "0"
    else if equal_ℕ n 1
    then "1"
    else if equal_ℕ n 2
    then "2"
    else if equal_ℕ n 3
    then "3"
    else if equal_ℕ n 4
    then "4"
    else if equal_ℕ n 5
    then "5"
    else if equal_ℕ n 6
    then "6"
    else if equal_ℕ n 7
    then "7"
    else if equal_ℕ n 8
    then "8"
    else "9"

unfoldable pub decimal_on : ℕ → ℕ → String
decimal_on zero n = digit n
decimal_on (suc fuel) n =
    let front = decimal_on fuel (n / 10) in
    if ltb n 10 then digit n else join front (digit (n % 10))

abbrev pub decimal : ℕ → String
decimal n = decimal_on n n

abbrev pub parent_json : Option ℕ → Json
parent_json none = text ""
parent_json (some n) = text (decimal n)

abbrev pub canonical : RegistryDecision → String → Json
canonical d trace = obj (
    field "message_id" (text d.message_id) (
      field "sequence_number" (count d.sequence_number) (
        field "decision" (text (status_text d.status)) (
          field "origin" (text origin) (
            field "schema_version" (text schema_version) (
              field "trace_reference" (text trace)
                (field "parent_reference" (parent_json (parent_of d.sequence_number)) done)))))))

-- `trace_reference or message_id`: an absent or empty reference is replaced
abbrev pub trace_or : Option String → String → String
trace_or none message_id = message_id
trace_or (some t) message_id = if t == "" then message_id else t

-- `if decision.status == "VALID": self._lineage[message_id] = record`
unfoldable pub log_valid :
    Status → String → ReplayLineageRecord → Dict ReplayLineageRecord → Dict ReplayLineageRecord
log_valid valid message_id rec log = insert message_id rec log
log_valid _ message_id rec log = log

module _ (h : Hashing) where
  unfoldable pub build_lineage_record : RegistryDecision → String → ReplayLineageRecord
  build_lineage_record d trace = record {
    replay_id = h.uuid5 (h.dumps (canonical d trace));
    message_id = d.message_id;
    sequence_number = d.sequence_number;
    decision = d.status;
    origin_component = origin;
    schema = schema_version;
    trace_reference = trace;
    parent_reference = parent_of d.sequence_number;
    verification_hash = json_hash h (canonical d trace);
  }

  abbrev pub verdict_of : RegistryDecision → Option String → String → ReplayVerdict
  verdict_of d trace message_id = record {
    message_id = d.message_id;
    sequence_number = d.sequence_number;
    status = d.status;
    lineage_record = build_lineage_record d (trace_or trace message_id);
  }

  unfoldable pub submit : Call → Option String → Authority → ReplayVerdict × Authority
  unfolding log_valid
  submit c trace a =
      let (d, registry) = Registry.run_call c a.registry in
      let v = verdict_of d trace c.message_id in
      (
        v,
        record {
          registry = registry;
          lineage_log = log_valid d.status c.message_id v.lineage_record a.lineage_log;
          all_verdicts = insert c.message_id v a.all_verdicts;
        },
      )

  unfoldable pub submit_all : List (Call × Option String) → Authority → Authority
  submit_all [] a = a
  submit_all ((c, trace) ∷ cs) a = submit_all cs (submit c trace a).1

-- `lookup`
unfoldable pub last_verdict : String → Authority → Option ReplayVerdict
last_verdict message_id a = lookup message_id a.all_verdicts

pub record Report : Type 0 where
  pub sequence_counter : ℕ
  pub total_submitted : ℕ
  pub valid_count : ℕ
  -- an integer in the source: it would be negative if there were more records than verdicts
  pub rejected_count : ℤ
  pub persisted_entries : ℕ

unfoldable pub verification_report : Authority → Report
verification_report a = record {
  sequence_counter = sequence_count a.registry;
  total_submitted = length a.all_verdicts;
  valid_count = length a.lineage_log;
  rejected_count = pos (length a.all_verdicts) -ℤ pos (length a.lineage_log);
  persisted_entries = entry_count a.registry;
}

-- `sorted(..., key=lambda r: r.sequence_number)`, which is stable
unfoldable pub insert_sorted :
    ReplayLineageRecord → List ReplayLineageRecord → List ReplayLineageRecord
insert_sorted x [] = x ∷ []
insert_sorted x (y ∷ ys) =
    if ltb y.sequence_number x.sequence_number then y ∷ insert_sorted x ys else x ∷ y ∷ ys

unfoldable pub sort_records : List ReplayLineageRecord → List ReplayLineageRecord
unfolding insert_sorted
sort_records [] = []
sort_records (x ∷ xs) = insert_sorted x (sort_records xs)

unfoldable pub lineage : Authority → List ReplayLineageRecord
lineage a = sort_records (values a.lineage_log)

-- `list(...)[-1]`
abbrev pub last? : List ReplayLineageRecord → Option ReplayLineageRecord
last? [] = none
last? (x ∷ []) = some x
last? (x ∷ y ∷ ys) = last? (y ∷ ys)

pub record SequenceStatus : Type 0 where
  pub sequence_counter : ℕ
  pub last_sequence_number : ℕ
  pub last_message_id : Option String

unfoldable pub sequence_status : Authority → SequenceStatus
sequence_status a =
    let last = last? (values a.lineage_log) in
    record {
      sequence_counter = sequence_count a.registry;
      last_sequence_number = elim last [ none ↦ 0 | some r ↦ r.sequence_number ];
      last_message_id = elim last [ none ↦ none | some r ↦ some r.message_id ];
    }

unfoldable pub reset : Authority → Authority
reset a = record { registry = Registry.reset a.registry; lineage_log = []; all_verdicts = [] }
