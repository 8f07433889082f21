-- ===== src/Replay/Registry/Defs.antt =====
-- The state and the methods of `ReplayRegistry`.
use qcg_task.Prelude.{
  ℕ, ◌+◌, String, Bool, Option, none, some, List, [], ◌∷◌, if◌then◌else◌, length,
}
use qcg_task.Prelude.Int.{ℤ, pos, ◌-ℤ◌, ◌+ℤ◌, ltb_ℤ, leb_ℤ}
use qcg_task.Prelude.Json.{Json}
use qcg_task.Replay.Registry.File.{
  RegistryEntry, snapshot_json, Loaded, crashed, started_fresh, left_out, loaded, load_document,
}
use qcg_task.Prelude.Dict.{Dict, lookup, insert, contains}

pub data Status : Type 0 where
  valid duplicate stale future : Status

-- `reason` is a text made from the other values, and is left out.
pub record RegistryDecision : Type 0 where
  pub message_id : String
  pub sequence_number : ℕ
  pub status : Status

-- What `_load` can find at the path: no file, an empty one, one that does not parse, or a document.
pub data FileContent : Type 0 where
  missing blank corrupt : FileContent
  document : Json → FileContent

pub record ReplayRegistry : Type 0 where
  pub ttl : ℤ
  pub max_gap : ℤ
  pub entries : Dict RegistryEntry
  pub sequence_counter : ℕ
  pub disk : FileContent

-- `_persist`: the temporary file replaces the old one as a whole.
abbrev pub persist : ReplayRegistry → ReplayRegistry
persist r = record r { disk = document (snapshot_json r.sequence_counter r.entries) }

abbrev pub fill : Loaded → ReplayRegistry → Option ReplayRegistry
fill crashed r = none
fill left_out r = none
fill started_fresh r = some (record r { entries = []; sequence_counter = 0 })
fill (loaded counter entries) r = some (record r { entries = entries; sequence_counter = counter })

-- `_load`, on an object whose entries are empty and whose counter is 0; `none` is an AttributeError,
-- or a document whose registry is left out.
unfoldable pub load : FileContent → ReplayRegistry → Option ReplayRegistry
unfolding load_document
load missing r = some r
load blank r = some r
load corrupt r = some (record r { entries = []; sequence_counter = 0 })
load (document d) r = fill (load_document d) r

-- the object before `_load`, where the path holds `file`
abbrev pub new_registry : FileContent → ℤ → ℤ → ReplayRegistry
new_registry file ttl gap = record {
  ttl = ttl;
  max_gap = gap;
  entries = [];
  sequence_counter = 0;
  disk = file;
}

-- `ReplayRegistry(path, ttl_seconds, max_sequence_gap)`
unfoldable pub open_registry : FileContent → ℤ → ℤ → Option ReplayRegistry
unfolding load
open_registry file ttl gap = load file (new_registry file ttl gap)

abbrev pub decide_as : String → ℕ → Status → RegistryDecision
decide_as message_id seq status = record {
  message_id = message_id;
  sequence_number = seq;
  status = status;
}

abbrev pub new_entry : String → ℤ → ReplayRegistry → RegistryEntry
new_entry message_id issued_at r = record {
  message_id = message_id;
  sequence_number = r.sequence_counter + 1;
  issued_at = issued_at;
}

-- the part of `submit` that assigns the next sequence number
unfoldable pub accept : String → ℤ → ReplayRegistry → RegistryDecision × ReplayRegistry
accept message_id issued_at r =
    let next_seq : ℕ = r.sequence_counter + 1 in
    let entry = new_entry message_id issued_at r in
    if ltb_ℤ r.max_gap (pos next_seq -ℤ pos r.sequence_counter)
    then (decide_as message_id 0 future, r)
    else (
      decide_as message_id next_seq valid,
      persist
          (record r { sequence_counter = next_seq; entries = insert message_id entry r.entries }),
    )

-- the part of `submit` under the lock
unfoldable pub register :
    String → ℤ → Option RegistryEntry → ReplayRegistry → RegistryDecision × ReplayRegistry
unfolding accept
register message_id issued_at (some entry) r =
    (decide_as message_id entry.sequence_number duplicate, r)
register message_id issued_at none r = accept message_id issued_at r

-- `if issued_at is None: issued_at = now`
abbrev pub issue_time : ℤ → Option ℤ → ℤ
issue_time now none = now
issue_time now (some t) = t

-- `submit`, at the clock reading `now`
unfoldable pub submit : ℤ → String → Option ℤ → ReplayRegistry → RegistryDecision × ReplayRegistry
unfolding register
submit now message_id issued r =
    let issued_at = issue_time now issued in
    if ltb_ℤ r.ttl (now -ℤ issued_at)
    then (decide_as message_id 0 stale, r)
    else register message_id issued_at (lookup message_id r.entries) r

unfoldable pub validate_sequence_order : ℤ → ReplayRegistry → Status
validate_sequence_order n r =
    if leb_ℤ n (pos 0)
    then stale
    else if ltb_ℤ (pos r.sequence_counter +ℤ r.max_gap) n
    then future
    else valid

unfoldable pub is_known : String → ReplayRegistry → Bool
is_known message_id r = contains message_id r.entries

unfoldable pub get_entry : String → ReplayRegistry → Option RegistryEntry
get_entry message_id r = lookup message_id r.entries

unfoldable pub sequence_count : ReplayRegistry → ℕ
sequence_count r = r.sequence_counter

unfoldable pub entry_count : ReplayRegistry → ℕ
entry_count r = length r.entries

unfoldable pub reset : ReplayRegistry → ReplayRegistry
reset r = persist (record r { entries = []; sequence_counter = 0 })

-- One call of `submit`: the clock reading, the identifier and the time of issue, if it is given.
pub record Call : Type 0 where
  pub now : ℤ
  pub message_id : String
  pub issued_at : Option ℤ

abbrev pub run_call : Call → ReplayRegistry → RegistryDecision × ReplayRegistry
run_call c r = submit c.now c.message_id c.issued_at r

-- The registry after a sequence of calls, whatever the threads that made them.
unfoldable pub submit_all : List Call → ReplayRegistry → ReplayRegistry
submit_all [] r = r
submit_all (c ∷ cs) r = submit_all cs (run_call c r).1
