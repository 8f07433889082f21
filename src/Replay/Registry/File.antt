-- ===== src/Replay/Registry/File.antt =====
-- The document that `_persist` writes, and the reading of a document by `_load`. In a parsed document a
-- counter is a `count`, a time a `number`, and the keys of an object are distinct.
use qcg_task.Prelude.{
  ℕ, suc, String, ◌≡◌, refl, Option, none, some, [], ◌∷◌, equal_ℕ, if◌then◌else◌,
}
use qcg_task.Prelude.Int.{ℤ}
use qcg_task.Prelude.Dict.{Dict}
use qcg_task.Prelude.Json.{Json, text, count, number, obj, Fields, field, done, get_field}

pub record RegistryEntry : Type 0 where
  pub message_id : String
  pub sequence_number : ℕ
  pub issued_at : ℤ

-- `asdict(entry)`
abbrev pub entry_json : RegistryEntry → Json
entry_json e = obj (
    field "message_id" (text e.message_id) (
      field "sequence_number" (count e.sequence_number)
        (field "issued_at" (number e.issued_at) done)))

abbrev pub entries_json : Dict RegistryEntry → Fields
entries_json [] = done
entries_json ((id, e) ∷ es) = field id (entry_json e) (entries_json es)

abbrev pub snapshot_json : ℕ → Dict RegistryEntry → Json
snapshot_json counter entries =
    obj
      (field "sequence_counter" (count counter) (field "entries" (obj (entries_json entries)) done))

-- `bad_shape` is a TypeError. `untyped` is a document with a value of another type than the source
-- writes there: the source takes it over as it is, and the registry that comes of it is left out.
pub data Reading (A : Type 0) : Type 0 where
  bad_shape : Reading A
  untyped : Reading A
  read : A → Reading A

abbrev pub field_count : Fields → ℕ
field_count done = 0
field_count (field k v fs) = suc (field_count fs)

abbrev pub typed_entry : Json → Json → Json → Reading RegistryEntry
typed_entry (text id) (count n) (number t) =
    read (record { message_id = id; sequence_number = n; issued_at = t })
typed_entry _ _ _ = untyped

-- the keyword arguments are the three fields, and no more
abbrev pub exact_fields : Option Json → Option Json → Option Json → ℕ → Reading RegistryEntry
exact_fields (some id) (some n) (some t) size =
    if equal_ℕ size 3 then typed_entry id n t else bad_shape
exact_fields _ _ _ size = bad_shape

-- `_RegistryEntry(**entry_data)`
unfoldable pub read_entry : Json → Reading RegistryEntry
unfolding get_field
read_entry (obj fs) =
    exact_fields (get_field "message_id" fs) (get_field "sequence_number" fs)
      (get_field "issued_at" fs) (field_count fs)
read_entry _ = bad_shape

-- An error of any entry comes first, whatever the types of the others.
abbrev pub add_entry :
    String → Reading RegistryEntry → Reading (Dict RegistryEntry) → Reading (Dict RegistryEntry)
add_entry id bad_shape rest = bad_shape
add_entry id _ bad_shape = bad_shape
add_entry id (read e) (read es) = read ((id, e) ∷ es)
add_entry id _ _ = untyped

unfoldable pub read_entries : Fields → Reading (Dict RegistryEntry)
read_entries done = read []
read_entries (field id v fs) = add_entry id (read_entry v) (read_entries fs)

-- What `_load` makes of a document: an AttributeError that it does not catch, an empty registry, or
-- the counter and the entries.
pub data Loaded : Type 0 where
  crashed : Loaded
  started_fresh : Loaded
  left_out : Loaded
  loaded : ℕ → Dict RegistryEntry → Loaded

-- `data.get("sequence_counter", 0)`
abbrev pub with_counter : Option Json → Reading (Dict RegistryEntry) → Loaded
with_counter counter bad_shape = started_fresh
with_counter none (read es) = loaded 0 es
with_counter (some (count n)) (read es) = loaded n es
with_counter _ _ = left_out

-- `data.get("entries", {}).items()`
abbrev pub load_fields : Option Json → Option Json → Loaded
load_fields counter none = with_counter counter (read [])
load_fields counter (some (obj fs)) = with_counter counter (read_entries fs)
load_fields counter (some _) = crashed

unfoldable pub load_document : Json → Loaded
unfolding read_entries get_field
load_document (obj fs) = load_fields (get_field "sequence_counter" fs) (get_field "entries" fs)
load_document _ = crashed

read_entries-entries_json : (es : Dict RegistryEntry) → read_entries (entries_json es) ≡ read es
unfolding read_entries read_entry get_field
read_entries-entries_json [] = refl
read_entries-entries_json ((id, e) ∷ es) = rw (read_entries-entries_json es) refl

-- What is written is read again.
pub load_document-snapshot_json :
    (n : ℕ) (es : Dict RegistryEntry) → load_document (snapshot_json n es) ≡ loaded n es
unfolding load_document get_field
load_document-snapshot_json n es = rw (read_entries-entries_json es) refl
