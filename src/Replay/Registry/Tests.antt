-- ===== src/Replay/Registry/Tests.antt =====
-- The registry on concrete calls.
use qcg_task.Prelude.{◌≡◌, ◌≢◌, ◌⊎◌, refl, none, some, List, [], ◌∷◌}
use qcg_task.Prelude.Int.{pos, ◌+ℤ◌, ◌-ℤ◌}
use qcg_task.Prelude.Dict.{lookup, insert}
use qcg_task.Replay.Registry.Defs.{
  ReplayRegistry, valid, duplicate, stale, future, missing, document, FileContent, load, Call,
  open_registry, submit, submit_all, validate_sequence_order,
}
use qcg_task.Prelude.Json.{null, count, obj, field, done, get_field}
use qcg_task.Replay.Registry.File.{
  snapshot_json, load_document, started_fresh, read_entries, read_entry,
}
use qcg_task.Replay.Registry.Decisions.{accepted_once}
use qcg_task.Replay.Registry.Restart.{restart, restart_id}

-- a TTL of 300, and the default largest gap
abbrev fresh : ReplayRegistry
fresh = record {
  ttl = pos 300;
  max_gap = pos 1000;
  entries = [];
  sequence_counter = 0;
  disk = missing;
}

-- a new message, the same one again, a second one, and one that was issued 400 before
abbrev calls : List Call
calls =
    record { now = pos 1000; message_id = "a"; issued_at = none }
    ∷ record { now = pos 1001; message_id = "a"; issued_at = none }
    ∷ record { now = pos 1002; message_id = "b"; issued_at = some (pos 900) }
    ∷ record { now = pos 1003; message_id = "c"; issued_at = some (pos 603) }
    ∷ []

two_entered : (submit_all calls fresh).sequence_counter ≡ 2
unfolding submit_all submit ◌-ℤ◌ lookup insert
two_entered = refl

order_checked :
    (validate_sequence_order (pos 0) fresh ≡ stale)
    × (validate_sequence_order (pos 1000) fresh ≡ valid)
    × (validate_sequence_order (pos 1001) fresh ≡ future)
unfolding validate_sequence_order ◌+ℤ◌
order_checked = (refl, refl, refl)

stale≢valid : stale ≢ valid
stale≢valid e = cc

accepted_once_example :
    let d =
      (submit (pos 1200) "a" none (submit_all calls (submit (pos 1000) "a" none fresh).1)).0 in
    (d.status ≡ stale) ⊎ ((d.status ≡ duplicate) × (d.sequence_number ≡ 1))
unfolding submit ◌-ℤ◌ lookup
accepted_once_example = accepted_once (pos 1000) "a" none fresh calls (pos 1200) none refl

-- a document with one entry
abbrev written : FileContent
written = document (
    snapshot_json 7
      (("a", record { message_id = "a"; sequence_number = 7; issued_at = pos 900 }) ∷ []))

abbrev reopened : ReplayRegistry
reopened = record fresh {
  entries = ("a", record { message_id = "a"; sequence_number = 7; issued_at = pos 900 }) ∷ [];
  sequence_counter = 7;
  disk = written;
}

-- A document that is no object, one whose entries are none, and one with an entry that lacks fields.
documents :
    (open_registry (document null) (pos 300) (pos 1000) ≡ none)
    × (open_registry (document (obj (field "entries" null done))) (pos 300) (pos 1000) ≡ none)
    × (load_document (
          obj (
            field "sequence_counter"
              (count 4)
              (field "entries" (obj (field "a" (obj done) done)) done)))
        ≡ started_fresh)
unfolding open_registry load load_document read_entries read_entry get_field
documents = (refl, refl, refl)

restart_id_example : restart (submit_all calls reopened) ≡ some (submit_all calls reopened)
unfolding open_registry load load_document read_entries read_entry get_field
restart_id_example = restart_id written (pos 300) (pos 1000) calls reopened refl
