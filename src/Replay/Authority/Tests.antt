-- ===== src/Replay/Authority/Tests.antt =====
-- The authority on concrete calls.
use qcg_task.Prelude.{String, ◌≡◌, ◌≢◌, refl, none, some, Option, List, [], ◌∷◌}
use qcg_task.Prelude.Int.{pos, ◌-ℤ◌}
use qcg_task.Prelude.Dict.{lookup, insert, values}
use qcg_task.Prelude.Json.{Hashing}
use qcg_task.Replay.Registry.{ReplayRegistry, missing, valid, duplicate, Call}
use qcg_task.Replay.Registry
use qcg_task.Replay.Authority.Defs.{
  decimal, decimal_on, Authority, new_authority, submit, submit_all, sequence_status,
  build_lineage_record,
}

abbrev plain : Hashing
plain = record { dumps = λ v. "document"; sha256 = λ s. s; uuid5 = λ s. s }

abbrev fresh : ReplayRegistry
fresh = record {
  ttl = pos 300;
  max_gap = pos 1000;
  entries = [];
  sequence_counter = 0;
  disk = missing;
}

abbrev first : Call
first = record { now = pos 1000; message_id = "a"; issued_at = none }

abbrev calls : List (Call × Option String)
calls =
    (first, none)
    ∷ (record { now = pos 1001; message_id = "b"; issued_at = none }, some "root")
    ∷ (first, none)
    ∷ []

abbrev entered : Authority
entered = (submit plain first none (new_authority fresh)).1

two_accepted :
    (sequence_status (submit_all plain calls (new_authority fresh))).last_message_id ≡ some "b"
unfolding sequence_status submit_all submit Registry.submit build_lineage_record ◌-ℤ◌ lookup insert
    values
two_accepted = refl

written_numbers : (decimal 0 ≡ "0") × (decimal 90 ≡ "90") × (decimal 1203 ≡ "1203")
unfolding decimal_on
written_numbers = (refl, refl, refl)

duplicate≢valid : duplicate ≢ valid
duplicate≢valid e = cc
