-- ===== src/Replay/Deterministic/Tests.antt =====
-- Three replays of one message, at different times.
use qcg_task.Prelude.{◌≡◌, ◌↔◌, refl, some, true, [], ◌∷◌, All}
use qcg_task.Prelude.Int.{pos}
use qcg_task.Replay.Deterministic.Defs.{
  ReplayContract, DeterministicComparisonResult, compare_many, compare, mismatches, same_value,
}
use qcg_task.Replay.Deterministic.Agreement.{Agrees, compare_many_passes_iff}

abbrev first : ReplayContract
first = record {
  message_id = "m1";
  payload_hash = "p";
  confidence = pos 9800;
  translation_status = "OK";
  transport_status = "ACCEPTED";
  created_at = "10:00";
  issued_at = "10:01";
  trace_timestamp = "";
}

abbrev again : ReplayContract
again = record first { issued_at = "11:00" }

abbrev noisy : ReplayContract
noisy = record first { confidence = pos 9000; transport_status = "REJECTED" }

two_fields_differ : (compare first noisy).mismatched_fields ≡ "confidence" ∷ "transport_status" ∷ []
unfolding compare mismatches same_value
two_fields_differ = refl

compare_many_passes_iff_example :
    (r : DeterministicComparisonResult) × (compare_many (first ∷ again ∷ noisy ∷ []) ≡ some r)
    × ((r.passed ≡ true) ↔ All (Agrees first) (again ∷ noisy ∷ []))
compare_many_passes_iff_example = compare_many_passes_iff first again (noisy ∷ [])
