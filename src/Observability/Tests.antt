-- ===== src/Observability/Tests.antt =====
-- A store that records two entries of one trace and one of another.
use mathlib.Core.List.{Perm}
use qcg_task.Prelude.{◌≡◌, refl, true, false, List, [], ◌∷◌, length}
use qcg_task.Prelude.Int.{pos}
use qcg_task.Prelude.Json.{nil}
use qcg_task.Samples.{plain}
use qcg_task.Observability.Defs.{
  TraceEntry, TraceStore, new_store, max_trace_entries, record_all, record_entry, query,
  filter_entries, execution_trace, adapter_trace, governance_trace, reconstruct_replay,
  sort_entries, insert_entry, comes_before, mismatches_of, with_hash,
}
use qcg_task.Observability.Window.{window, numbered_from, recorded_window}
use qcg_task.Observability.Traced.{entries_of, AllPrecede}
use qcg_task.Observability.Proof.{has_entries, reconstruct_replay-recorded, reconstruct_misses_loss}

abbrev ran : TraceEntry
ran = execution_trace plain "t" "c" "ACCEPTED" "r" (pos 9000) "noon"

abbrev adapted : TraceEntry
adapted = adapter_trace plain "t" "QuantumAdapter" "QUANTUM" "i" "o" "noon"

abbrev other : TraceEntry
other = governance_trace plain "u" nil "noon"

abbrev history : List TraceEntry
history = ran ∷ other ∷ adapted ∷ []

abbrev store : TraceStore
store = record_all history new_store

-- The adapter comes before the execution.
order_of_kinds :
    (reconstruct_replay plain "t" store).chain
    ≡ record adapted { sequence = 3 } ∷ record ran { sequence = 1 } ∷ []
unfolding reconstruct_replay record_all record_entry query filter_entries sort_entries insert_entry
    comes_before mismatches_of with_hash
order_of_kinds = refl

unknown_trace : (reconstruct_replay plain "v" store).is_valid ≡ false
unfolding reconstruct_replay record_all record_entry query filter_entries sort_entries insert_entry
    comes_before mismatches_of with_hash
unknown_trace = refl

recorded_window_example :
    ((record_all history new_store).entries ≡ window max_trace_entries (numbered_from 0 history))
    × ((record_all history new_store).sequence_counter ≡ length history)
recorded_window_example = recorded_window history

reconstruct_replay-recorded_example :
    let p = reconstruct_replay plain "t" store in
    let found = entries_of "t" (window max_trace_entries (numbered_from 0 history)) in
    (p.is_valid ≡ has_entries found) × Perm p.chain found × AllPrecede p.chain
unfolding with_hash
reconstruct_replay-recorded_example =
    reconstruct_replay-recorded plain history "t" (refl, (refl, (refl, tt))) refl

reconstruct_misses_loss_example :
    (reconstruct_replay plain "t"
      (record store { entries = record ran { sequence = 1 } ∷ [] })).is_valid
    ≡ true
unfolding with_hash record_all record_entry query filter_entries
reconstruct_misses_loss_example =
    reconstruct_misses_loss plain store (record ran { sequence = 1 } ∷ [])
      (record other { sequence = 2 } ∷ record adapted { sequence = 3 } ∷ []) [] "t" refl
      (refl, (refl, (refl, tt))) refl
