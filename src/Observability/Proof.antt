-- ===== src/Observability/Proof.antt =====
-- `reconstruct_replay` of a store.
use mathlib.Core.List.{Perm}
use mathlib.Core.List.Perm
use mathlib.Core.Path.{subst}
use qcg_task.Prelude.{
  ℕ, suc, String, ◌≡◌, refl, ap, ◌∙◌, Bool, true, false, ◌==◌, Option, none, some, List, [], ◌∷◌,
  ◌++◌, All, All-append, Bool-cases, inl, inr, ◌&&◌, equal_ℕ, ltb, length,
}
use qcg_task.Prelude.Json.{Hashing}
use qcg_task.Observability.Defs.{
  TraceEntry, TraceStore, new_store, max_trace_entries, push, numbered, record_entry, record_all,
  wanted, filter_entries, query, sort_entries, ReplayProof, entry_digest, mismatches_of,
  no_mismatch, proof_from, reconstruct_replay,
}
use qcg_task.Observability.Window.{window, numbered_from, recorded_window}
use qcg_task.Observability.Traced.{
  entries_of, AllPrecede, filter_entries-entries_of, IsSorted-AllPrecede,
}
use qcg_task.Observability.Order.{
  IsSorted, sort_entries-IsSorted, sort_entries-Perm, sort_entries-All,
}

-- what is left when a part in the middle is taken out
All-without :
    (P : TraceEntry → Type 0) (before lost after : List TraceEntry)
    → All P (before ++ lost ++ after)
    → All P (before ++ after)
All-without P [] [] after all = all
All-without P [] (e ∷ lost) after all = All-without P [] lost after all.1
All-without P (e ∷ before) lost after all = (all.0, All-without P before lost after all.1)

abbrev pub has_entries : List TraceEntry → Bool
has_entries [] = false
has_entries (_ ∷ _) = true

module _ (h : Hashing) where
  -- The hash of the entry is that of its fields.
  abbrev pub IsIntact : TraceEntry → Type 0
  IsIntact e = (e.entry_hash == entry_digest h e) ≡ true

  numbered-IsIntact : (n : ℕ) (e : TraceEntry) → IsIntact e → IsIntact (numbered n e)
  numbered-IsIntact n e intact = elim (Bool-cases (equal_ℕ e.sequence 0)) [
    | inl fresh ↦ rw fresh intact
    | inr given ↦ rw given intact
  ]

  push-IsIntact :
      (limit : ℕ) (es : List TraceEntry) (e : TraceEntry)
      → All IsIntact es
      → IsIntact e
      → All IsIntact (push limit es e)
  push-IsIntact limit [] e all intact = (intact, tt)
  push-IsIntact limit (x ∷ xs) e all intact = elim (Bool-cases (ltb (length (x ∷ xs)) limit)) [
    | inl room ↦ rw room (All-append IsIntact (x ∷ xs) (e ∷ []) all (intact, tt))
    | inr full ↦ rw full (All-append IsIntact xs (e ∷ []) all.1 (intact, tt))
  ]

  record_all-IsIntact :
      (es : List TraceEntry) (s : TraceStore)
      → All IsIntact es
      → All IsIntact s.entries
      → All IsIntact (record_all es s).entries
  unfolding record_all record_entry
  record_all-IsIntact [] s all kept = kept
  record_all-IsIntact (e ∷ es) s all kept = record_all-IsIntact es (record_entry e s) all.1 (
      push-IsIntact max_trace_entries s.entries (numbered (suc s.sequence_counter) e) kept
        (numbered-IsIntact (suc s.sequence_counter) e all.0))

  filter_entries-All :
      (P : TraceEntry → Type 0) (id type : Option String) (es : List TraceEntry)
      → All P es
      → All P (filter_entries id type es)
  unfolding filter_entries
  filter_entries-All P id type [] all = tt
  filter_entries-All P id type (e ∷ es) all =
      elim (Bool-cases (wanted id e.trace_id && wanted type e.trace_type)) [
        | inl found ↦ rw found (all.0, filter_entries-All P id type es all.1)
        | inr other ↦ rw other (filter_entries-All P id type es all.1)
      ]

  mismatches_of-IsIntact : (es : List TraceEntry) → All IsIntact es → mismatches_of h es ≡ []
  unfolding mismatches_of
  mismatches_of-IsIntact [] all = refl
  mismatches_of-IsIntact (e ∷ es) all = rw all.0 (mismatches_of-IsIntact es all.1)

  -- What a reconstruction says over intact entries.
  abbrev pub Rebuilds : List TraceEntry → ReplayProof → Type 0
  Rebuilds es p = (p.is_valid ≡ has_entries es) × Perm p.chain es × IsSorted p.chain

  proof_from-Rebuilds :
      (id : String) (es : List TraceEntry) → All IsIntact es → Rebuilds es (proof_from h id es)
  proof_from-Rebuilds id [] all = (refl, Perm.refl [], tt)
  proof_from-Rebuilds id (e ∷ es) all =
      let clean : mismatches_of h (sort_entries (e ∷ es)) ≡ [] =
        mismatches_of-IsIntact (sort_entries (e ∷ es)) (sort_entries-All IsIntact (e ∷ es) all) in
      (ap (no_mismatch h) clean, sort_entries-Perm (e ∷ es), sort_entries-IsSorted (e ∷ es))

  -- The reconstruction of a trace, whose identifier is not empty, over a store that recorded entries
  -- with correct hashes: it is valid exactly if one of the last ten thousand entries, each with its
  -- number, has the identifier, and its chain has each of those that have it once, by the stages from
  -- the producer to the lineage of the contract and, within a stage, by number.
  pub reconstruct_replay-recorded :
      (es : List TraceEntry) (id : String)
      → All IsIntact es
      → (id == "") ≡ false
      → let p = reconstruct_replay h id (record_all es new_store) in
        let found = entries_of id (window max_trace_entries (numbered_from 0 es)) in
        (p.is_valid ≡ has_entries found) × Perm p.chain found × AllPrecede p.chain
  unfolding reconstruct_replay query
  reconstruct_replay-recorded es id all named =
      let s = record_all es new_store in
      let p = reconstruct_replay h id s in
      let (valid, perm, sorted) = proof_from-Rebuilds id (query (some id) none s) (
        filter_entries-All IsIntact (some id) none s.entries
          (record_all-IsIntact es new_store all tt)) in
      let own : query (some id) none s
          ≡ entries_of id (window max_trace_entries (numbered_from 0 es)) =
        filter_entries-entries_of id s.entries named ∙ ap (entries_of id) (recorded_window es).0 in
      (
        valid ∙ ap has_entries own,
        subst (Perm p.chain) own perm,
        IsSorted-AllPrecede p.chain sorted,
      )

  -- An entry can be lost: a store with intact entries in which some are missing is still reconstructed
  -- as valid, if one entry of the trace is left.
  pub reconstruct_misses_loss :
      (s : TraceStore) (before lost after : List TraceEntry) (id : String)
      → s.entries ≡ before ++ lost ++ after
      → All IsIntact s.entries
      → has_entries (query (some id) none (record s { entries = before ++ after })) ≡ true
      → (reconstruct_replay h id (record s { entries = before ++ after })).is_valid ≡ true
  unfolding reconstruct_replay query
  reconstruct_misses_loss s before lost after id parts all left =
      let found = filter_entries (some id) none (before ++ after) in
      let intact : All IsIntact (before ++ after) =
        All-without IsIntact before lost after (subst (All IsIntact) parts all) in
      let rebuilt : Rebuilds found (proof_from h id found) =
        proof_from-Rebuilds id found
          (filter_entries-All IsIntact (some id) none (before ++ after) intact) in
      rebuilt.0 ∙ left
