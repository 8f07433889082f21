-- ===== src/Replay/Authority/Lineage.antt =====
-- canonical_replay_authority.py: the order of the lineage log.
use qcg_task.Prelude.{
  ℕ, suc, ◌∙◌, ◌≤◌, ◌<◌, String, ◌≡◌, refl, ◌≢◌, ◌⊎◌, Option, none, List, [], ◌∷◌, ◌++◌, arith,
  eq_iff, Option-cases, inl, inr,
}
use qcg_task.Prelude.Dict.{Dict, lookup, insert, values, insert_new, values-append, lookup-insert}
use qcg_task.Prelude.Json.{Hashing}
use qcg_task.Replay.Registry.{
  ReplayRegistry, Status, valid, duplicate, stale, future, Call, run_call,
}
use qcg_task.Replay.Registry.Decisions.{submit-valid, submit-rejected, lookup-submit}
use qcg_task.Replay.Authority.Defs.{
  Authority, ReplayLineageRecord, new_authority, build_lineage_record, log_valid, submit,
  submit_all, lineage, insert_sorted, sort_records, verdict_of,
}

-- Each number is larger than the one before it, and the first one is larger than `n`.
abbrev pub IsIncreasing : ℕ → List ReplayLineageRecord → Type 0
IsIncreasing n [] = Unit
IsIncreasing n (x ∷ xs) = (n < x.sequence_number) × IsIncreasing x.sequence_number xs

abbrev pub IsAtMost : ℕ → List ReplayLineageRecord → Type 0
IsAtMost m [] = Unit
IsAtMost m (x ∷ xs) = (x.sequence_number ≤ m) × IsAtMost m xs

IsAtMost-mono : (m k : ℕ) (xs : List ReplayLineageRecord) → m ≤ k → IsAtMost m xs → IsAtMost k xs
IsAtMost-mono m k [] le h = tt
IsAtMost-mono m k (x ∷ xs) le h = (omega arith, IsAtMost-mono m k xs le h.1)

IsAtMost-append :
    (m : ℕ) (xs : List ReplayLineageRecord) (r : ReplayLineageRecord)
    → IsAtMost m xs
    → r.sequence_number ≤ m
    → IsAtMost m (xs ++ r ∷ [])
IsAtMost-append m [] r h le = (le, tt)
IsAtMost-append m (x ∷ xs) r h le = (h.0, IsAtMost-append m xs r h.1 le)

IsIncreasing-append :
    (n m : ℕ) (xs : List ReplayLineageRecord) (r : ReplayLineageRecord)
    → IsIncreasing n xs
    → IsAtMost m xs
    → n ≤ m
    → m < r.sequence_number
    → IsIncreasing n (xs ++ r ∷ [])
IsIncreasing-append n m [] r h b le lt = (omega arith, tt)
IsIncreasing-append n m (x ∷ xs) r h b le lt =
    (h.0, IsIncreasing-append x.sequence_number m xs r h.1 b.1 b.0 lt)

insert_sorted-first :
    (x : ReplayLineageRecord) (xs : List ReplayLineageRecord)
    → IsIncreasing x.sequence_number xs
    → insert_sorted x xs ≡ x ∷ xs
unfolding insert_sorted
insert_sorted-first x [] h = refl
insert_sorted-first x (y ∷ ys) h = ground arith

sort_records-id : (n : ℕ) (xs : List ReplayLineageRecord) → IsIncreasing n xs → sort_records xs ≡ xs
unfolding sort_records
sort_records-id n [] h = refl
sort_records-id n (x ∷ xs) h =
    rw (sort_records-id x.sequence_number xs h.1) (insert_sorted-first x xs h.1)

-- The log beside the registry that it stands over.
pub record IsOrdered (r : ReplayRegistry) (log : Dict ReplayLineageRecord) : Type 0 where
  pub increasing : IsIncreasing 0 (values log)
  pub bounded : IsAtMost r.sequence_counter (values log)
  pub entered : (k : String) → lookup k r.entries ≡ none → lookup k log ≡ none

pub log_valid_other :
    (s : Status) (id : String) (rec : ReplayLineageRecord) (log : Dict ReplayLineageRecord)
    → s ≢ valid
    → log_valid s id rec log ≡ log
unfolding log_valid
log_valid_other valid id rec log h = absurd (h refl)
log_valid_other duplicate id rec log h = refl
log_valid_other stale id rec log h = refl
log_valid_other future id rec log h = refl

pub Status-cases : (s : Status) → (s ≡ valid) ⊎ (s ≢ valid)
Status-cases valid = inl refl
Status-cases duplicate = inr (λ e. cc)
Status-cases stale = inr (λ e. cc)
Status-cases future = inr (λ e. cc)

append_accepted :
    (id : String) (rec : ReplayLineageRecord) (log : Dict ReplayLineageRecord) (n : ℕ)
    → lookup id log ≡ none
    → IsIncreasing 0 (values log)
    → IsAtMost n (values log)
    → rec.sequence_number ≡ suc n
    → IsIncreasing 0 (values (insert id rec log)) × IsAtMost (suc n) (values (insert id rec log))
unfolding values
append_accepted id rec log n fresh inc bnd num =
    rw (insert_new id rec log fresh, values-append log ((id, rec) ∷ []))
      (
        IsIncreasing-append 0 n (values log) rec inc bnd (omega arith) (omega arith),
        IsAtMost-append (suc n) (values log) rec
            (IsAtMost-mono n (suc n) (values log) (omega arith) bnd) (omega arith),
      )

still_unknown :
    (c : Call) (k : String) (r : ReplayRegistry)
    → lookup k (run_call c r).1.entries ≡ none
    → lookup k r.entries ≡ none
still_unknown c k r h = elim (Option-cases (lookup k r.entries)) [
  | inl fresh ↦ fresh
  | inr (e, known) ↦ cc (lookup-submit c k r e known)
]

log_valid-IsOrdered :
    (c : Call) (rec : ReplayLineageRecord) (r : ReplayRegistry) (log : Dict ReplayLineageRecord)
    → rec.sequence_number ≡ (run_call c r).0.sequence_number
    → IsOrdered r log
    → IsOrdered (run_call c r).1 (log_valid (run_call c r).0.status c.message_id rec log)
log_valid-IsOrdered c rec r log num h = elim (Status-cases (run_call c r).0.status) [
  | inl e ↦
      let v = submit-valid c.now c.message_id c.issued_at r e in
      let grown =
        append_accepted c.message_id rec log r.sequence_counter (h.entered c.message_id v.0)
          h.increasing h.bounded (num ∙ v.1) in
      rw e (
        unfold log_valid in
        record {
          increasing = grown.0;
          bounded = rw v.2 grown.1;
          entered = λ k unknown. rw lookup-insert (
              ground
                (arith, eq_iff c.message_id k, v.3, h.entered k (still_unknown c k r unknown)));
        })
  | inr ne ↦
      rw (submit-rejected c.now c.message_id c.issued_at r ne)
        (rw (log_valid_other (run_call c r).0.status c.message_id rec log ne) h)
]

empty-IsOrdered : (r : ReplayRegistry) → IsOrdered r []
unfolding values lookup
empty-IsOrdered r = record { increasing = tt; bounded = tt; entered = λ k e. refl }

module _ (h : Hashing) where
  submit-IsOrdered :
      (c : Call) (trace : Option String) (a : Authority)
      → IsOrdered a.registry a.lineage_log
      → let a' = (submit h c trace a).1 in IsOrdered a'.registry a'.lineage_log
  unfolding submit build_lineage_record
  submit-IsOrdered c trace a o =
      log_valid-IsOrdered c
        (verdict_of h (run_call c a.registry).0 trace c.message_id).lineage_record a.registry
        a.lineage_log refl o

  submit_all-IsOrdered :
      (cs : List (Call × Option String)) (a : Authority)
      → IsOrdered a.registry a.lineage_log
      → IsOrdered (submit_all h cs a).registry (submit_all h cs a).lineage_log
  unfolding submit_all
  submit_all-IsOrdered [] a o = o
  submit_all-IsOrdered ((c, trace) ∷ cs) a o =
      submit_all-IsOrdered cs (submit h c trace a).1 (submit-IsOrdered c trace a o)

  -- Over any registry, one that was read from a file too, and after any submissions, `lineage` lists
  -- the accepted records in the order in which they were accepted, with increasing numbers that do
  -- not exceed the registry's counter.
  pub lineage_in_order :
      (r : ReplayRegistry) (cs : List (Call × Option String))
      → let a = submit_all h cs (new_authority r) in
        (lineage a ≡ values a.lineage_log)
        × IsIncreasing 0 (lineage a)
        × IsAtMost a.registry.sequence_counter (lineage a)
  unfolding lineage
  lineage_in_order r cs =
      let a = submit_all h cs (new_authority r) in
      let o = submit_all-IsOrdered cs (new_authority r) (empty-IsOrdered r) in
      let same = sort_records-id 0 (values a.lineage_log) o.increasing in
      (same, rw same o.increasing, rw same o.bounded)
