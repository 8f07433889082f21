-- ===== src/Replay/Enforcer/Repeats.antt =====
-- Artifacts that are submitted again: while the cache has room, and after it was full.
use mathlib.Core.Path.{subst}
use qcg_task.Prelude.{
  ℕ, suc, ◌+◌, ◌≤◌, ◌<◌, String, ◌≡◌, refl, ◌≢◌, inl, inr, Option, none, some, List, [], ◌∷◌, arith,
  eq_iff, length, Bool-cases, Option-cases,
}
use qcg_task.Prelude.Dict.{Dict, lookup, insert, lookup-insert, lookup-insert_self}
use qcg_task.Prelude.Int.{ℤ}
use qcg_task.Replay.Enforcer.Defs.{
  CacheEntry, ReplayEnforcer, accepted, evict_if_needed, submit, submit_all, Submission, enter,
  process_new, issue_time, is_expired,
}
use qcg_task.Replay.Enforcer.Bounds.{length-insert}

-- With room for one entry more nothing is evicted.
evict_if_needed-room :
    (now : ℤ) (e : ReplayEnforcer) → length e.cache < e.threshold → evict_if_needed now e ≡ e
unfolding evict_if_needed
evict_if_needed-room now e room = ground arith

-- What a call leaves of a known artifact, and how much the cache grows, while there is room.
record Keeps (id : String) (n : ℕ) (threshold : ℕ) (e : ReplayEnforcer) : Type 0 where
  entry : CacheEntry
  known : lookup id e.cache ≡ some entry
  size : length e.cache ≤ n
  same : e.threshold ≡ threshold

still_known :
    (k id : String) (v w : CacheEntry) (d : Dict CacheEntry)
    → lookup k d ≡ none
    → lookup id d ≡ some w
    → (u : CacheEntry) × (lookup id (insert k v d) ≡ some u)
still_known k id v w d new known = (w, ground (arith, eq_iff k id, lookup-insert k id v d))

process_new-Keeps :
    (now : ℤ) (k : String) (t : ℤ) (o : Option CacheEntry) (id : String) (n threshold : ℕ)
    (e : ReplayEnforcer)
    → suc n < threshold
    → Keeps id n threshold e
    → lookup k e.cache ≡ o
    → Keeps id (suc n) threshold (process_new now k t o e).1
process_new-Keeps now k t (some v) id n threshold e room keeps found = record {
  entry = keeps.entry;
  known = keeps.known;
  size = omega (arith, keeps.size);
  same = keeps.same;
}
process_new-Keeps now k t none id n threshold e room keeps found =
    let entered = enter k t e in
    let v : CacheEntry = record { sequence = e.sequence_counter + 1; issued = t } in
    let size = length-insert k v e.cache in
    let small : length entered.cache < entered.threshold =
      omega (arith, keeps.size, keeps.same, size) in
    let (w, there) = still_known k id v keeps.entry e.cache found keeps.known in
    rw (evict_if_needed-room now entered small) (record {
      entry = w;
      known = there;
      size = omega (arith, keeps.size, size);
      same = keeps.same;
    })

submit-Keeps :
    (s : Submission) (id : String) (n threshold : ℕ) (e : ReplayEnforcer)
    → suc n < threshold
    → Keeps id n threshold e
    → Keeps id (suc n) threshold (submit s.now s.artifact_id s.issued_at e).1
unfolding submit
submit-Keeps s id n threshold e room keeps =
    elim (Bool-cases (is_expired e.ttl s.now (issue_time s.now s.issued_at))) [
      | inl late ↦ rw late (record {
        entry = keeps.entry;
        known = keeps.known;
        size = omega (arith, keeps.size);
        same = keeps.same;
      })
      | inr fresh ↦ rw fresh (
          process_new-Keeps s.now s.artifact_id (issue_time s.now s.issued_at)
            (lookup s.artifact_id e.cache) id n threshold e room keeps refl)
    ]

submit_all-Keeps :
    (calls : List Submission) (id : String) (n threshold : ℕ) (e : ReplayEnforcer)
    → n + length calls < threshold
    → Keeps id n threshold e
    → Keeps id (n + length calls) threshold (submit_all calls e)
unfolding submit_all
submit_all-Keeps [] id n threshold e room keeps =
    subst (λ m. Keeps id m threshold e) (omega arith) keeps
submit_all-Keeps (s ∷ rest) id n threshold e room keeps =
    subst (λ m. Keeps id m threshold (submit_all (s ∷ rest) e)) (omega arith)
      (submit_all-Keeps rest id (suc n) threshold (submit s.now s.artifact_id s.issued_at e).1
        (omega arith) (submit-Keeps s id n threshold e (omega arith) keeps))

-- A known artifact is not accepted.
known_refused :
    (now : ℤ) (id : String) (issued : Option ℤ) (e : ReplayEnforcer) (v : CacheEntry)
    → lookup id e.cache ≡ some v
    → (submit now id issued e).0.status ≢ accepted
unfolding submit
known_refused now id issued e v known a =
    elim (Bool-cases (is_expired e.ttl now (issue_time now issued))) [
      | inl late ↦ ground (arith, late)
      | inr fresh ↦ ground (arith, fresh, known)
    ]

entered-Keeps :
    (now : ℤ) (id : String) (t : ℤ) (e : ReplayEnforcer)
    → length e.cache + 1 < e.threshold
    → Keeps id (length e.cache + 1) e.threshold (process_new now id t none e).1
entered-Keeps now id t e room =
    let v : CacheEntry = record { sequence = e.sequence_counter + 1; issued = t } in
    let size = length-insert id v e.cache in
    rw (evict_if_needed-room now (enter id t e) (omega (arith, size)))
      (record { entry = v; known = lookup-insert_self id v e.cache; size = size; same = refl })

-- What is accepted is entered.
accepted_known :
    (s : Submission) (e : ReplayEnforcer)
    → length e.cache + 1 < e.threshold
    → (submit s.now s.artifact_id s.issued_at e).0.status ≡ accepted
    → Keeps s.artifact_id
        (length e.cache + 1)
        e.threshold
        (submit s.now s.artifact_id s.issued_at e).1
unfolding submit
accepted_known s e room a =
    elim (Bool-cases (is_expired e.ttl s.now (issue_time s.now s.issued_at))) [
      | inl late ↦ absurd (ground (arith, late))
      | inr fresh ↦ elim (Option-cases (lookup s.artifact_id e.cache)) [
        | inl new ↦
            rw (fresh, new)
              (entered-Keeps s.now s.artifact_id (issue_time s.now s.issued_at) e room)
        | inr (v, old) ↦ absurd (ground (arith, fresh, old))
      ]
    ]

-- An artifact that was accepted is not accepted again, at any time and with any time of issue, after
-- any further calls, as long as the entries and the calls together stay below the threshold of the
-- eviction.
pub accepted_once_with_room :
    (s : Submission) (calls : List Submission) (e : ReplayEnforcer)
    → length e.cache + 1 + length calls < e.threshold
    → (submit s.now s.artifact_id s.issued_at e).0.status ≡ accepted
    → (now : ℤ) (issued : Option ℤ)
    → (submit now s.artifact_id issued
        (submit_all calls (submit s.now s.artifact_id s.issued_at e).1)).0.status
      ≢ accepted
accepted_once_with_room s calls e room a now issued =
    let first = accepted_known s e (omega arith) a in
    let last =
      submit_all-Keeps calls s.artifact_id (length e.cache + 1) e.threshold
        (submit s.now s.artifact_id s.issued_at e).1 room first in
    known_refused now s.artifact_id issued
      (submit_all calls (submit s.now s.artifact_id s.issued_at e).1) last.entry last.known
