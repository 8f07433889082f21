-- ===== src/Replay/Registry/Decisions.antt =====
-- replay_registry.py: what `submit` decides, once and repeatedly.
use qcg_task.Prelude.{
  ℕ, suc, ◌+◌, String, ◌≡◌, ◌≢◌, ◌⊎◌, Bool, true, false, Option, none, some, List, [], ◌∷◌, arith,
  eq_iff, Option-cases, inl, inr,
}
use qcg_task.Prelude.Int.{ℤ, pos, ◌-ℤ◌, ltb_ℤ, ◌<ℤ◌}
use qcg_task.Prelude.Dict.{lookup, contains, lookup-insert, lookup-insert_self}
use qcg_task.Replay.Registry.File.{RegistryEntry}
use qcg_task.Replay.Registry.Defs.{
  ReplayRegistry, Status, valid, duplicate, stale, Call, issue_time, accept, register, submit,
  submit_all, run_call, new_entry,
}

-- The contract of the registry over the set of accepted identifiers.
abbrev pub expected : Bool → Bool → Status
expected true _ = stale
expected false true = duplicate
expected false false = valid

-- a gap of one is never more than the largest gap that the configuration allows
gap_of_one : (n : ℕ) (gap : ℤ) → pos 0 <ℤ gap → ltb_ℤ gap (pos (n + 1) -ℤ pos n) ≡ false
unfolding ◌-ℤ◌
gap_of_one n gap h = ground arith

register_decides :
    (id : String) (t : ℤ) (r : ReplayRegistry)
    → pos 0 <ℤ r.max_gap
    → (register id t (lookup id r.entries) r).0.status ≡ expected false (contains id r.entries)
unfolding register contains
register_decides id t r g = ground (arith, gap_of_one r.sequence_counter r.max_gap g)

-- With a positive largest gap, `submit` answers STALE past the TTL, otherwise DUPLICATE for a known
-- identifier, otherwise VALID: never FUTURE.
pub submit_decides :
    (now : ℤ) (id : String) (issued : Option ℤ) (r : ReplayRegistry)
    → pos 0 <ℤ r.max_gap
    → (submit now id issued r).0.status
      ≡ expected (ltb_ℤ r.ttl (now -ℤ issue_time now issued)) (contains id r.entries)
unfolding submit
submit_decides now id issued r g = ground (arith, register_decides id (issue_time now issued) r g)

lookup-register :
    (id k : String) (t : ℤ) (r : ReplayRegistry) (e : RegistryEntry)
    → lookup k r.entries ≡ some e
    → lookup k (register id t (lookup id r.entries) r).1.entries ≡ some e
unfolding register accept
lookup-register id k t r e h = elim (Option-cases (lookup id r.entries)) [
  | inl fresh ↦
      rw fresh (ground (arith, eq_iff id k, lookup-insert id k (new_entry id t r) r.entries))
  | inr (w, known) ↦ rw known h
]

-- What is entered stays entered.
pub lookup-submit :
    (c : Call) (k : String) (r : ReplayRegistry) (e : RegistryEntry)
    → lookup k r.entries ≡ some e
    → lookup k (run_call c r).1.entries ≡ some e
unfolding submit
lookup-submit c k r e h =
    ground (arith, lookup-register c.message_id k (issue_time c.now c.issued_at) r e h)

pub lookup-submit_all :
    (cs : List Call) (k : String) (r : ReplayRegistry) (e : RegistryEntry)
    → lookup k r.entries ≡ some e
    → lookup k (submit_all cs r).entries ≡ some e
unfolding submit_all
lookup-submit_all [] k r e h = h
lookup-submit_all (c ∷ cs) k r e h = lookup-submit_all cs k _ e (lookup-submit c k r e h)

accept_effect :
    (id : String) (t : ℤ) (r : ReplayRegistry)
    → (accept id t r).0.status ≡ valid
    → ((accept id t r).0.sequence_number ≡ suc r.sequence_counter)
      × ((accept id t r).1.sequence_counter ≡ suc r.sequence_counter)
      × (lookup id (accept id t r).1.entries ≡ some (new_entry id t r))
unfolding accept
accept_effect id t r h = ground (arith, lookup-insert_self id (new_entry id t r) r.entries)

accept_refused :
    (id : String) (t : ℤ) (r : ReplayRegistry)
    → (accept id t r).0.status ≢ valid
    → (accept id t r).1 ≡ r
unfolding accept
accept_refused id t r h = ground arith

-- A VALID answer gives a new identifier the next number and enters it with that number.
pub submit-valid :
    (now : ℤ) (id : String) (issued : Option ℤ) (r : ReplayRegistry)
    → (submit now id issued r).0.status ≡ valid
    → (lookup id r.entries ≡ none)
      × ((submit now id issued r).0.sequence_number ≡ suc r.sequence_counter)
      × ((submit now id issued r).1.sequence_counter ≡ suc r.sequence_counter)
      × (lookup id (submit now id issued r).1.entries
          ≡ some (new_entry id (issue_time now issued) r))
unfolding submit register
submit-valid now id issued r h = elim (Option-cases (lookup id r.entries)) [
  | inl fresh ↦ grind (arith, accept_effect id (issue_time now issued) r)
  | inr (e, known) ↦ ground arith
]

-- Any other answer leaves the registry, its file included, as it was.
pub submit-rejected :
    (now : ℤ) (id : String) (issued : Option ℤ) (r : ReplayRegistry)
    → (submit now id issued r).0.status ≢ valid
    → (submit now id issued r).1 ≡ r
unfolding submit register
submit-rejected now id issued r h = elim (Option-cases (lookup id r.entries)) [
  | inl fresh ↦ ground (arith, accept_refused id (issue_time now issued) r)
  | inr (e, known) ↦ ground arith
]

submit_known :
    (now : ℤ) (id : String) (issued : Option ℤ) (r : ReplayRegistry) (e : RegistryEntry)
    → lookup id r.entries ≡ some e
    → let d = (submit now id issued r).0 in
      (d.status ≡ stale) ⊎ ((d.status ≡ duplicate) × (d.sequence_number ≡ e.sequence_number))
unfolding submit register
submit_known now id issued r e h = rw h (ground arith)

-- Once an identifier has been accepted, then after any further submissions a new one of it is
-- STALE, or DUPLICATE with the number that it was given: it is never accepted again. `reset`,
-- which the source keeps for tests, is not among the calls.
pub accepted_once :
    (now : ℤ) (id : String) (issued : Option ℤ) (r : ReplayRegistry) (cs : List Call) (now' : ℤ)
    (issued' : Option ℤ)
    → (submit now id issued r).0.status ≡ valid
    → let d = (submit now' id issued' (submit_all cs (submit now id issued r).1)).0 in
      (d.status ≡ stale)
      ⊎ ((d.status ≡ duplicate) × (d.sequence_number ≡ (submit now id issued r).0.sequence_number))
accepted_once now id issued r cs now' issued' h =
    let first = submit-valid now id issued r h in
    let e = new_entry id (issue_time now issued) r in
    let r1 = (submit now id issued r).1 in
    let kept = lookup-submit_all cs id r1 e first.3 in
    let again = submit_known now' id issued' (submit_all cs r1) e kept in
    grind (arith, first.1, again)
