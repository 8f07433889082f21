-- ===== src/Replay/Enforcer/Tests.antt =====
-- Small enforcers, with a threshold of two and of ten thousand entries.
use qcg_task.Prelude.{◌≡◌, refl, ◌≢◌, false, Option, none, some, [], ◌∷◌, arith}
use qcg_task.Prelude.Dict.{lookup}
use qcg_task.Prelude.Int.{ℤ, pos, ◌-ℤ◌}
use qcg_task.Replay.Enforcer.Defs.{
  ReplayEnforcer, new_enforcer, accepted, rejected_stale, submit, submit_all, Submission,
  is_expired, issue_time,
}
use qcg_task.Replay.Enforcer.Repeats.{accepted_once_with_room}
use qcg_task.Replay.Enforcer.Full.{full_cache_forgets}

abbrev start : ReplayEnforcer
start = new_enforcer (pos 5)

abbrev first : Submission
first = record { now = pos 20; artifact_id = "artifact-001"; issued_at = none }

abbrev second : Submission
second = record { now = pos 21; artifact_id = "artifact-002"; issued_at = some (pos 18) }

old_is_stale : (submit (pos 20) "artifact-003" (some (pos 10)) start).0.status ≡ rejected_stale
unfolding submit ◌-ℤ◌
old_is_stale = refl

accepted_once_with_room_example :
    (submit (pos 21) first.artifact_id (some (pos 21)) (
      submit_all
        (second ∷ [])
        (submit first.now first.artifact_id first.issued_at start).1)).0.status
    ≢ accepted
unfolding submit lookup ◌-ℤ◌
accepted_once_with_room_example =
    accepted_once_with_room first (second ∷ []) start (omega arith) refl (pos 21) (some (pos 21))

-- one entry, and room for one
abbrev tight : ReplayEnforcer
tight = record {
  ttl = pos 5;
  threshold = 2;
  sequence_counter = 1;
  cache = ("artifact-001", record { sequence = 1; issued = pos 20 }) ∷ [];
}

full_cache_forgets_example :
    let after = (submit (pos 21) "artifact-002" (some (pos 21)) tight).1 in
    ((submit (pos 21) "artifact-002" (some (pos 21)) tight).0.status ≡ accepted)
    × ((later : ℤ) (issued : Option ℤ)
        → is_expired tight.ttl later (issue_time later issued) ≡ false
        → (submit later "artifact-001" issued after).0.status ≡ accepted)
unfolding lookup ◌-ℤ◌
full_cache_forgets_example =
    full_cache_forgets (pos 21) (pos 21) "artifact-002" "artifact-001"
      (record { sequence = 1; issued = pos 20 }) [] tight refl refl tt (refl, tt) refl refl refl
