-- ===== src/Replay/Authority/Verdicts.antt =====
-- What the authority remembers of its verdicts, and what its report counts.
use qcg_task.Prelude.{refl, true, String, ◌≡◌, ◌≢◌, Option, some, arith, length, [], ◌∷◌}
use qcg_task.Prelude.Dict.{Dict, lookup, insert}
use qcg_task.Prelude.Json.{Hashing}
use qcg_task.Replay.Registry.{valid, Call, run_call}
use qcg_task.Replay.Registry.Decisions.{submit-rejected}
use qcg_task.Replay.Authority.Defs.{
  is_valid, Authority, ReplayVerdict, submit, last_verdict, verification_report,
}
use qcg_task.Replay.Authority.Lineage.{log_valid_other}

length-insert_old {ℓ} :
    {V : Type ℓ} (k : String) (v w : V) (d : Dict V)
    → lookup k d ≡ some w
    → length (insert k v d) ≡ length d
unfolding lookup insert
length-insert_old k v w [] h = cc
length-insert_old k v w ((j, u) ∷ d) h = ground (arith, length-insert_old k v w d)

pub valid-is_valid : (v : ReplayVerdict) → v.status ≡ valid → is_valid v ≡ true
unfolding is_valid
valid-is_valid v s = rw s refl

pub is_valid-valid : (v : ReplayVerdict) → is_valid v ≡ true → v.status ≡ valid
unfolding is_valid
is_valid-valid v s = ground arith

module _ (h : Hashing) (c : Call) (trace : Option String) (a : Authority) where
  -- A rejected submission of an identifier that already has a verdict leaves the report as it was:
  -- the count of rejections does not include it.
  pub report_misses_repeats :
      (v : ReplayVerdict)
      → last_verdict c.message_id a ≡ some v
      → (submit h c trace a).0.status ≢ valid
      → verification_report (submit h c trace a).1 ≡ verification_report a
  unfolding submit last_verdict verification_report
  report_misses_repeats v seen rejected =
      rw (submit-rejected c.now c.message_id c.issued_at a.registry rejected) (
        rw (log_valid_other (run_call c a.registry).0.status c.message_id _ a.lineage_log rejected)
          (rw (length-insert_old c.message_id _ v a.all_verdicts seen)))
