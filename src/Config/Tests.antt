-- ===== src/Config/Tests.antt =====
-- The default settings.
use qcg_task.Prelude.{◌≡◌, refl, ok, err}
use qcg_task.Prelude.Int.{pos}
use qcg_task.Samples.{cfg}
use qcg_task.Config.{validate, bad_gap}

defaults_accepted : validate cfg ≡ ok tt
unfolding validate
defaults_accepted = refl

no_gap_refused : validate (record cfg { replay_max_sequence_gap = pos 0 }) ≡ err bad_gap
unfolding validate
no_gap_refused = refl
