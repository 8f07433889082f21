-- ===== src/Pipeline/Posture.antt =====
-- degraded_runtime.py: `evaluate`. The justification, a text for people, is left out.
use qcg_task.Prelude.{String, ◌≡◌, ◌↔◌, ◌⊎◌, Bool, true, false, arith, if◌then◌else◌}
use qcg_task.Prelude.Int.{ℤ, pos, ltb_ℤ, ◌≤ℤ◌}
use qcg_task.Pipeline.Translation.{
  ClassicalContract, TransmissionStatus, status_ok, status_degraded, status_rejected,
}

pub data OperationalOutcome : Type 0 where
  outcome_ok outcome_degraded outcome_hold outcome_reject outcome_halt : OperationalOutcome

pub data ActionLabel : Type 0 where
  replay_detected : ActionLabel
  rate_limit_exceeded : ActionLabel
  invalid_contract : ActionLabel
  high_noise : ActionLabel
  degraded_with : ℤ → ActionLabel
  ok_with : String → ActionLabel

pub record OperationalPosture : Type 0 where
  pub outcome : OperationalOutcome
  pub trace_id : String
  pub confidence : ℤ
  pub action_label : ActionLabel
  pub emit_action : Bool

abbrev pub is_status_ok : TransmissionStatus → Bool
is_status_ok status_ok = true
is_status_ok _ = false

abbrev pub posture :
    ClassicalContract → OperationalOutcome → ActionLabel → Bool → OperationalPosture
posture c outcome label emit = record {
  outcome = outcome;
  trace_id = c.trace_id;
  confidence = c.confidence;
  action_label = label;
  emit_action = emit;
}

-- the checks after those for a safety stop, by the status
abbrev pub by_status : ClassicalContract → ℤ → TransmissionStatus → OperationalPosture
by_status c noise status_rejected = posture c outcome_reject invalid_contract false
by_status c noise status_degraded =
    if ltb_ℤ (pos 5000) noise
    then posture c outcome_hold high_noise false
    else posture c outcome_degraded (degraded_with c.confidence) true
by_status c noise status_ok = posture c outcome_ok (ok_with c.decoded_message) true

unfoldable pub evaluate : ClassicalContract → ℤ → Bool → Bool → OperationalPosture
evaluate c noise_factor is_replay is_limited =
    if is_replay
    then posture c outcome_halt replay_detected false
    else if is_limited
    then posture c outcome_halt rate_limit_exceeded false
    else by_status c noise_factor c.transmission_status

by_status_emits :
    (c : ClassicalContract) (noise : ℤ) (s : TransmissionStatus)
    → ((by_status c noise s).emit_action ≡ true)
      ↔ ((s ≡ status_ok) ⊎ ((s ≡ status_degraded) × (noise ≤ℤ pos 5000)))
by_status_emits c noise status_rejected = ground arith
by_status_emits c noise status_degraded = ground arith
by_status_emits c noise status_ok = ground arith

-- Downstream action is permitted exactly when neither a replay nor the rate limit stops it and the
-- contract is OK, whatever the noise, or it is DEGRADED and the noise is at most one half.
pub evaluate_emits_iff :
    (c : ClassicalContract) (noise : ℤ) (is_replay is_limited : Bool)
    → ((evaluate c noise is_replay is_limited).emit_action ≡ true) ↔ (
        (is_replay ≡ false)
        × (is_limited ≡ false)
        × ((c.transmission_status ≡ status_ok)
            ⊎ ((c.transmission_status ≡ status_degraded) × (noise ≤ℤ pos 5000))))
unfolding evaluate
evaluate_emits_iff c noise is_replay is_limited =
    let at_status = by_status_emits c noise c.transmission_status in ground (arith, at_status)
