-- ===== src/Runtime/Tests.antt =====
-- The core on the sample contract.
use qcg_task.Prelude.{◌≡◌, refl}
use qcg_task.Prelude.Int.{pos}
use qcg_task.Config.{IsSane, validate, validate_iff}
use qcg_task.Samples.{cfg, plain, sample}
use qcg_task.Contract.{
  Contract, validate_contract, check_version, parse_semver, earlier, is_filled_dict,
}
use qcg_task.Runtime.Defs.{Texts, ack_ok, ack_degraded, halt_low_confidence, execute, threshold_ack}

abbrev short : Texts
short = record { fixed4 = λ c. "0.0000"; message = λ e. "invalid" }

abbrev weak : Contract
weak = record sample { confidence = pos 5500 }

thresholds :
    (threshold_ack cfg (pos 7000) ≡ ack_ok)
    × (threshold_ack cfg (pos 6999) ≡ ack_degraded (pos 6999))
    × (threshold_ack cfg (pos 4000) ≡ ack_degraded (pos 4000))
    × (threshold_ack cfg (pos 3999) ≡ halt_low_confidence (pos 3999))
unfolding threshold_ack
thresholds = (refl, refl, refl, refl)

weak_degraded : (execute cfg plain short "" weak).ack ≡ ack_degraded (pos 5500)
unfolding execute validate_contract check_version parse_semver earlier is_filled_dict
weak_degraded = refl

sane : IsSane cfg
unfolding validate
sane = (validate_iff cfg).0 refl
