-- ===== src/Pipeline/Transmit.antt =====
-- `industrial_endpoint` and `QuantumGateway.transmit`. The rate limiter is that of gateway.py, which
-- hybrid_gateway.py repeats. The endpoint's authority reads the wall clock `now`, the limiter the
-- monotonic clock `tick`.
use qcg_task.Prelude.{
  ℕ, String, Bool, true, false, not, none, some, List, [], ◌∷◌, if◌then◌else◌, Result, ok, err,
}
use qcg_task.Prelude.Int.{ℤ}
use qcg_task.Prelude.Json.{Hashing}
use qcg_task.Config.{Config}
use qcg_task.Replay.Registry as Registry
use qcg_task.Replay.Authority as AuthorityModule
use qcg_task.Replay.Authority.{Authority, ReplayVerdict, submit, is_valid}
use qcg_task.Gateway.Limiter.Defs.{RateLimiter, allow}
use qcg_task.Pipeline.Models.{
  Modes, InputError, Simulator, TransmissionRequest, QuantumDistribution, new_request,
  run_quantum_producer,
}
use qcg_task.Pipeline.Translation.{
  ClassicalContract, status_ok, status_degraded, status_rejected, TranslationError,
  contract_rejected, Rounding, translate,
}

-- One constructor for each text of an acknowledgement.
pub data Acknowledgement : Type 0 where
  ack_ok : String → Acknowledgement
  ack_degraded : String → ℤ → Acknowledgement
  halt_unknown_status : Acknowledgement
  halt_replay_detected : Acknowledgement
  halt_rate_limit_exceeded : Acknowledgement
  halt_invalid_input : InputError → Acknowledgement
  halt_translation_failure : ClassicalContract → Acknowledgement
  halt_unexpected : TranslationError → Acknowledgement

abbrev pub is_accepted : Acknowledgement → Bool
is_accepted (ack_ok m) = true
is_accepted (ack_degraded m c) = true
is_accepted _ = false

abbrev pub status_ack : ClassicalContract → Acknowledgement
status_ack c = elim c.transmission_status [
  | status_ok ↦ ack_ok c.decoded_message
  | status_degraded ↦ ack_degraded c.decoded_message c.confidence
  | status_rejected ↦ halt_unknown_status
]

abbrev pub submission : ℤ → ClassicalContract → Registry.Call
submission now c = record { now = now; message_id = c.trace_id; issued_at = none }

abbrev pub endpoint_ack : ClassicalContract → ReplayVerdict → Acknowledgement
endpoint_ack c v = if not (is_valid v) then halt_replay_detected else status_ack c

unfoldable pub industrial_endpoint :
    Hashing → ℤ → ClassicalContract → Authority → Acknowledgement × Authority
industrial_endpoint h now c a =
    let (verdict, next) = submit h (submission now c) (some c.trace_id) a in
    (endpoint_ack c verdict, next)

-- the texts of the exceptions of `translate`
abbrev pub failure_ack : TranslationError → Acknowledgement
failure_ack (contract_rejected c) = halt_translation_failure c
failure_ack e = halt_unexpected e

pub record QuantumGateway : Type 0 where
  pub replay_authority : Authority
  pub rate_limiter : RateLimiter

-- The arguments of a transmission, and what the clocks show.
pub record Transmission : Type 0 where
  pub tick : ℕ
  pub now : ℤ
  pub message : String
  pub noise : ℤ
  pub mode : String
  pub seed : ℤ

module _ (cfg : Config) (modes : Modes) (h : Hashing) (r : Rounding) (simulate : Simulator) where
  -- from the translation on
  abbrev pub deliver :
      ℤ → Result TranslationError ClassicalContract → Authority → Acknowledgement × Authority
  deliver now (err e) a = (failure_ack e, a)
  deliver now (ok c) a = industrial_endpoint h now c a

  -- from the producer on
  abbrev pub route :
      Transmission → Result InputError QuantumDistribution → Authority → Acknowledgement × Authority
  route x (err e) a = (halt_invalid_input e, a)
  route x (ok d) a = deliver x.now (translate cfg modes h r d x.message) a

  -- the part under `try`
  abbrev pub run_request :
      Transmission → Result InputError TransmissionRequest → Authority → Acknowledgement × Authority
  run_request x (err e) a = (halt_invalid_input e, a)
  run_request x (ok q) a = route x (run_quantum_producer cfg h simulate q x.seed) a

  unfoldable pub transmit : Transmission → QuantumGateway → Acknowledgement × QuantumGateway
  transmit x g =
      let (allowed, limiter) = allow x.tick g.rate_limiter in
      let (ack, authority) =
        run_request x (new_request cfg modes x.message x.noise x.mode) g.replay_authority in
      if not allowed
      then (halt_rate_limit_exceeded, record g { rate_limiter = limiter })
      else (ack, record { replay_authority = authority; rate_limiter = limiter })

  -- the gateway after a sequence of transmissions
  unfoldable pub transmit_all : List Transmission → QuantumGateway → QuantumGateway
  transmit_all [] g = g
  transmit_all (x ∷ xs) g = transmit_all xs (transmit x g).1

-- `reset_replay_registry`
unfoldable pub reset_replay_registry : QuantumGateway → QuantumGateway
reset_replay_registry g = record g { replay_authority = AuthorityModule.reset g.replay_authority }
