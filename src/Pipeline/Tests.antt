-- ===== src/Pipeline/Tests.antt =====
-- Transmissions over a channel without noise, under hashing that keeps its input.
use qcg_task.Prelude.{◌≡◌, refl, ◌≢◌, true, false, eq_iff, arith, [], ◌∷◌, err}
use qcg_task.Prelude.Dict.{lookup, insert}
use qcg_task.Prelude.Int.{pos, ◌-ℤ◌}
use qcg_task.Samples.{cfg, plain}
use qcg_task.Replay.Registry as Registry
use qcg_task.Replay.Authority as AuthorityModule
use qcg_task.Gateway.Limiter.Defs.{new_limiter, allow}
use qcg_task.Pipeline.Models.{
  Modes, Simulator, message_to_bits, strip, new_request, unsupported_mode, run_quantum_producer,
}
use qcg_task.Pipeline.Translation.{Rounding, translate, dominant_from, total_count, status_for}
use qcg_task.Pipeline.Transmit.{
  QuantumGateway, Transmission, ack_ok, is_accepted, transmit, industrial_endpoint,
}
use qcg_task.Pipeline.Accepted.{Passes}
use qcg_task.Pipeline.Delivered.{Carries, accepted_delivers, padded_message_refused}

abbrev modes : Modes
modes = record { supported_modes = "entangled" ∷ "direct" ∷ []; contract_version = "1.0.0" }

abbrev rounding : Rounding
rounding = record { share = λ n m. pos 10000; rest = λ n m. pos 0; write_seed = λ s. "42" }

abbrev channel : Simulator
channel bits noise shots seed = (bits, 1024) ∷ []

abbrev gateway : QuantumGateway
gateway = record {
  replay_authority =
      AuthorityModule.new_authority (Registry.new_registry Registry.missing (pos 300) (pos 1000));
  rate_limiter = new_limiter 60 10 0;
}

abbrev hello : Transmission
hello = record {
  tick = 1;
  now = pos 1;
  message = "b";
  noise = pos 0;
  mode = "direct";
  seed = pos 42;
}

abbrev padded_hello : Transmission
padded_hello = record hello { message = "b " }

hello_acknowledged : (transmit cfg modes plain rounding channel hello gateway).0 ≡ ack_ok "b"
unfolding transmit allow new_request strip run_quantum_producer message_to_bits translate
    dominant_from total_count status_for industrial_endpoint AuthorityModule.submit
    AuthorityModule.is_valid Registry.submit ◌-ℤ◌ lookup insert
hello_acknowledged = refl

hello_accepted : is_accepted (transmit cfg modes plain rounding channel hello gateway).0 ≡ true
unfolding transmit allow new_request strip run_quantum_producer message_to_bits translate
    dominant_from total_count status_for industrial_endpoint AuthorityModule.submit
    AuthorityModule.is_valid Registry.submit ◌-ℤ◌ lookup insert
hello_accepted = refl

unknown_mode : new_request cfg modes "b" (pos 0) "sideways" ≡ err (unsupported_mode "sideways")
unfolding new_request strip
unknown_mode = refl

accepted_delivers_example :
    Passes cfg modes plain rounding channel hello gateway
    × Carries "b" (transmit cfg modes plain rounding channel hello gateway).0
accepted_delivers_example =
    accepted_delivers cfg modes plain rounding channel hello gateway hello_accepted

bits_differ : message_to_bits plain "b" ≢ message_to_bits plain "b "
unfolding message_to_bits
bits_differ e = absurd (ground (arith, eq_iff "11" "00", e))

padded_message_refused_example :
    is_accepted (transmit cfg modes plain rounding channel padded_hello gateway).0 ≡ false
unfolding strip
padded_message_refused_example =
    padded_message_refused cfg modes plain rounding channel padded_hello gateway 1024 refl
      bits_differ
