-- ===== src/Gateway/Tests.antt =====
-- A gateway without and with a capacity, and three requests.
use qcg_task.Prelude.{ℕ, String, ◌≡◌, ◌↔◌, ◌⊎◌, refl, true, none, Option}
use qcg_task.Prelude.Int.{pos, ◌-ℤ◌, ◌≤ℤ◌}
use qcg_task.Prelude.Dict.{lookup}
use qcg_task.Prelude.Json.{text, obj, field, done}
use qcg_task.Samples.{cfg, plain}
use qcg_task.Communication.{
  CommunicationRequest, TranslationContract, accepted_status, from_request, translated, ack_ok,
}
use qcg_task.Replay.Registry
use qcg_task.Replay.Authority
use qcg_task.Replay.Registry.{missing, new_registry, valid}
use qcg_task.Replay.Authority.{new_authority}
use qcg_task.Gateway.Limiter.Defs.{new_limiter, allow}
use qcg_task.Gateway.Defs.{Receiver, Gateway, receive, send, answer}
use qcg_task.Gateway.Delivery.{send_accepts_iff, judged}

abbrev request : String → CommunicationRequest
request id = record {
  message_id = id;
  source_type = "QUANTUM";
  destination_type = "CLASSICAL";
  payload = obj (field "data" (text "entangled_pair") done);
  confidence = pos 9800;
  schema_version = "1.0.0";
  trace_reference = "";
}

abbrev contract : String → TranslationContract
contract id = from_request plain (request id) translated

abbrev open_receiver : Option ℕ → Receiver
open_receiver capacity = record {
  authority = new_authority (new_registry missing (pos 300) (pos 1000));
  capacity = capacity;
}

abbrev gateway : Gateway
gateway = record { receiver = open_receiver none; limiter = new_limiter 60 1 0 }

send_accepts_iff_example :
    (accepted_status
        (send plain cfg 1 (pos 1000) (request "a") gateway).0.acknowledgement.transport_status
      ≡ true)
    ↔ (((allow 1 gateway.limiter).0 ≡ true)
        × ((judged plain cfg 1 (pos 1000) (request "a") gateway).status ≡ valid)
        × ((pos 7000 ≤ℤ pos 9800) ⊎ (pos 4000 ≤ℤ pos 9800)))
send_accepts_iff_example = send_accepts_iff plain cfg 1 (pos 1000) (request "a") gateway

first_passes :
    (receive plain (pos 1000) (contract "a") (open_receiver none)).0.transport_status ≡ ack_ok
unfolding receive answer Authority.submit Authority.is_valid Registry.submit ◌-ℤ◌ lookup
first_passes = refl
