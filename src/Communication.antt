-- ===== src/Communication.antt =====
-- communication_contract.py: the structures that cross the gateway, and the two status resolvers.
use qcg_task.Prelude.{
  String, Bool, true, false, not, ◌||◌, List, [], ◌∷◌, member, if◌then◌else◌, Option, none, some,
  Result, ◌>>◌, raise_if,
}
use qcg_task.Prelude.Int.{ℤ, pos, ◌-ℤ◌, leb_ℤ}
use qcg_task.Prelude.Json.{Json, Hashing, json_hash}
use qcg_task.Config.{Config, one}
use qcg_task.Contract.{is_filled_dict}

pub record CommunicationRequest : Type 0 where
  pub message_id : String
  pub source_type : String
  pub destination_type : String
  pub payload : Json
  pub confidence : ℤ
  pub schema_version : String
  pub trace_reference : String

-- One constructor for each ValueError of the construction.
pub data RequestError : Type 0 where
  unsupported_source : String → RequestError
  unsupported_destination : String → RequestError
  confidence_outside : ℤ → RequestError
  empty_payload : RequestError

abbrev pub endpoint_types : List String
endpoint_types = "QUANTUM" ∷ "CLASSICAL" ∷ "HYBRID" ∷ []

-- `__post_init__`: what the construction of a request checks
unfoldable pub check_request : CommunicationRequest → Result RequestError (Unit {0})
check_request r =
    raise_if (not (member r.source_type endpoint_types)) (unsupported_source r.source_type)
    >> raise_if (not (member r.destination_type endpoint_types))
        (unsupported_destination r.destination_type)
    >> raise_if (not (leb_ℤ (pos 0) r.confidence) || not (leb_ℤ r.confidence one))
        (confidence_outside r.confidence)
    >> raise_if (not (is_filled_dict r.payload)) empty_payload

pub data TranslationStatus : Type 0 where
  translated : TranslationStatus
  degraded : TranslationStatus
  rejected : TranslationStatus

pub record TranslationContract : Type 0 where
  pub message_id : String
  pub source_type : String
  pub destination_type : String
  pub payload_hash : String
  pub confidence : ℤ
  pub uncertainty : ℤ
  pub translation_status : TranslationStatus
  pub schema_version : String
  pub trace_reference : String

-- The complement of the confidence is exact in ten-thousandths, so that `round` changes nothing.
abbrev pub from_request : Hashing → CommunicationRequest → TranslationStatus → TranslationContract
from_request h r status = record {
  message_id = r.message_id;
  source_type = r.source_type;
  destination_type = r.destination_type;
  payload_hash = json_hash h r.payload;
  confidence = r.confidence;
  uncertainty = one -ℤ r.confidence;
  translation_status = status;
  schema_version = r.schema_version;
  trace_reference = r.trace_reference;
}

-- The transport statuses of the resolver, the receiver and the gateway.
pub data TransportStatus : Type 0 where
  ack_ok : TransportStatus
  ack_degraded : ℤ → TransportStatus
  halt_translation_rejected : ℤ → TransportStatus
  halt_replay_detected : TransportStatus
  halt_rate_limit_exceeded : TransportStatus

pub record AcknowledgementContract : Type 0 where
  pub message_id : String
  pub transport_status : TransportStatus
  pub translation_status : TranslationStatus
  pub confidence : ℤ
  pub trace_reference : String

-- `transport_status.startswith("ACK:")`
abbrev pub accepted_status : TransportStatus → Bool
accepted_status ack_ok = true
accepted_status (ack_degraded c) = true
accepted_status _ = false

pub record CommunicationResponse : Type 0 where
  pub message_id : String
  pub source_type : String
  pub destination_type : String
  pub translation_contract : TranslationContract
  pub acknowledgement : AcknowledgementContract

abbrev pub threshold_or : Option ℤ → ℤ → ℤ
threshold_or none default_threshold = default_threshold
threshold_or (some t) default_threshold = t

unfoldable pub resolve_translation_status : Config → ℤ → Option ℤ → Option ℤ → TranslationStatus
resolve_translation_status cfg confidence ok_threshold degraded_threshold =
    if leb_ℤ (threshold_or ok_threshold cfg.confidence_threshold) confidence
    then translated
    else if leb_ℤ (threshold_or degraded_threshold cfg.corruption_threshold) confidence
    then degraded
    else rejected

abbrev pub resolve_transport_status : TranslationStatus → ℤ → TransportStatus
resolve_transport_status translated confidence = ack_ok
resolve_transport_status degraded confidence = ack_degraded confidence
resolve_transport_status rejected confidence = halt_translation_rejected confidence
