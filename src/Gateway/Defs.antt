-- ===== src/Gateway/Defs.antt =====
-- `Receiver` and `CommunicationGateway` of gateway.py. Writes of the registry's file are taken to
-- succeed, so that nothing which `send` guards raises: its answer to an exception is left out. The
-- receiver's authority reads the wall clock `now`, and the limiter the monotonic clock `tick`.
use qcg_task.Prelude.{ℕ, Bool, false, not, Option, none, some, leb, if◌then◌else◌}
use qcg_task.Prelude.Int.{ℤ}
use qcg_task.Prelude.Json.{Hashing}
use qcg_task.Config.{Config}
use qcg_task.Communication.{
  CommunicationRequest, TranslationContract, AcknowledgementContract, CommunicationResponse,
  TransportStatus, rejected, halt_replay_detected, halt_rate_limit_exceeded, from_request,
  resolve_translation_status, resolve_transport_status,
}
use qcg_task.Replay.Registry as Registry
use qcg_task.Replay.Authority as AuthorityModule
use qcg_task.Replay.Authority.{Authority, ReplayVerdict, submit, is_valid}
use qcg_task.Gateway.Limiter.Defs.{RateLimiter, allow}

pub record Receiver : Type 0 where
  pub authority : Authority
  pub capacity : Option ℕ

abbrev pub is_full : Receiver → Bool
is_full r = elim r.capacity [
  | none ↦ false
  | some capacity ↦ leb capacity (Registry.entry_count r.authority.registry)
]

-- The registry alone is reset: the lineage and the verdicts stay.
abbrev pub make_room : Receiver → Authority
make_room r =
    if is_full r
    then record r.authority { registry = Registry.reset r.authority.registry }
    else r.authority

abbrev pub acknowledge : TranslationContract → TransportStatus → AcknowledgementContract
acknowledge t status = record {
  message_id = t.message_id;
  transport_status = status;
  translation_status = t.translation_status;
  confidence = t.confidence;
  trace_reference = t.trace_reference;
}

-- the transport status for a verdict
unfoldable pub answer : TranslationContract → ReplayVerdict → TransportStatus
answer t verdict =
    if not (is_valid verdict)
    then halt_replay_detected
    else resolve_transport_status t.translation_status t.confidence

abbrev pub submission : ℤ → TranslationContract → Registry.Call
submission now t = record { now = now; message_id = t.message_id; issued_at = none }

pub record Gateway : Type 0 where
  pub receiver : Receiver
  pub limiter : RateLimiter

abbrev pub respond :
    CommunicationRequest → TranslationContract → AcknowledgementContract → CommunicationResponse
respond q t ack = record {
  message_id = q.message_id;
  source_type = q.source_type;
  destination_type = q.destination_type;
  translation_contract = t;
  acknowledgement = ack;
}

module _ (h : Hashing) where
  unfoldable pub receive : ℤ → TranslationContract → Receiver → AcknowledgementContract × Receiver
  unfolding answer
  receive now t r =
      let (verdict, authority) =
        submit h (submission now t) (some t.trace_reference) (make_room r) in
      (acknowledge t (answer t verdict), record r { authority = authority })

  abbrev pub limited : CommunicationRequest → CommunicationResponse
  limited q =
      let t = from_request h q rejected in respond q t (acknowledge t halt_rate_limit_exceeded)

  abbrev pub translate_request : Config → CommunicationRequest → TranslationContract
  translate_request cfg q = from_request h q (resolve_translation_status cfg q.confidence none none)

  unfoldable pub send :
      Config → ℕ → ℤ → CommunicationRequest → Gateway → CommunicationResponse × Gateway
  unfolding receive
  send cfg tick now q g =
      let (allowed, limiter) = allow tick g.limiter in
      let t = translate_request cfg q in
      let (ack, receiver) = receive now t g.receiver in
      if not allowed
      then (limited q, record g { limiter = limiter })
      else (respond q t ack, record { receiver = receiver; limiter = limiter })

-- `_receiver.reset()`
unfoldable pub reset_receiver : Receiver → Receiver
reset_receiver r = record r { authority = AuthorityModule.reset r.authority }
