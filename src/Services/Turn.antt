-- ===== src/Services/Turn.antt =====
-- A turn of run_execution_service on a CONTRACT message, with the services that it calls. A call is
-- sent or not, and its reply arrives in time or not; an exception in the loop only counts a failure.
use qcg_task.Prelude.{String, Bool, true, false, Option, none, some, List, [], ◌∷◌, Result, ok, err}
use qcg_task.Prelude.Int.{ℤ}
use qcg_task.Prelude.Json.{Hashing}
use qcg_task.Config.{Config}
use qcg_task.Contract.{Contract, post_init}
use qcg_task.Runtime.{ExecutionResult, Texts, ack_text, execute}
use qcg_task.Ledger.{ExecutionRecord, EvidenceLedger, LedgerSnapshot, LedgerError, append}
use qcg_task.Trust.Identity.{Ecdsa}
use qcg_task.Trust.Producers.Defs.{ProducerRegistry}
use qcg_task.Execution.Defs.{Body, fields, malformed, Message, raw_trace_id}
use qcg_task.Services.Replies.{
  Metrics, count_request, count_failure, ReplayRequest, submit_request, SubmitResponse,
  ReplayResponse, submitted, ReplayService, serve_replay, TrustResponse, serve_trust, Forward,
  halted_replay, halted_trust, carried_out, ConsensusService, serve_consensus,
}

-- How a call to another service goes.
pub data Exchange : Type 0 where
  unsent : Exchange
  reply_lost : Exchange
  answered : Exchange

-- How a message to the consensus service goes: `put` raises, or it succeeds and the service reads
-- the message or not, since a TCP receiver takes the end of a connection for DONE and stops.
pub data Delivery : Type 0 where
  unreached : Delivery
  unread : Delivery
  served : Delivery

-- What the network and the clocks of the execution and the replay service do during one turn.
pub record Conditions : Type 0 where
  pub now : ℤ
  pub replay_now : ℤ
  pub exec_id : String
  pub replay_call : Exchange
  pub trust_call : Exchange
  pub delivery : Delivery

-- What a round of the loop meets: no message for a second, one without a contract, its trace
-- identifier or the producer's key, or a message with all of them. Messages of another type, which
-- the loop passes over, and DONE, which ends it, are left out.
pub data Event : Type 0 where
  idle : Event
  keyless : Event
  arrives : Conditions → Message → Event

pub record System : Type 0 where
  pub replay : ReplayService
  pub trust : ProducerRegistry
  pub ledger : EvidenceLedger
  pub metrics : Metrics
  pub consensus : ConsensusService

-- an exception of the loop of the execution service
abbrev pub failed : System → System
failed s = record s { metrics = count_failure s.metrics }

-- `msg.get("issued_at", time.time())`
abbrev pub stamped : ℤ → Option ℤ → ℤ
stamped now none = now
stamped now (some issued_at) = issued_at

abbrev pub submit_of : Conditions → Message → ReplayRequest
submit_of w m = submit_request (record {
  now = w.replay_now;
  message_id = raw_trace_id m.body;
  issued_at = some (stamped w.now m.issued_at);
})

module _ (cfg : Config) (h : Hashing) (e : Ecdsa) (t : Texts) where
  -- the record of the service, whose execution hash is that of the identifier
  abbrev pub service_record :
      String → Contract → SubmitResponse → ExecutionResult → EvidenceLedger → ExecutionRecord
  service_record exec_id c r result l = record {
    execution_id = exec_id;
    trace_id = c.trace_id;
    replay_reference = r.verification_hash;
    execution_sequence = r.sequence_number;
    producer_identity = c.producer_id;
    runtime_identity = "RUNTIME_CORE_DIST";
    governance_identity = "GOVERNANCE_LAYER_DIST";
    execution_status = ack_text t result.ack;
    runtime_hash = result.runtime_hash;
    execution_hash = h.sha256 exec_id;
    previous_execution_hash = l.current_head;
    execution_root_hash = "";
    schema_version = "1.0.0";
  }

  -- the message to the consensus service
  abbrev pub send_forward : Delivery → Forward → System → Option Forward × System
  send_forward served f s =
      (some f, record s { consensus = serve_consensus cfg h e t f s.consensus })
  send_forward unread f s = (some f, s)
  send_forward unreached f s = (none, failed s)

  abbrev pub after_append :
      Conditions
      → Contract
      → String
      → ExecutionResult
      → ExecutionRecord
      → Result LedgerError (LedgerSnapshot × EvidenceLedger)
      → System
      → Option Forward × System
  after_append w raw key result rec (err failure) s = (none, failed s)
  after_append w raw key result rec (ok (snapshot, ledger)) s =
      send_forward w.delivery (carried_out result raw key rec snapshot)
        (record s { ledger = ledger })

  -- step 3; a contract that cannot be constructed raises
  unfoldable pub run_body :
      Conditions → Body → String → SubmitResponse → System → Option Forward × System
  run_body w (malformed trace_id) key r s = (none, failed s)
  run_body w (fields raw) key r s =
      let c = post_init h raw in
      let result = execute cfg h t "" c in
      let rec : ExecutionRecord = service_record w.exec_id c r result s.ledger in
      after_append w raw key result rec (append h rec s.ledger) s

  abbrev pub after_trust_reply :
      Conditions → Body → String → SubmitResponse → TrustResponse → System → Option Forward × System
  after_trust_reply w body key r reply s = elim reply.halt [
    | none ↦ run_body w body key r s
    | some reason ↦ send_forward w.delivery (halted_trust reason) s
  ]

  -- step 2
  abbrev pub call_trust :
      Exchange → Conditions → Body → String → SubmitResponse → System → Option Forward × System
  call_trust unsent w body key r s = (none, failed s)
  call_trust reply_lost w body key r s =
      let (reply, trust) = serve_trust h e body key s.trust in
      (none, failed (record s { trust = trust }))
  call_trust answered w body key r s =
      let (reply, trust) = serve_trust h e body key s.trust in
      after_trust_reply w body key r reply (record s { trust = trust })

  -- on `verdict_raw.get("is_valid")`
  abbrev pub after_verdict :
      Bool → Conditions → Body → String → SubmitResponse → System → Option Forward × System
  after_verdict true w body key r s = call_trust w.trust_call w body key r s
  after_verdict false w body key r s = send_forward w.delivery (halted_replay r.status) s

  abbrev pub after_replay_reply :
      Conditions → Body → String → ReplayResponse → System → Option Forward × System
  after_replay_reply w body key (submitted r) s = after_verdict r.valid w body key r s
  after_replay_reply w body key _ s = (none, failed s)

  -- step 1
  abbrev pub call_replay : Exchange → Conditions → Message → System → Option Forward × System
  call_replay unsent w m s = (none, failed s)
  call_replay reply_lost w m s =
      let (reply, replay) = serve_replay h (submit_of w m) s.replay in
      (none, failed (record s { replay = replay }))
  call_replay answered w m s =
      let (reply, replay) = serve_replay h (submit_of w m) s.replay in
      after_replay_reply w m.body m.producer_public_key reply (record s { replay = replay })

  unfoldable pub turn : Conditions → Message → System → Option Forward × System
  turn w m s = call_replay w.replay_call w m (record s { metrics = count_request s.metrics })

  -- An idle second raises `queue.Empty`, which counts as a failure, and a key that is missing raises
  -- after the request is counted.
  abbrev pub pass : Event → System → Option Forward × System
  pass idle s = (none, failed s)
  pass keyless s = (none, failed (record s { metrics = count_request s.metrics }))
  pass (arrives w m) s = turn w m s

  -- the rounds of the loop
  unfoldable pub turns : List Event → System → List (Option Forward) × System
  unfolding turn
  turns [] s = ([], s)
  turns (x ∷ rest) s = let (f, s') = pass x s in let (fs, s'') = turns rest s' in (f ∷ fs, s'')
