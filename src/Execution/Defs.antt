-- ===== src/Execution/Defs.antt =====
-- One turn of the loop of `run` on a CONTRACT message. Sockets, the heart beat and log lines are
-- left out. `now` is the wall clock and `exec_id` the identifier that uuid4 draws.
use qcg_task.Prelude.{
  String, Bool, true, false, not, ◌==◌, Option, none, some, List, [], ◌∷◌, if◌then◌else◌, Result,
  ok, err,
}
use qcg_task.Prelude.Int.{ℤ}
use qcg_task.Prelude.Json.{Json, Hashing, text, count, obj, field, done, json_hash}
use qcg_task.Config.{Config}
use qcg_task.Contract.{Contract, post_init}
use qcg_task.Runtime.{ExecutionResult, Texts, ack_text, execute}
use qcg_task.Replay.Registry.{ReplayRegistry, Status}
use qcg_task.Replay.Authority as AuthorityModule
use qcg_task.Replay.Authority.{Authority, ReplayVerdict, is_valid}
use qcg_task.Ledger.{ExecutionRecord, EvidenceLedger, LedgerSnapshot, append, empty_ledger}
use qcg_task.Trust.Identity.{Ecdsa, NodeIdentity}
use qcg_task.Trust.Producers.Defs.{
  ProducerRegistry, ProducerEntry, VerificationFailure, RegisterError, register_producer,
  producer_entry, verify_producer,
}

-- A message's contract, or the trace identifier of one that cannot be constructed. The fields of a
-- contract have the types that the class declares, which Python does not check: a confidence that
-- is no number raises a TypeError in the program and is left out.
pub data Body : Type 0 where
  fields : Contract → Body
  malformed : String → Body

pub record Message : Type 0 where
  pub body : Body
  pub producer_public_key : String
  pub issued_at : Option ℤ

-- What arrives: a message with the keys that the loop reads, or one without a contract, its trace
-- identifier or the producer's key.
pub data Arrival : Type 0 where
  complete : Message → Arrival
  incomplete : Arrival

abbrev pub raw_trace_id : Body → String
raw_trace_id (fields c) = c.trace_id
raw_trace_id (malformed trace_id) = trace_id

-- What is put on the outgoing queue.
pub data Answer : Type 0 where
  halt_replay : Status → Answer
  halt_invalid_contract : Answer
  halt_key_mismatch : Answer
  halt_untrusted : VerificationFailure → Answer
  executed : ExecutionResult → ExecutionRecord → LedgerSnapshot → Answer

pub record Executor : Type 0 where
  pub authority : Authority
  pub trust : ProducerRegistry
  pub ledger : EvidenceLedger

-- the identity that a producer is entered with on first contact
abbrev pub first_identity : Contract → String → NodeIdentity
first_identity c key = record {
  node_id = c.producer_id;
  public_key = key;
  node_role = "PRODUCER";
  version = "1.0.0";
}

-- First contact registers the key of the message, and later ones compare it: `err` is the ValueError
-- of `register`, and the flag whether the keys agree.
abbrev pub contact :
    Contract
    → String
    → ProducerRegistry
    → Option ProducerEntry
    → Result RegisterError (Bool × ProducerRegistry)
contact c key trust none =
    elim (register_producer (first_identity c key) (some (c.producer_type ∷ [])) trust) [
      | ok trust' ↦ ok (true, trust')
      | err e ↦ err e
    ]
contact c key trust (some entry) = ok (entry.identity.public_key == key, trust)

-- The dictionary that the execution hash is made of.
abbrev pub base_dict : Texts → String → Contract → ReplayVerdict → ExecutionResult → Json
base_dict t exec_id c v result = obj (
    field "execution_id" (text exec_id) (
      field "trace_id" (text c.trace_id) (
        field "replay_reference" (text v.lineage_record.verification_hash) (
          field "execution_sequence" (count v.sequence_number) (
            field "producer_identity" (text c.producer_id) (
              field "runtime_identity" (text "RUNTIME_CORE_1") (
                field "governance_identity" (text "GOVERNANCE_LAYER") (
                  field "execution_status" (text (ack_text t result.ack)) (
                    field "runtime_hash" (text result.runtime_hash)
                      (field "schema_version" (text "1.0.0") done))))))))))

module _ (cfg : Config) (h : Hashing) (e : Ecdsa) (t : Texts) where
  abbrev pub record_of :
      String → Contract → ReplayVerdict → ExecutionResult → EvidenceLedger → ExecutionRecord
  record_of exec_id c v result l = record {
    execution_id = exec_id;
    trace_id = c.trace_id;
    replay_reference = v.lineage_record.verification_hash;
    execution_sequence = v.sequence_number;
    producer_identity = c.producer_id;
    runtime_identity = "RUNTIME_CORE_1";
    governance_identity = "GOVERNANCE_LAYER";
    execution_status = ack_text t result.ack;
    runtime_hash = result.runtime_hash;
    execution_hash = json_hash h (base_dict t exec_id c v result);
    previous_execution_hash = l.current_head;
    execution_root_hash = "";
    schema_version = "1.0.0";
  }

  -- The core runs without a ledger, so that the head it reads is the empty text. `none` is the
  -- ValueError of the ledger, which ends the process.
  unfoldable pub run_contract :
      String → Contract → ReplayVerdict → Executor → Option (Answer × Executor)
  run_contract exec_id c v s =
      let result = execute cfg h t "" c in
      let rec : ExecutionRecord = record_of exec_id c v result s.ledger in
      elim (append h rec s.ledger) [
        | ok (snapshot, ledger) ↦ some (executed result rec snapshot, record s { ledger = ledger })
        | err failure ↦ none
      ]

  abbrev pub after_trust :
      String
      → Contract
      → ReplayVerdict
      → Executor
      → Option VerificationFailure
      → Option (Answer × Executor)
  after_trust exec_id c v s (some failure) = some (halt_untrusted failure, s)
  after_trust exec_id c v s none = run_contract exec_id c v s

  abbrev pub after_contact :
      String
      → Contract
      → ReplayVerdict
      → Executor
      → Result RegisterError (Bool × ProducerRegistry)
      → Option (Answer × Executor)
  after_contact exec_id c v s (err failure) = none
  after_contact exec_id c v s (ok (false, trust)) = some (halt_key_mismatch, s)
  after_contact exec_id c v s (ok (true, trust)) =
      after_trust exec_id c v (record s { trust = trust })
        (verify_producer h e c trust).failure_mode

  unfoldable pub trust_and_run :
      String → Body → String → ReplayVerdict → Executor → Option (Answer × Executor)
  unfolding run_contract
  trust_and_run exec_id (malformed trace_id) key v s = some (halt_invalid_contract, s)
  trust_and_run exec_id (fields raw) key v s =
      let c = post_init h raw in
      after_contact exec_id c v s (contact c key s.trust (producer_entry c.producer_id s.trust))

  abbrev pub replay_check : ℤ → Message → Executor → ReplayVerdict × Authority
  replay_check now m s =
      AuthorityModule.submit h
        (record { now = now; message_id = raw_trace_id m.body; issued_at = m.issued_at }) none
        s.authority

  unfoldable pub handle : ℤ → String → Message → Executor → Option (Answer × Executor)
  unfolding trust_and_run
  handle now exec_id m s =
      let (verdict, authority) = replay_check now m s in
      let s' : Executor = record s { authority = authority } in
      if not (is_valid verdict)
      then some (halt_replay verdict.status, s')
      else trust_and_run exec_id m.body m.producer_public_key verdict s'

  -- A key that is missing is a KeyError, which ends the process before the authority is asked.
  abbrev pub receive : ℤ → String → Arrival → Executor → Option (Answer × Executor)
  receive now exec_id (complete m) s = handle now exec_id m s
  receive now exec_id incomplete s = none

  -- The loop over the messages that arrive, each with the clock reading and the drawn identifier.
  unfoldable pub run_all : List (ℤ × String × Arrival) → Executor → Option (List Answer × Executor)
  run_all [] s = some ([], s)
  run_all ((now, exec_id, m) ∷ rest) s = elim (receive now exec_id m s) [
    | none ↦ none
    | some (answer, s') ↦ elim (run_all rest s') [
      | none ↦ none
      | some (answers, s'') ↦ some (answer ∷ answers, s'')
    ]
  ]

-- `run`'s state before the first message, over a new registry and a new trust registry
abbrev pub start : Hashing → ReplayRegistry → ProducerRegistry → Executor
start h registry trust = record {
  authority = AuthorityModule.new_authority registry;
  trust = trust;
  ledger = empty_ledger h;
}
