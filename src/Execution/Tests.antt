-- ===== src/Execution/Tests.antt =====
-- The loop on a signed contract, a repeat of it and a malformed one.
use qcg_task.Prelude.{String, ◌≡◌, refl, some, none, true, List, [], ◌∷◌, length, All}
use qcg_task.Prelude.Int.{ℤ, pos, ◌-ℤ◌}
use qcg_task.Prelude.Dict.{insert, lookup}
use qcg_task.Samples.{cfg, plain, sample}
use qcg_task.Contract.{Contract, post_init}
use qcg_task.Runtime.{ExecutionResult, Texts, execute}
use qcg_task.Replay.Registry.{ReplayRegistry, Status, missing, new_registry, valid, duplicate}
use qcg_task.Ledger.{
  ExecutionRecord, EvidenceLedger, verify_chain, extend_chain, get_snapshot, append,
}
use qcg_task.Replay.Authority.{Authority, ReplayVerdict}
use qcg_task.Replay.Authority
use qcg_task.Replay.Registry
use qcg_task.Trust.Samples.{keyed}
use qcg_task.Trust.Identity.{new_signer}
use qcg_task.Trust.Provenance.Defs.{sign_contract, verify_contract_provenance}
use qcg_task.Trust.Producers.Defs.{
  ProducerRegistry, is_revoked, save, absent, register_producer, producer_entry, verify_producer,
}
use qcg_task.Execution.Defs.{
  first_identity, Message, complete, incomplete, Answer, Executor, fields, malformed, executed,
  halt_invalid_contract, halt_replay, handle, run_all, start, record_of, replay_check,
  trust_and_run, run_contract,
}
use qcg_task.Execution.Executed.{handle-executed, HasPassed}
use qcg_task.Execution.Spent.{trace_spent}
use qcg_task.Execution.Loop.{arrivals, run_all_total}
use qcg_task.Execution.Recorded.{run_all-verify_execution}
use qcg_task.Ledger.Provenance.{verify_execution}

abbrev texts : Texts
texts = record { fixed4 = λ c. "0.9800"; message = λ e. "invalid" }

abbrev signed : Contract
signed = sign_contract plain keyed sample (new_signer keyed "k1" "PRODUCER" "QUANTUM" "1.0.0")

abbrev message : Message
message = record { body = fields signed; producer_public_key = "k1"; issued_at = none }

abbrev broken_message : Message
broken_message = record { body = malformed "tr-2"; producer_public_key = "k1"; issued_at = none }

abbrev turns : List (ℤ × String × Message)
turns =
    (pos 1000, "e1", message) ∷ (pos 1001, "e2", message) ∷ (pos 1002, "e3", broken_message) ∷ []

abbrev registry : ReplayRegistry
registry = new_registry missing (pos 300) (pos 1000)

abbrev trust : ProducerRegistry
trust = record { registry = []; revoked_keys = []; disk = absent }

abbrev begin : Executor
begin = start plain registry trust

run_all_total_example :
    ((answers : List Answer) × (after : Executor) × (run_all cfg plain keyed texts
          (arrivals turns)
          begin
        ≡ some (answers, after))
      × (length answers ≡ length turns)
      × (verify_chain plain after.ledger ≡ some true))
    × (run_all cfg plain keyed texts
          ((pos 1000, "e1", complete message) ∷ (pos 1001, "e2", incomplete) ∷ [])
          begin
        ≡ none)
run_all_total_example =
    run_all_total cfg plain keyed texts registry trust turns
      ((pos 1000, "e1", complete message) ∷ []) [] (pos 1001) "e2" refl

abbrev contract : Contract
contract = post_init plain signed

abbrev checked : ReplayVerdict × Authority
checked = replay_check cfg plain keyed texts (pos 1000) message begin

abbrev result : ExecutionResult
result = execute cfg plain texts "" contract

abbrev rec : ExecutionRecord
rec = record_of cfg plain keyed texts "e1" contract checked.0 result begin.ledger

abbrev ledger : EvidenceLedger
ledger = extend_chain plain rec begin.ledger

abbrev entered : ProducerRegistry
entered = save (record trust {
  registry =
      (
        "PRODUCER",
        record { identity = first_identity contract "k1"; allowed_types = "QUANTUM" ∷ [] },
      )
      ∷ [];
})

abbrev finished : Executor
finished = record { authority = checked.1; trust = entered; ledger = ledger }

executed_first :
    handle cfg plain keyed texts (pos 1000) "e1" message begin
    ≡ some (executed result rec (get_snapshot plain ledger), finished)
unfolding handle trust_and_run run_contract Authority.is_valid Authority.submit Registry.submit ◌-ℤ◌
    lookup producer_entry register_producer verify_producer post_init sign_contract insert
    is_revoked verify_contract_provenance append
executed_first = refl

handle-executed_example :
    (checked.0.status ≡ valid) × HasPassed cfg plain keyed texts message.body "k1" finished result
handle-executed_example =
    handle-executed cfg plain keyed texts (pos 1000) "e1" message begin result rec
      (get_snapshot plain ledger) finished executed_first

-- a malformed message with the trace identifier of the signed contract
abbrev intruder : Message
intruder = record { body = malformed "tr-1"; producer_public_key = "other"; issued_at = none }

abbrev intruded : ReplayVerdict × Authority
intruded = replay_check cfg plain keyed texts (pos 1000) intruder begin

abbrev after_intruder : Executor
after_intruder = record begin { authority = intruded.1 }

intruder_refused :
    handle cfg plain keyed texts (pos 1000) "e1" intruder begin
    ≡ some (halt_invalid_contract, after_intruder)
unfolding handle trust_and_run Authority.is_valid Authority.submit Registry.submit ◌-ℤ◌ lookup
intruder_refused = refl

trace_spent_example :
    (status : Status) × (s3 : Executor) × (handle cfg plain keyed texts
        (pos 1001)
        "e2"
        message
        after_intruder
      ≡ some (halt_replay status, s3))
unfolding Authority.submit Registry.submit ◌-ℤ◌ lookup run_all sign_contract post_init
trace_spent_example =
    trace_spent cfg plain keyed texts (pos 1000) "e1" intruder begin halt_invalid_contract
      after_intruder [] [] after_intruder (pos 1001) "e2" message intruder_refused refl refl refl

-- a loop that executes the signed message
executed_alone :
    run_all cfg plain keyed texts ((pos 1000, "e1", complete message) ∷ []) begin
    ≡ some (executed result rec (get_snapshot plain ledger) ∷ [], finished)
unfolding run_all handle trust_and_run run_contract Authority.is_valid Authority.submit
    Registry.submit ◌-ℤ◌ lookup producer_entry register_producer verify_producer post_init
    sign_contract insert is_revoked verify_contract_provenance append
executed_alone = refl

run_all-verify_execution_example :
    All (λ (r : ExecutionRecord). verify_execution plain r ≡ true) finished.ledger.records
run_all-verify_execution_example =
    run_all-verify_execution cfg plain keyed texts registry trust
      ((pos 1000, "e1", complete message) ∷ [])
      (executed result rec (get_snapshot plain ledger) ∷ []) finished executed_alone
