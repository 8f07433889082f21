-- ===== src/Services/Tests.antt =====
-- The services on one signed message, with answered and with lost calls.
use qcg_task.Prelude.{String, ◌≡◌, ◌↔◌, refl, ap, some, none, true, List, [], ◌∷◌, arith, All, map}
use qcg_task.Prelude.Int.{ℤ, pos, ◌-ℤ◌}
use qcg_task.Prelude.Dict.{insert, lookup}
use qcg_task.Samples.{cfg, plain, sample}
use qcg_task.Contract.{
  Contract, post_init, validate_contract, is_filled_dict, check_version, parse_semver, earlier,
}
use qcg_task.Runtime.{ExecutionResult, Texts, execute}
use qcg_task.Replay.Registry.{ReplayRegistry, missing, new_registry, valid, duplicate}
use qcg_task.Replay.Registry
use qcg_task.Replay.Authority as AuthorityModule
use qcg_task.Replay.Authority.{Authority, ReplayVerdict, is_valid, new_authority}
use qcg_task.Ledger.{
  ExecutionRecord, EvidenceLedger, LedgerSnapshot, verify_chain, extend_chain, get_snapshot, append,
  empty_ledger,
}
use qcg_task.Ledger.Provenance.{verify_execution, base_dict}
use qcg_task.Trust.Samples.{keyed, keyed-IsCorrect}
use qcg_task.Trust.Identity.{NodeSigner, new_signer}
use qcg_task.Trust.Provenance.Defs.{sign_contract, verify_contract_provenance}
use qcg_task.Trust.Producers.Defs.{
  is_revoked, absent, register_producer, producer_entry, verify_producer,
}
use qcg_task.Execution.Defs.{
  Message, Executor, fields, handle, replay_check, record_of, run_all, run_contract, trust_and_run,
  executed,
}
use qcg_task.Consensus.Engine.{ConsensusProof}
use qcg_task.Services.Replies.{
  no_metrics, SubmitResponse, halted_replay, carried_out, proof, serve_replay, serve_trust,
  response_of,
}
use qcg_task.Services.Turn.{
  unsent, Event, idle, arrives, Conditions, System, service_record, run_body, turn, turns,
}
use qcg_task.Services.Accounts.{Balanced, forwarded, read_by, turns_accounted}
use qcg_task.Services.Follows.{calm, process_of, process_turn, services_turn, AllMatch}
use qcg_task.Services.Process.{turns_follow_process}
use qcg_task.Services.Agreed.{carried_out_agreed}
use qcg_task.Services.Records.{turns_verified_iff}

abbrev texts : Texts
texts = record { fixed4 = λ c. "0.9800"; message = λ e. "invalid" }

abbrev signed : Contract
signed = sign_contract plain keyed sample (new_signer keyed "k1" "PRODUCER" "QUANTUM" "1.0.0")

abbrev message : Message
message = record { body = fields signed; producer_public_key = "k1"; issued_at = some (pos 999) }

abbrev node_a : NodeSigner
node_a = new_signer keyed "ka" "CONS_NODE_A_DIST" "EXECUTION_NODE" "1.0.0"

abbrev node_b : NodeSigner
node_b = new_signer keyed "kb" "CONS_NODE_B_DIST" "EXECUTION_NODE" "1.0.0"

abbrev begin : System
begin = record {
  replay = record {
    authority = new_authority (new_registry missing (pos 300) (pos 1000));
    metrics = no_metrics;
  };
  trust = record { registry = []; revoked_keys = []; disk = absent };
  ledger = empty_ledger plain;
  metrics = no_metrics;
  consensus = record { nodes = node_a ∷ node_b ∷ []; lines = []; metrics = no_metrics };
}

-- The trust service is not reached.
abbrev cut_off : Conditions
cut_off = record (calm (pos 1000) (pos 1000) "e2") { trust_call = unsent }

abbrev both : List Event
both = arrives cut_off message ∷ idle ∷ arrives (calm (pos 1001) (pos 1001) "e1") message ∷ []

-- A message that was lost between the services is answered as a repeated one when it is sent again.
spent_on_loss :
    (turns cfg plain keyed texts both begin).0 ≡ none ∷ none ∷ some (halted_replay duplicate) ∷ []
unfolding turns turn serve_replay is_valid AuthorityModule.submit Registry.submit ◌-ℤ◌ lookup insert
    sign_contract post_init
spent_on_loss = refl

turns_accounted_example :
    Balanced begin 3
      (forwarded (turns cfg plain keyed texts both begin).0)
      (read_by both (turns cfg plain keyed texts both begin).0)
      (turns cfg plain keyed texts both begin).1
turns_accounted_example = turns_accounted cfg plain keyed texts both begin

abbrev alone : List Event
alone = arrives (calm (pos 1001) (pos 1001) "e1") message ∷ []

turns_verified_iff_example :
    (verify_chain plain (turns cfg plain keyed texts alone begin).1.ledger ≡ some true)
    × All
        (λ (r : ExecutionRecord).
          (verify_execution plain r ≡ true)
          ↔ (plain.sha256 r.execution_id ≡ plain.sha256 (plain.dumps (base_dict r))))
        (turns cfg plain keyed texts alone begin).1.ledger.records
turns_verified_iff_example = turns_verified_iff cfg plain keyed texts alone begin refl

abbrev result : ExecutionResult
result = execute cfg plain texts "" (post_init plain signed)

abbrev response : SubmitResponse
response =
    response_of
      (AuthorityModule.submit plain
        (record { now = pos 1001; message_id = "tr-1"; issued_at = some (pos 999) }) none
        begin.replay.authority).0

abbrev rec : ExecutionRecord
rec =
    service_record cfg plain keyed texts "e1" (post_init plain signed) response result begin.ledger

abbrev snapshot : LedgerSnapshot
snapshot = get_snapshot plain (extend_chain plain rec begin.ledger)

sent_on :
    (turn cfg plain keyed texts (calm (pos 1001) (pos 1001) "e1") message begin).0
    ≡ some (carried_out result signed "k1" rec snapshot)
unfolding turn serve_replay serve_trust run_body is_valid AuthorityModule.submit Registry.submit
    ◌-ℤ◌ lookup producer_entry register_producer verify_producer post_init sign_contract insert
    is_revoked verify_contract_provenance append
sent_on = refl

carried_out_agreed_example :
    let after = (turn cfg plain keyed texts (calm (pos 1001) (pos 1001) "e1") message begin).1 in
    (p : ConsensusProof) × (after.consensus.lines ≡ proof p ∷ [])
    × (p.consensus_reached ≡ true)
    × (p.final_hash ≡ rec.runtime_hash)
    × (p.agreeing ≡ 2)
unfolding execute validate_contract is_filled_dict check_version parse_semver earlier post_init
    sign_contract
carried_out_agreed_example =
    let w = calm (pos 1001) (pos 1001) "e1" in
    let after = (turn cfg plain keyed texts w message begin).1 in
    carried_out_agreed cfg plain keyed texts keyed-IsCorrect w message begin after result signed
      "k1" rec snapshot node_a (node_b ∷ []) (ap (λ f. (f, after)) sent_on) refl refl
      (refl, (refl, tt), (refl, tt, tt)) refl refl (omega arith)

abbrev calm_turns : List (ℤ × ℤ × String × Message)
calm_turns = (pos 1001, pos 1001, "e1", message) ∷ []

abbrev process : Executor
process = process_of begin (empty_ledger plain)

abbrev checked : ReplayVerdict × Authority
checked = replay_check cfg plain keyed texts (pos 1001) message process

abbrev process_rec : ExecutionRecord
process_rec =
    record_of cfg plain keyed texts "e1" (post_init plain signed) checked.0 result process.ledger

abbrev process_ledger : EvidenceLedger
process_ledger = extend_chain plain process_rec process.ledger

abbrev process_after : Executor
process_after = record {
  authority = checked.1;
  trust = (serve_trust plain keyed message.body "k1" begin.trust).1;
  ledger = process_ledger;
}

process_executes :
    run_all cfg plain keyed texts (map process_turn calm_turns) process
    ≡ some (executed result process_rec (get_snapshot plain process_ledger) ∷ [], process_after)
unfolding run_all handle trust_and_run run_contract serve_trust is_valid AuthorityModule.submit
    Registry.submit ◌-ℤ◌ lookup producer_entry register_producer verify_producer post_init
    sign_contract insert is_revoked verify_contract_provenance append
process_executes = refl

turns_follow_process_example :
    AllMatch
      (executed result process_rec (get_snapshot plain process_ledger) ∷ [])
      (turns cfg plain keyed texts (map services_turn calm_turns) begin).0
    × ((turns cfg plain keyed texts (map services_turn calm_turns) begin).1.replay.authority
        ≡ process_after.authority)
    × ((turns cfg plain keyed texts (map services_turn calm_turns) begin).1.trust
        ≡ process_after.trust)
turns_follow_process_example =
    turns_follow_process cfg plain keyed texts calm_turns begin (empty_ledger plain)
      (executed result process_rec (get_snapshot plain process_ledger) ∷ []) process_after
      ((pos 999, refl), tt) process_executes
